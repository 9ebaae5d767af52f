-- ===== src/Passkey/Webauthn/Layout.antt =====
-- The layout of authenticator data.
use go_dev_auth.Prelude.{
  ℕ, suc, zero, ◌⊎◌, ◌≡◌, ◌≤◌, ◌<◌, ◌+◌, ◌*◌, ◌^◌, refl, sym, ap, subst, ◌∙◌, true, false, ◌||◌,
  some, List, [], ◌∷◌, ◌++◌, length, take, drop, get_or, append-nil, take-append-drop, arith,
  Option-cases, inl, inr, ◌==◌, ltb, Bool-cases,
}
use go_dev_auth.Passkey.Cbor.{Item, decode_prefix}
use go_dev_auth.Passkey.Cbor.Bounds.{decode_prefix_exact}
use go_dev_auth.Passkey.Webauthn.{
  AuthData, parse_auth_data, parse_attested, with_key, has_attested_data,
}

-- A credential was attested: its id has 1 to 1023 bytes, and its key is one whole CBOR item.
pub record IsAttested (ad : AuthData) : Type 0 where
  pub aaguid : length ad.aaguid ≡ 16
  pub id_low : 0 < length ad.credential_id
  pub id_high : length ad.credential_id ≤ 1023
  pub key : (v : Item) × (decode_prefix ad.public_key ≡ some (v, length ad.public_key))

length-take_le : (n : ℕ) (xs : List ℕ) → n ≤ length xs → length (take n xs) ≡ n
length-take_le zero xs h = refl
length-take_le (suc n) [] h = absurd (omega arith)
length-take_le (suc n) (x ∷ xs) h = omega (arith, length-take_le n xs)

with_key_key :
    (ad : AuthData) (rest : List ℕ) (out : AuthData)
    → with_key ad rest ≡ some out
    → (v : Item) × (n : ℕ) × (decode_prefix rest ≡ some (v, n))
      × (out ≡ record ad { public_key = take n rest })
unfolding with_key
with_key_key ad rest out h = elim (Option-cases (decode_prefix rest)) [
  | inl e ↦ absurd (ground arith)
  | inr ((v, n), e) ↦ (v, n, e, ground arith)
]

whole_key :
    (rest : List ℕ) (v : Item) (n : ℕ)
    → decode_prefix rest ≡ some (v, n)
    → decode_prefix (take n rest) ≡ some (v, length (take n rest))
whole_key rest v n e =
    let (inside, _, alone) = decode_prefix_exact rest v n [] e in
    subst (λ bs. decode_prefix bs ≡ some (v, length (take n rest))) (append-nil (take n rest))
      (alone ∙ ap (λ k. some (v, k)) (sym (length-take_le n rest inside)))

drop-get_or : (i : ℕ) (xs : List ℕ) → i < length xs → drop i xs ≡ get_or xs i 0 ∷ drop (suc i) xs
drop-get_or i [] h = absurd (omega arith)
drop-get_or zero (x ∷ xs) h = refl
drop-get_or (suc i) (x ∷ xs) h = drop-get_or i xs (omega arith)

head_layout :
    (rest : List ℕ)
    → 18 ≤ length rest
    → rest ≡ take 16 rest ++ get_or rest 16 0 ∷ get_or rest 17 0 ∷ drop 18 rest
head_layout rest h =
    sym (take-append-drop 16 rest)
    ∙ ap (λ l. take 16 rest ++ l)
        (drop-get_or 16 rest (omega arith)
          ∙ ap (◌∷◌ (get_or rest 16 0)) (drop-get_or 17 rest (omega arith)))

-- What the bytes of attested data are, for the result of parsing them.
abbrev pub HasLayout : List ℕ → AuthData → Type 0
HasLayout rest out =
    (hi : ℕ) × (lo : ℕ) × (extensions : List ℕ) × (rest
      ≡ out.aaguid ++ (hi ∷ lo ∷ (out.credential_id ++ (out.public_key ++ extensions))))
    × (length out.credential_id ≡ hi * 256 + lo)

-- The fields that stand before the attested data.
abbrev SameHead : AuthData → AuthData → Type 0
SameHead ad out = (out.rp_id_hash ≡ ad.rp_id_hash) × (out.flags ≡ ad.flags)

abbrev id_length : List ℕ → ℕ
id_length rest = get_or rest 16 0 * 256 + get_or rest 17 0

module _ (ad : AuthData) (rest : List ℕ) (long : 18 ≤ length rest) where
  abbrev len : ℕ
  len = id_length rest

  abbrev behind : List ℕ
  behind = drop 18 rest

  key_layout :
      0 < len
      → len ≤ 1023
      → len ≤ length behind
      → (v : Item) (n : ℕ) → decode_prefix (drop len behind) ≡ some (v, n)
      → (out : AuthData)
      → out ≡ record ad {
        aaguid = take 16 rest;
        credential_id = take len behind;
        public_key = take n (drop len behind);
      }
      → IsAttested out × HasLayout rest out × (SameHead ad out)
  key_layout low high fits v n e out same =
      subst (λ o. IsAttested o × HasLayout rest o × SameHead ad o) (sym same)
        (
          record {
            aaguid = length-take_le 16 rest (omega arith);
            id_low = omega (arith, length-take_le len behind fits);
            id_high = omega (arith, length-take_le len behind fits);
            key = (v, whole_key (drop len behind) v n e);
          },
          (
            get_or rest 16 0,
            get_or rest 17 0,
            drop n (drop len behind),
            head_layout rest long
                ∙ ap (λ l. take 16 rest ++ (get_or rest 16 0 ∷ get_or rest 17 0 ∷ l))
                    (sym (take-append-drop len behind)
                      ∙ ap (λ l. take len behind ++ l)
                          (sym (take-append-drop n (drop len behind)))),
            length-take_le len behind fits,
          ),
          (refl, refl),
        )

-- Attested data is the 16 bytes of the AAGUID, two of the length of the id, the id, the key, and
-- what follows the key.
parse_attested_layout :
    (ad : AuthData) (rest : List ℕ) (out : AuthData)
    → parse_attested ad rest ≡ some out
    → IsAttested out × HasLayout rest out × (SameHead ad out)
unfolding parse_attested
parse_attested_layout ad rest out h = elim (Bool-cases (ltb (length rest) 18)) [
  | inl short ↦ absurd (ground arith)
  | inr long ↦
      elim (Bool-cases (
        id_length rest == 0
        || (ltb 1023 (id_length rest) || ltb (length (drop 18 rest)) (id_length rest)))) [
          | inl bad ↦ absurd (ground arith)
          | inr good ↦
              let (v, n, e, same) =
                with_key_key
                  (record ad {
                    aaguid = take 16 rest;
                    credential_id = take (id_length rest) (drop 18 rest);
                  })
                  (drop (id_length rest) (drop 18 rest)) out (rw (long, good) at h) in
              key_layout ad rest (ground arith) (ground arith) (ground arith) (ground arith) v n e
                out same
        ]
]

abbrev head_of : List ℕ → AuthData
head_of raw = record {
  rp_id_hash = take 32 raw;
  flags = get_or raw 32 0;
  sign_count =
      get_or raw 33 0 * 2 ^ 24
      + get_or raw 34 0 * 2 ^ 16
      + get_or raw 35 0 * 2 ^ 8
      + get_or raw 36 0;
  aaguid = [];
  credential_id = [];
  public_key = [];
}

-- Parsed authenticator data begins with the 32-byte RP id hash and the flags. Where the
-- attested-data flag is set, the bytes behind the first 37 are exactly the AAGUID (16 bytes), the
-- big-endian length of the credential id (1 to 1023), the id, one whole CBOR item as the key, and
-- extensions; otherwise there is no credential and no key.
pub parse_auth_data_layout :
    (raw : List ℕ) (out : AuthData)
    → parse_auth_data raw ≡ some out
    → (37 ≤ length raw)
      × (out.rp_id_hash ≡ take 32 raw)
      × (out.flags ≡ get_or raw 32 0)
      × ((has_attested_data out.flags ≡ true) × IsAttested out × HasLayout (drop 37 raw) out
          ⊎ (has_attested_data out.flags ≡ false)
            × (out.credential_id ≡ [])
            × (out.public_key ≡ []))
unfolding parse_auth_data
parse_auth_data_layout raw out h = elim (Bool-cases (ltb (length raw) 37)) [
  | inl short ↦ absurd (ground arith)
  | inr long ↦ elim (Bool-cases (has_attested_data (get_or raw 32 0))) [
    | inl set ↦
        let (attested, layout, head) =
          parse_attested_layout (head_of raw) (drop 37 raw) out (rw (long, set) at h) in
        (ground arith, head.0, head.1, inl (rw head.1 set, attested, layout))
    | inr unset ↦
        (ground arith, ground arith, ground arith, inr (ground arith, ground arith, ground arith))
  ]
]
