-- ===== src/Keyring/Pruning.antt =====
-- crypto/aead.go: a value opens in its place alone, and which secrets may be dropped.
use go_dev_auth.Prelude.{
  ℕ, ◌≡◌, refl, ap, sym, subst, ◌∙◌, String, Bool, true, false, Option, none, some, List, [], ◌∷◌,
  arith, str_eq, eq_iff, eq_refl, if◌then◌else◌, Bool-cases, Option-cases, inl, inr,
}
use mathlib.Core.Option.{some_inj}
use go_dev_auth.Prelude.Result.{Result, ok, err}
use go_dev_auth.Prelude.Split.{split, has_code-split}
use go_dev_auth.Keyring.{
  Bytes, Aead, Primitives, malformed, invalid_binding, Binding, Keyring, is_complete, aad, key_of,
  secrets, new_keyring, add_previous, encrypt, decrypt, decrypt_split, decrypt_parts, additional,
  open_with, needs_reencryption, is_stale,
}
use go_dev_auth.Keyring.Bindings.{IsAddressable, aad_inj}
use go_dev_auth.Keyring.Opening.{IsSound, IsDistinct, split-v2, kid-has_code}
use go_dev_auth.Keyring.Rotation.{IsRandom, is_configured, member-add_previous, written, opened}

ok_inj : {E A : Type 0} {a b : A} → ◌≡◌ {A = Result E A} (ok a) (ok b) → a ≡ b
ok_inj e = cc

opens :
    (complete : Bool) (tried : Option String) (out : String)
    → (if complete
        then elim tried [ none ↦ err malformed | some pt ↦ ok pt ]
        else err invalid_binding)
      ≡ ok out
    → tried ≡ some out
opens true none out e = cc
opens true (some pt) out e = cc
opens false tried out e = cc

module _ (p : Primitives) (sound : IsSound p) where
  -- A value that is encrypted for a complete place opens at no other place under a key ring that has
  -- the secret it was written with as its current or as a previous one, where no other configured
  -- secret has the key identifier: where it opens, the place is the one that it was written for, and
  -- the text the one that was encrypted. The primitives do what they document, and the parts of both
  -- places are shorter than 2 ^ 64 bytes. Rings without the secret are not covered.
  pub decrypt-eq :
      (secret current : String) (previous previous' : List String) (reject reject' : Bool)
      (random : ℕ → Option Bytes) (b c : Binding) (plaintext written_value out : String)
      → IsRandom random
      → is_complete b ≡ true
      → IsAddressable b
      → IsAddressable c
      → is_configured secret current previous' ≡ true
      → IsDistinct p secret (secrets (new_keyring current previous' reject'))
      → encrypt p (new_keyring secret previous reject) random b plaintext ≡ ok written_value
      → decrypt p (new_keyring current previous' reject') c written_value ≡ ok out
      → (b ≡ c) × (plaintext ≡ out)
  unfolding new_keyring
  decrypt-eq secret current previous previous' reject reject' random b c plaintext value out fills
        complete small small' configured d w o =
      let (kid, gcm, nonce, k, n, w') =
        written p sound (new_keyring secret previous reject) random b plaintext fills complete in
      let m = member-add_previous secret current previous' [] (ground arith) in
      let same : _ ≡ value = ok_inj (sym w' ∙ w) in
      let tried = opens (is_complete c) _ out (
        sym
          (opened p sound (new_keyring current previous' reject') c secret kid gcm nonce _ k n m d)
        ∙ ap (decrypt p (new_keyring current previous' reject') c) same
        ∙ o) in
      let place =
        aad_inj b c kid small small'
          (sound.authentic secret kid gcm k nonce plaintext (aad b kid) (aad c kid) out tried) in
      let again = sound.opening secret kid gcm k nonce plaintext (aad b kid) n in
      (
        place,
        some_inj.0 (
            sym again
            ∙ subst
                (λ x.
                  gcm.unseal nonce (gcm.seal nonce plaintext (aad b kid)) (aad x kid) ≡ some out)
                (sym place) tried),
      )

-- A value that need not be encrypted again has the current key's identifier.
IsCurrent : Primitives → Keyring → List String → Type 0
IsCurrent p kr parts =
    (kid body : String) × (gcm : Aead) × (parts ≡ "v2" ∷ kid ∷ body ∷ [])
    × (key_of p kr.current ≡ some (kid, gcm))

stale_lem :
    (p : Primitives) (kr : Keyring) (parts : List String)
    → is_stale p kr parts ≡ false
    → IsCurrent p kr parts
unfolding is_stale IsCurrent
stale_lem p kr [] h = cc
stale_lem p kr (a ∷ []) h = cc
stale_lem p kr (a ∷ b ∷ []) h = cc
stale_lem p kr (a ∷ b ∷ c ∷ d ∷ rest) h = cc
stale_lem p kr (version ∷ kid ∷ body ∷ []) h = elim (Bool-cases (str_eq version "v2")) [
  | inr e ↦ absurd (cc (rw e at h))
  | inl e ↦ elim (Option-cases (key_of p kr.current)) [
    | inl n ↦ absurd (cc (rw (e, n) at h))
    | inr ((id, gcm), k) ↦
        let same : kid ≡ id = ground (arith, eq_iff kid id, rw (e, k) at h) in
        (
          kid,
          body,
          gcm,
          ap (λ v. v ∷ kid ∷ body ∷ []) ((eq_iff version "v2").0 e),
          k ∙ ap (λ i. some (i, gcm)) (sym same),
        )
  ]
]

open_with-current :
    (p : Primitives) (kr : Keyring) (kid : String) (gcm : Aead) (raw extra : Bytes)
    → key_of p kr.current ≡ some (kid, gcm)
    → open_with p (kr.current ∷ []) kid raw extra ≡ open_with p (secrets kr) kid raw extra
unfolding open_with
open_with-current p kr kid gcm raw extra k = rw (open_with, k, eq_refl kid) refl

decrypt_parts-pruned :
    (p : Primitives) (kr : Keyring) (c : Binding) (kid body : String) (gcm : Aead)
    → key_of p kr.current ≡ some (kid, gcm)
    → decrypt_parts p (new_keyring kr.current [] true) c "v2" kid body
      ≡ decrypt_parts p kr c "v2" kid body
unfolding decrypt_parts additional new_keyring add_previous
decrypt_parts-pruned p kr c kid body gcm k = elim (Bool-cases (is_complete c)) [
  | inr e ↦ rw e refl
  | inl e ↦ elim (Option-cases (p.decode body)) [
    | inl n ↦ rw (e, n) refl
    | inr (raw, d) ↦ rw (e, d) (open_with-current p kr kid gcm raw (aad c kid) k)
  ]
]

-- A value that need not be encrypted again is decrypted without the previous secrets, and with the
-- unbound formats refused, as it is with both.
pub decrypt-pruned :
    (p : Primitives) (kr : Keyring) (c : Binding) (value : String)
    → needs_reencryption p kr value ≡ false
    → decrypt p (new_keyring kr.current [] true) c value ≡ decrypt p kr c value
unfolding needs_reencryption decrypt decrypt_split IsCurrent
decrypt-pruned p kr c value h =
    let (kid, body, gcm, parts, k) = stale_lem p kr (split b'.' value) h in
    rw (has_code-split b'.' value "v2" kid (body ∷ []) parts, parts)
      (decrypt_parts-pruned p kr c kid body gcm k)

-- What a ring encrypts needs no other encryption by it.
pub encrypt-needs_reencryption :
    (p : Primitives) (kr : Keyring) (random : ℕ → Option Bytes) (b : Binding)
    (plaintext out : String)
    → IsSound p
    → IsRandom random
    → is_complete b ≡ true
    → encrypt p kr random b plaintext ≡ ok out
    → needs_reencryption p kr out ≡ false
unfolding needs_reencryption is_stale
encrypt-needs_reencryption p kr random b plaintext out sound fills complete e =
    let (kid, gcm, nonce, k, n, w) = written p sound kr random b plaintext fills complete in
    subst (λ v. needs_reencryption p kr v ≡ false) (ok_inj (sym w ∙ e))
      (rw (split-v2 p sound kid _ (kid-has_code p sound kr.current kid gcm k), k, eq_refl kid) refl)
