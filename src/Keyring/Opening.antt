-- ===== src/Keyring/Opening.antt =====
-- crypto/aead.go: what the code relies on of its primitives, and how Decrypt finds the key of a value.
use go_dev_auth.Prelude.{
  ◌≡◌, refl, ap, sym, subst, ◌∙◌, String, true, false, some, List, [], ◌∷◌, ◌++◌, arith, str_eq,
  eq_iff, eq_refl, if◌then◌else◌, take, length, Bool-cases, Option-cases, inl, inr,
}
use Prim.Native.String.{◌++◌ as str_append}
use mathlib.Core.Option.{some_inj}
use go_dev_auth.Prelude.Text.{codes}
use go_dev_auth.Prelude.Result.{err}
use go_dev_auth.Prelude.Decimal.{has_code}
use go_dev_auth.Prelude.Split.{split, split-append, split-bare, has_code-split}
use go_dev_auth.Keyring.{
  Bytes, Aead, Primitives, Binding, Keyring, is_complete, aad, invalid_binding, key_of, secrets,
  member, v2, decrypt, decrypt_split, decrypt_parts, additional, open_with, open_matched,
}

-- An AEAD opens what it has sealed with the same nonce and additional data.
abbrev pub IsOpening : Aead → Type 0
IsOpening gcm =
    (nonce : Bytes) (plaintext : String) (extra : Bytes)
    → length nonce ≡ gcm.nonce_size
    → gcm.unseal nonce (gcm.seal nonce plaintext extra) extra ≡ some plaintext

-- An AEAD authenticates the additional data.
abbrev pub IsAuthentic : Aead → Type 0
IsAuthentic gcm =
    (nonce : Bytes) (plaintext : String) (extra extra' : Bytes) (out : String)
    → gcm.unseal nonce (gcm.seal nonce plaintext extra) extra' ≡ some out
    → extra ≡ extra'

-- What the code relies on of the primitives: base64url decodes what it encodes and has no dot in its
-- alphabet, every key can be derived, and AES-GCM is an AEAD.
pub record IsSound (p : Primitives) : Type 0 where
  pub decode-encode : (bytes : Bytes) → p.decode (p.encode bytes) ≡ some bytes
  pub no_dot : (bytes : Bytes) → has_code b'.' (p.encode bytes) ≡ false
  pub derives :
      (secret : String) → (kid : String) × (gcm : Aead) × (key_of p secret ≡ some (kid, gcm))
  pub opening :
      (secret kid : String) (gcm : Aead) → key_of p secret ≡ some (kid, gcm) → IsOpening gcm
  pub authentic :
      (secret kid : String) (gcm : Aead) → key_of p secret ≡ some (kid, gcm) → IsAuthentic gcm

-- No two secrets of a list, one of them given, have one key identifier.
abbrev pub IsDistinct : Primitives → String → List String → Type 0
IsDistinct p secret ss =
    (other kid : String) (gcm gcm' : Aead)
    → member other ss ≡ true
    → key_of p secret ≡ some (kid, gcm)
    → key_of p other ≡ some (kid, gcm')
    → other ≡ secret

module _ (p : Primitives) (sound : IsSound p) where
  pub kid-has_code :
      (secret kid : String) (gcm : Aead)
      → key_of p secret ≡ some (kid, gcm)
      → has_code b'.' kid ≡ false
  unfolding key_of
  kid-has_code secret kid gcm e = elim (Option-cases (p.scrypt secret)) [
    | inl n ↦ absurd (cc (rw (key_of, n) at e))
    | inr (master, m) ↦
        elim (Option-cases (p.new_gcm (p.sha256 (codes "go-dev-auth-enc-v1:key" ++ master)))) [
          | inl n ↦ absurd (cc (rw (key_of, m, n) at e))
          | inr (g, f) ↦
              let same : p.encode (take 6 (p.sha256 (codes "go-dev-auth-enc-v1:kid" ++ master)))
                  ≡ kid =
                cc (rw (key_of, m, f) at e) in
              subst (λ k. has_code b'.' k ≡ false) same (sound.no_dot _)
        ]
  ]

  -- The value of a key, taken apart.
  pub split-v2 :
      (kid : String) (bytes : Bytes)
      → has_code b'.' kid ≡ false
      → split b'.' (v2 kid (p.encode bytes)) ≡ "v2" ∷ kid ∷ p.encode bytes ∷ []
  unfolding has_code
  split-v2 kid bytes bare =
      split-append "." "v2" (str_append kid (String.◌∷◌ "." (p.encode bytes))) refl
      ∙ ap (◌∷◌ "v2") (
          split-append "." kid (p.encode bytes) bare
          ∙ ap (◌∷◌ kid) (split-bare b'.' (p.encode bytes) (sound.no_dot bytes)))

  -- A secret with another identifier is another secret.
  later :
      (s : String) (ss : List String) (secret kid id : String) (gcm g : Aead)
      → key_of p secret ≡ some (kid, gcm)
      → key_of p s ≡ some (id, g)
      → str_eq id kid ≡ false
      → member secret (s ∷ ss) ≡ true
      → member secret ss ≡ true
  unfolding member
  later s ss secret kid id gcm g k e on m = elim (Bool-cases (str_eq s secret)) [
    | inl q ↦
        let same : id ≡ kid =
          ap (λ x. x.0) (some_inj.0 (sym e ∙ ap (key_of p) ((eq_iff s secret).0 q) ∙ k)) in
        absurd (ground (arith, same, eq_iff id kid))
    | inr q ↦ ground (arith, q)
  ]

  -- The loop over the keys stops at the key of the value.
  pub open_with-member :
      (ss : List String) (secret kid : String) (gcm : Aead) (raw extra : Bytes)
      → key_of p secret ≡ some (kid, gcm)
      → member secret ss ≡ true
      → IsDistinct p secret ss
      → open_with p ss kid raw extra ≡ open_matched gcm raw extra
  unfolding open_with member
  open_with-member [] secret kid gcm raw extra k m d = absurd (cc)
  open_with-member (s ∷ ss) secret kid gcm raw extra k m d =
      let (id, g, e) = sound.derives s in
      elim (Bool-cases (str_eq id kid)) [
        | inl here ↦
            let named : key_of p s ≡ some (kid, g) =
              e ∙ ap (λ i. some (i, g)) ((eq_iff id kid).0 here) in
            let same : s ≡ secret = d s kid gcm g (rw (eq_refl s) refl) k named in
            rw (open_with, ap (key_of p) same ∙ k, eq_refl kid) refl
        | inr on ↦
            rw (open_with, e, on)
              (open_with-member ss secret kid gcm raw extra k
                (later s ss secret kid id gcm g k e on m)
                (λ other i h h' n. d other i h h' (ground (arith))))
      ]

  -- A value of the present format, of a key of the ring, is opened under that key alone.
  pub decrypt-v2 :
      (kr : Keyring) (c : Binding) (secret kid : String) (gcm : Aead) (raw : Bytes)
      → key_of p secret ≡ some (kid, gcm)
      → member secret (secrets kr) ≡ true
      → IsDistinct p secret (secrets kr)
      → decrypt p kr c (v2 kid (p.encode raw))
        ≡ (if is_complete c then open_matched gcm raw (aad c kid) else err invalid_binding)
  unfolding decrypt decrypt_split decrypt_parts additional
  decrypt-v2 kr c secret kid gcm raw k m d =
      let parts = split-v2 kid raw (kid-has_code secret kid gcm k) in
      let dotted : has_code b'.' (v2 kid (p.encode raw)) ≡ true =
        has_code-split b'.' (v2 kid (p.encode raw)) "v2" kid (p.encode raw ∷ []) parts in
      rw (dotted, parts)
        (elim (Bool-cases (is_complete c)) [
          | inl e ↦
              rw (e, sound.decode-encode raw)
                (open_with-member (secrets kr) secret kid gcm raw (aad c kid) k m d)
          | inr e ↦ rw e refl
        ])
