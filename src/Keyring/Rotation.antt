-- ===== src/Keyring/Rotation.antt =====
-- crypto/aead.go: the rotation of secrets.
use go_dev_auth.Prelude.{
  ℕ, ◌≡◌, refl, ap, sym, ◌∙◌, String, Bool, true, not, Option, none, some, List, [], ◌∷◌, ◌++◌,
  arith, str_eq, eq_iff, if◌then◌else◌, length, length-append, take-append, ◌||◌, ◌&&◌,
}
use go_dev_auth.Prelude.Result.{ok, err}
use go_dev_auth.Keyring.{
  Bytes, Aead, Primitives, malformed, invalid_binding, Binding, Keyring, is_complete, aad, key_of,
  secrets, member, add_previous, new_keyring, v2, encrypt, decrypt, open_raw, open_matched,
}
use go_dev_auth.Keyring.Opening.{IsSound, IsDistinct, decrypt-v2}

open_matched-seal :
    (gcm : Aead) (nonce sealed extra : Bytes)
    → length nonce ≡ gcm.nonce_size
    → open_matched gcm (nonce ++ sealed) extra
      ≡ elim (gcm.unseal nonce sealed extra) [ none ↦ err malformed | some pt ↦ ok pt ]
unfolding open_matched open_raw
open_matched-seal gcm nonce sealed extra n =
    let (a, b) = take-append nonce sealed in
    rw (sym n, a, b) (ground (arith, length-append nonce sealed))

-- `rand.Read` fills what it is given.
abbrev pub IsRandom : (ℕ → Option Bytes) → Type 0
IsRandom random = (n : ℕ) → (bytes : Bytes) × (random n ≡ some bytes) × (length bytes ≡ n)

-- The secret is one of those configured: the current one, or a previous one that is not empty.
abbrev pub is_configured : String → String → List String → Bool
is_configured secret current previous =
    str_eq current secret || (not (str_eq secret "") && member secret previous)

member-append :
    (s t : String) (ts : List String) → member s (ts ++ t ∷ []) ≡ (member s ts || str_eq t s)
unfolding member
member-append s t [] = ground arith
member-append s t (u ∷ ts) = ground (arith, member-append s t ts)

-- The loop over the previous secrets loses none of them.
pub member-add_previous :
    (secret current : String) (previous others : List String)
    → (is_configured secret current previous || member secret others) ≡ true
    → member secret (current ∷ add_previous current previous others) ≡ true
unfolding member add_previous
member-add_previous secret current [] others h = ground arith
member-add_previous secret current (p ∷ previous) others h =
    member-add_previous secret current previous _ (
      ground (
        arith,
        eq_iff p secret,
        eq_iff p "",
        eq_iff p current,
        eq_iff current p,
        eq_iff current secret,
        eq_iff secret "",
        member-append secret p others,
      ))

module _ (p : Primitives) (sound : IsSound p) where
  -- What Encrypt writes: the current key's identifier, and the nonce in front of the sealed text.
  pub written :
      (kr : Keyring) (random : ℕ → Option Bytes) (b : Binding) (plaintext : String)
      → IsRandom random
      → is_complete b ≡ true
      → (kid : String) × (gcm : Aead) × (nonce : Bytes) × (key_of p kr.current ≡ some (kid, gcm))
        × (length nonce ≡ gcm.nonce_size)
        × (encrypt p kr random b plaintext
            ≡ ok (v2 kid (p.encode (nonce ++ gcm.seal nonce plaintext (aad b kid)))))
  unfolding encrypt
  written kr random b plaintext fills complete =
      let (kid, gcm, k) = sound.derives kr.current in
      let (nonce, r, n) = fills gcm.nonce_size in (kid, gcm, nonce, k, n, rw (complete, k, r) refl)

  -- The value is opened with the additional data of the place where it is read.
  pub opened :
      (kr : Keyring) (c : Binding) (secret kid : String) (gcm : Aead) (nonce sealed : Bytes)
      → key_of p secret ≡ some (kid, gcm)
      → length nonce ≡ gcm.nonce_size
      → member secret (secrets kr) ≡ true
      → IsDistinct p secret (secrets kr)
      → decrypt p kr c (v2 kid (p.encode (nonce ++ sealed))) ≡ (
          if is_complete c
          then elim (gcm.unseal nonce sealed (aad c kid)) [ none ↦ err malformed | some pt ↦ ok pt ]
          else err invalid_binding)
  opened kr c secret kid gcm nonce sealed k n m d =
      decrypt-v2 p sound kr c secret kid gcm (nonce ++ sealed) k m d
      ∙ ap (λ r. if is_complete c then r else err invalid_binding)
          (open_matched-seal gcm nonce sealed (aad c kid) n)

  -- A value of one ring is read by another that has its current secret.
  pub decrypt-encrypt_ring :
      (kr kr' : Keyring) (random : ℕ → Option Bytes) (b : Binding) (plaintext : String)
      → IsRandom random
      → is_complete b ≡ true
      → member kr.current (secrets kr') ≡ true
      → IsDistinct p kr.current (secrets kr')
      → (out : String) × (encrypt p kr random b plaintext ≡ ok out)
        × (decrypt p kr' b out ≡ ok plaintext)
  decrypt-encrypt_ring kr kr' random b plaintext fills complete m d =
      let (kid, gcm, nonce, k, n, w) = written kr random b plaintext fills complete in
      (
        v2 kid (p.encode (nonce ++ gcm.seal nonce plaintext (aad b kid))),
        w,
        opened kr' b kr.current kid gcm nonce _ k n m d
            ∙ rw (complete, sound.opening kr.current kid gcm k nonce plaintext (aad b kid) n) refl,
      )

  -- A value that is encrypted for a place is decrypted there, by any key ring that has the secret as its
  -- current or as a previous one, whichever values it refuses; the primitives do what they document, the place is
  -- complete, and no other configured secret has the key identifier.
  pub decrypt-encrypt :
      (secret current : String) (previous previous' : List String) (reject reject' : Bool)
      (random : ℕ → Option Bytes) (b : Binding) (plaintext : String)
      → IsRandom random
      → is_complete b ≡ true
      → is_configured secret current previous' ≡ true
      → IsDistinct p secret (secrets (new_keyring current previous' reject'))
      → (out : String) × (encrypt p (new_keyring secret previous reject) random b plaintext
          ≡ ok out)
        × (decrypt p (new_keyring current previous' reject') b out ≡ ok plaintext)
  unfolding new_keyring
  decrypt-encrypt secret current previous previous' reject reject' random b plaintext fills complete
        configured d =
      decrypt-encrypt_ring (new_keyring secret previous reject)
        (new_keyring current previous' reject') random b plaintext fills complete
        (member-add_previous secret current previous' [] (ground arith)) d
