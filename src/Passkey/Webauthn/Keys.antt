-- ===== src/Passkey/Webauthn/Keys.antt =====
-- The keys that are accepted.
use go_dev_auth.Prelude.{
  refl, ℕ, ◌≡◌, ◌≤◌, ◌<◌, ◌%◌, ◌^◌, Bool, true, false, ◌&&◌, ◌||◌, if◌then◌else◌, Option, some,
  none, List, length, arith, ◌==◌, ltb, leb, pos, negsuc, int_eqb, subst,
}
use go_dev_auth.Passkey.Cbor.{Entries, Item, dict, decode}
use go_dev_auth.Passkey.Webauthn.{
  CoseKey, ec, rsa, ed, ec_key, rsa_key, ed_key, cose_key, int_val, bytes_val, key_of_item,
  parse_cose_key, on_curve, set_bytes,
}

-- What an accepted key satisfies.
abbrev pub IsSound : CoseKey → Type 0
IsSound (ec x y) = on_curve x y ≡ true
IsSound (rsa n e) = (3 ≤ e) × (e < 2 ^ 63) × (e % 2 ≡ 1)
IsSound (ed x) = length x ≡ 32

abbrev AreSound : Option CoseKey → Type 0
AreSound none = Unit
AreSound (some k) = IsSound k

sound-if :
    (b : Bool) (o o' : Option CoseKey)
    → (b ≡ true → AreSound o)
    → (b ≡ false → AreSound o')
    → AreSound (if b then o else o')
sound-if true o o' h h' = h refl
sound-if false o o' h h' = h' refl

ec_key_sound : (x y : Option (List ℕ)) → AreSound (ec_key x y)
unfolding ec_key
ec_key_sound none y = tt
ec_key_sound (some x) none = tt
ec_key_sound (some x) (some y) =
    sound-if (length x == 32 && length y == 32) _ _
      (λ _. sound-if (on_curve (set_bytes 0 x) (set_bytes 0 y)) _ _ (λ h. h) (λ _. tt)) (λ _. tt)

rsa_key_sound : (n e : Option (List ℕ)) → AreSound (rsa_key n e)
unfolding rsa_key
rsa_key_sound none e = tt
rsa_key_sound (some n) none = tt
rsa_key_sound (some n) (some e) =
    sound-if (ltb (length n) 256 || (ltb 1024 (length n) || (length e == 0 || ltb 8 (length e)))) _
      _ (λ _. tt)
      (λ _.
        sound-if (leb (2 ^ 63) (set_bytes 0 e) || (ltb (set_bytes 0 e) 3 || set_bytes 0 e % 2 == 0))
          _ _ (λ _. tt) (λ h. (ground arith, ground arith, ground arith)))

ed_key_sound : (x : Option (List ℕ)) → AreSound (ed_key x)
unfolding ed_key
ed_key_sound none = tt
ed_key_sound (some x) = sound-if (length x == 32) _ _ (λ h. ground arith) (λ _. tt)

cose_key_sound : (es : Entries) → AreSound (cose_key es)
unfolding cose_key
cose_key_sound es =
    sound-if (int_eqb (int_val (pos 1) es) (pos 2) && int_eqb (int_val (pos 3) es) (negsuc 6)) _ _
      (λ _.
        sound-if (int_eqb (int_val (negsuc 0) es) (pos 1)) _ _
          (λ _. ec_key_sound (bytes_val (negsuc 1) es) (bytes_val (negsuc 2) es)) (λ _. tt))
      (λ _.
        sound-if (int_eqb (int_val (pos 1) es) (pos 3) && int_eqb (int_val (pos 3) es) (negsuc 256))
          _ _ (λ _. rsa_key_sound (bytes_val (negsuc 0) es) (bytes_val (negsuc 1) es))
          (λ _.
            sound-if
              (int_eqb (int_val (pos 1) es) (pos 1) && int_eqb (int_val (pos 3) es) (negsuc 7)) _ _
              (λ _.
                sound-if (int_eqb (int_val (negsuc 0) es) (pos 6)) _ _
                  (λ _. ed_key_sound (bytes_val (negsuc 1) es)) (λ _. tt))
              (λ _. tt)))

key_of_item_sound : (o : Option Item) → AreSound (key_of_item o)
unfolding key_of_item
key_of_item_sound none = tt
key_of_item_sound (some (dict es)) = cose_key_sound es
key_of_item_sound (some v) = tt

-- Whatever bytes are parsed, an accepted key is a P-256 point on the curve with reduced coordinates,
-- an RSA key whose exponent is odd, at least 3 and fits an int64, or an Ed25519 key of 32 bytes.
pub parse_cose_key-IsSound : (raw : List ℕ) (k : CoseKey) → parse_cose_key raw ≡ some k → IsSound k
unfolding parse_cose_key
parse_cose_key-IsSound raw k h = subst AreSound h (key_of_item_sound (decode raw))
