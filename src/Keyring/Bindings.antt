-- ===== src/Keyring/Bindings.antt =====
-- crypto/aead.go: the additional data names one place.
use go_dev_auth.Prelude.{
  ℕ, ◌+◌, ◌^◌, ◌<◌, ◌≡◌, refl, ap, ◌*◌, sym, ◌∙◌, String, [], ◌∷◌, ◌++◌, arith, length,
}
use text.Mathlib.TextEquality.{Char-path}
use go_dev_auth.Prelude.Text.{codes}
use go_dev_auth.Keyring.{Binding, Bytes, big_endian, prefixed, located, aad}

value : ℕ → Bytes → ℕ
value n [] = n
value n (b ∷ bs) = value (n * 256 + b) bs

-- A number below 2 ^ 64 is read back from its eight bytes.
value-big_endian : (n : ℕ) → n < 2 ^ 64 → value 0 (big_endian n) ≡ n
unfolding big_endian value
value-big_endian n h = omega arith

big_endian_inj : (m n : ℕ) → m < 2 ^ 64 → n < 2 ^ 64 → big_endian m ≡ big_endian n → m ≡ n
big_endian_inj m n hm hn e = sym (value-big_endian m hm) ∙ ap (value 0) e ∙ value-big_endian n hn

pub append_inj : (s t u v : Bytes) → length s ≡ length t → s ++ u ≡ t ++ v → (s ≡ t) × (u ≡ v)
append_inj [] [] u v l e = (refl, e)
append_inj (a ∷ s) (b ∷ t) u v l e =
    let (f, g) = append_inj s t u v (omega arith) (ground arith) in (ground (arith, f), g)
append_inj [] (b ∷ t) u v l e = absurd (cc)
append_inj (a ∷ s) [] u v l e = absurd (cc)

pub codes_inj : (s t : String) → codes s ≡ codes t → s ≡ t
codes_inj String.[] String.[] e = refl
codes_inj (String.◌∷◌ c s) (String.◌∷◌ d t) e =
    ground (arith, Char-path c d (ground arith), codes_inj s t (ground arith))
codes_inj String.[] (String.◌∷◌ d t) e = absurd (cc)
codes_inj (String.◌∷◌ c s) String.[] e = absurd (cc)

prefixed_inj :
    (s t u v : Bytes)
    → length s < 2 ^ 64
    → length t < 2 ^ 64
    → prefixed s ++ u ≡ prefixed t ++ v
    → (s ≡ t) × (u ≡ v)
unfolding prefixed
prefixed_inj s t u v hs ht e =
    let (n, rest) =
      append_inj (big_endian (length s)) (big_endian (length t)) (s ++ u) (t ++ v) refl e in
    append_inj s t u v (big_endian_inj (length s) (length t) hs ht n) rest

same_place : (b c : Binding) → b.model ≡ c.model → b.row ≡ c.row → b.column ≡ c.column → b ≡ c
same_place b c m r f = λ i. record { model = m i; row = r i; column = f i }

-- Each part of a place is shorter than 2 ^ 64 bytes.
abbrev pub IsAddressable : Binding → Type 0
IsAddressable b =
    (length (codes b.model) < 2 ^ 64)
    × (length (codes b.row) < 2 ^ 64)
    × (length (codes b.column) < 2 ^ 64)

-- Under one key, two places with the same additional data are the same place.
pub aad_inj :
    (b c : Binding) (kid : String)
    → IsAddressable b
    → IsAddressable c
    → aad b kid ≡ aad c kid
    → b ≡ c
unfolding aad located
aad_inj b c kid (bm, br, bc) (cm, cr, cc') e =
    let (_, e₁) = append_inj (codes "v2.") (codes "v2.") _ _ refl e in
    let (_, e₂) = append_inj (codes kid) (codes kid) (located b) (located c) refl e₁ in
    let (m, e₃) =
      prefixed_inj (codes b.model) (codes c.model)
        (prefixed (codes b.row) ++ prefixed (codes b.column))
        (prefixed (codes c.row) ++ prefixed (codes c.column)) bm cm e₂ in
    let (r, e₄) =
      prefixed_inj (codes b.row) (codes c.row) (prefixed (codes b.column))
        (prefixed (codes c.column)) br cr e₃ in
    let (f, _) =
      prefixed_inj (codes b.column) (codes c.column) [] [] bc cc' (ap (λ s. s ++ []) e₄) in
    same_place b c (codes_inj b.model c.model m) (codes_inj b.row c.row r)
      (codes_inj b.column c.column f)
