-- ===== src/Secrets/Order.antt =====
-- The order of ids, and how many are above one.
use go_dev_auth.Prelude.{
  ℕ, ◌+◌, ◌≤◌, ◌<◌, ◌≡◌, refl, String, true, false, List, [], ◌∷◌, arith, str_eq, eq_iff,
  if◌then◌else◌, Bool-cases, inl, inr, length,
}
use go_dev_auth.Prelude.Text.{codes, codes_lt}
use go_dev_auth.Keyring.{member}
use go_dev_auth.Keyring.Bindings.{codes_inj}
use go_dev_auth.Secrets.{text_lt}

codes_lt_irrefl : (s : List ℕ) → codes_lt s s ≡ false
unfolding codes_lt
codes_lt_irrefl [] = refl
codes_lt_irrefl (a ∷ s) = ground (arith, codes_lt_irrefl s)

codes_lt_trans : (s t u : List ℕ) → codes_lt s t ≡ true → codes_lt t u ≡ true → codes_lt s u ≡ true
unfolding codes_lt
codes_lt_trans [] (b ∷ t) (c ∷ u) h k = refl
codes_lt_trans [] [] u h k = cc
codes_lt_trans [] (b ∷ t) [] h k = cc
codes_lt_trans (a ∷ s) [] u h k = cc
codes_lt_trans (a ∷ s) (b ∷ t) [] h k = cc
codes_lt_trans (a ∷ s) (b ∷ t) (c ∷ u) h k = ground (arith, codes_lt_trans s t u)

codes_lt_total : (s t : List ℕ) → codes_lt s t ≡ false → codes_lt t s ≡ false → s ≡ t
unfolding codes_lt
codes_lt_total [] [] h k = refl
codes_lt_total [] (b ∷ t) h k = cc
codes_lt_total (a ∷ s) [] h k = cc
codes_lt_total (a ∷ s) (b ∷ t) h k = ground (arith, codes_lt_total s t)

pub text_lt_irrefl : (s : String) → text_lt s s ≡ false
unfolding text_lt
text_lt_irrefl s = codes_lt_irrefl (codes s)

pub text_lt_trans : (s t u : String) → text_lt s t ≡ true → text_lt t u ≡ true → text_lt s u ≡ true
unfolding text_lt
text_lt_trans s t u h k = codes_lt_trans (codes s) (codes t) (codes u) h k

pub text_lt_total : (s t : String) → text_lt s t ≡ false → text_lt t s ≡ false → s ≡ t
unfolding text_lt
text_lt_total s t h k = codes_inj s t (codes_lt_total (codes s) (codes t) h k)

-- How many ids are above a cursor.
pub above : String → List String → ℕ
above last [] = 0
above last (i ∷ ids) = (if text_lt last i then 1 else 0) + above last ids

pub above-length : (last : String) (ids : List String) → above last ids ≤ length ids
unfolding above
above-length last [] = omega arith
above-length last (i ∷ ids) = ground (arith, above-length last ids)

above-le :
    (last next : String) (ids : List String)
    → text_lt last next ≡ true
    → above next ids ≤ above last ids
unfolding above
above-le last next [] h = omega arith
above-le last next (i ∷ ids) h =
    ground (arith, above-le last next ids h, text_lt_trans last next i h)

-- A cursor that moves to an id leaves fewer above it.
pub above-lt :
    (last next : String) (ids : List String)
    → text_lt last next ≡ true
    → member next ids ≡ true
    → above next ids < above last ids
unfolding above member
above-lt last next [] h m = absurd (cc)
above-lt last next (i ∷ ids) h m = elim (Bool-cases (str_eq i next)) [
  | inl e ↦
      let same : i ≡ next = (eq_iff i next).0 e in
      rw (same, text_lt_irrefl next, h) (omega (arith, above-le last next ids h))
  | inr e ↦ ground (arith, above-lt last next ids h (ground arith), text_lt_trans last next i h)
]
