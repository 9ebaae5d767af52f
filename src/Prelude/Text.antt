-- ===== src/Prelude/Text.antt =====
-- Texts as lists of code points, for code that walks them. Case mapping is that of ASCII.
use Prim.Native.Nat.{ℕ, ◌+◌}
use native.Mathlib.Omega.{arith}
use mathlib.Core.Path.{◌≡◌, refl, ap, sym, ◌∙◌}
use mathlib.Core.Logic.{inl, inr}
use Prim.Native.Char.{code}
use Prim.Native.String.{String}
use mathlib.Core.Bool.{Bool, true, false, ◌&&◌, ◌||◌}
use mathlib.Core.List.{List, [], ◌∷◌, map, reverse, ◌++◌, reverse-append, reverse-reverse}
use go_dev_auth.Prelude.Tests.{Bool-cases, ltb, leb, ◌==◌, if◌then◌else◌}

abbrev pub codes : String → List ℕ
codes String.[] = []
codes (String.◌∷◌ c s) = code c ∷ codes s

unfoldable pub codes_eq : List ℕ → List ℕ → Bool
codes_eq [] [] = true
codes_eq (a ∷ s) (b ∷ t) = a == b && codes_eq s t
codes_eq _ _ = false

-- Go's `<` on strings.
unfoldable pub codes_lt : List ℕ → List ℕ → Bool
codes_lt [] [] = false
codes_lt [] (b ∷ t) = true
codes_lt (a ∷ s) [] = false
codes_lt (a ∷ s) (b ∷ t) = ltb a b || (a == b && codes_lt s t)

abbrev pub to_lower_code : ℕ → ℕ
to_lower_code c = if leb b'A' c && leb c b'Z' then c + 32 else c

abbrev pub to_lower : List ℕ → List ℕ
to_lower = map to_lower_code

-- strings.TrimSpace, on ASCII
is_space : ℕ → Bool
is_space c = c == 32 || (leb 9 c && leb c 13)

drop_space : List ℕ → List ℕ
drop_space [] = []
drop_space (c ∷ s) = let rest = drop_space s in if is_space c then rest else c ∷ s

unfoldable pub trim_space : List ℕ → List ℕ
unfolding drop_space is_space
trim_space s = reverse (drop_space (reverse (drop_space s)))

-- strings.Fields, on ASCII: the scan adds a field at each end of a word.
fields_from : List ℕ → List ℕ → List (List ℕ)
fields_from [] [] = []
fields_from (c ∷ word) [] = reverse (c ∷ word) ∷ []
fields_from word (c ∷ s) =
    let next = fields_from [] s in
    let longer = fields_from (c ∷ word) s in
    if is_space c then elim word [ [] ↦ next | d ∷ ds ↦ reverse (d ∷ ds) ∷ next ] else longer

unfoldable pub fields : List ℕ → List (List ℕ)
unfolding fields_from is_space
fields s = fields_from [] s

-- strings.HasPrefix, strings.HasSuffix, strings.Contains
unfoldable pub has_prefix : List ℕ → List ℕ → Bool
has_prefix s [] = true
has_prefix [] (p ∷ ps) = false
has_prefix (c ∷ s) (p ∷ ps) = c == p && has_prefix s ps

unfoldable pub has_suffix : List ℕ → List ℕ → Bool
has_suffix s suf = has_prefix (reverse s) (reverse suf)

unfoldable pub contains : List ℕ → List ℕ → Bool
contains [] sub = has_prefix [] sub
contains (c ∷ s) sub = has_prefix (c ∷ s) sub || contains s sub

pub codes_eq-eq : (s t : List ℕ) → codes_eq s t ≡ true → s ≡ t
unfolding codes_eq
codes_eq-eq [] [] h = refl
codes_eq-eq (a ∷ s) (b ∷ t) h = ground (arith, codes_eq-eq s t)
codes_eq-eq s t h = cc

pub codes_eq_refl : (s : List ℕ) → codes_eq s s ≡ true
unfolding codes_eq
codes_eq_refl [] = refl
codes_eq_refl (a ∷ s) = ground (arith, codes_eq_refl s)

pub has_prefix_lem : (s p : List ℕ) → has_prefix s p ≡ true → (rest : List ℕ) × (s ≡ p ++ rest)
unfolding has_prefix
has_prefix_lem s [] h = (s, refl)
has_prefix_lem [] (x ∷ p) h = absurd (cc)
has_prefix_lem (y ∷ s) (x ∷ p) h = elim (Bool-cases (y == x)) [
  | inl e ↦ let (rest, f) = has_prefix_lem s p (ground arith) in (rest, ground (arith, f))
  | inr e ↦ absurd (ground arith)
]

-- A text with a suffix is some front followed by it.
pub has_suffix_lem :
    (s suf : List ℕ) → has_suffix s suf ≡ true → (front : List ℕ) × (s ≡ front ++ suf)
unfolding has_suffix
has_suffix_lem s suf h =
    let (rest, e) = has_prefix_lem (reverse s) (reverse suf) h in
    (
      reverse rest,
      sym (reverse-reverse s)
          ∙ ap reverse e
          ∙ reverse-append (reverse suf) rest
          ∙ ap (λ t. reverse rest ++ t) (reverse-reverse suf),
    )
