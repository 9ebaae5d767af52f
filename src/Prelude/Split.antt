-- ===== src/Prelude/Split.antt =====
-- strings.Split by one character, on texts.
use Prim.Native.Char.{code}
use Prim.Native.String.{String, ◌++◌}
use Prim.Native.Nat.{ℕ}
use mathlib.Core.Path.{◌≡◌, refl}
use mathlib.Core.Logic.{inl, inr}
use mathlib.Core.Bool.{true, false}
use mathlib.Core.List.{List, [], ◌∷◌}
use native.Mathlib.Omega.{arith}
use text.Mathlib.TextLemmas.{nil-append, cons-append}
use Prim.Native.Char.{Char}
use go_dev_auth.Prelude.Tests.{Bool-cases, ◌==◌, if◌then◌else◌}
use go_dev_auth.Prelude.Decimal.{has_code}

unfoldable pub split : ℕ → String → List String
split sep String.[] = "" ∷ []
split sep (String.◌∷◌ c s) = elim (split sep s) [
  | [] ↦ []
  | part ∷ parts ↦ if code c == sep then "" ∷ part ∷ parts else String.◌∷◌ c part ∷ parts
]

pub split-bare : (sep : ℕ) (s : String) → has_code sep s ≡ false → split sep s ≡ s ∷ []
unfolding split has_code
split-bare sep String.[] h = refl
split-bare sep (String.◌∷◌ c s) h = rw (split-bare sep s (ground arith)) (ground arith)

-- A text has a first part.
split-cons :
    (sep : ℕ) (s : String) → (part : String) × (parts : List String) × (split sep s ≡ part ∷ parts)
unfolding split
split-cons sep String.[] = ("", [], refl)
split-cons sep (String.◌∷◌ c s) =
    let (part, parts, e) = split-cons sep s in
    elim (Bool-cases (code c == sep)) [
      | inl here ↦ ("", part ∷ parts, rw (e, here) refl)
      | inr on ↦ (String.◌∷◌ c part, parts, rw (e, on) refl)
    ]

-- The first part ends at the first separator.
pub split-append :
    (sep : Char) (front back : String)
    → has_code (code sep) front ≡ false
    → split (code sep) (front ++ String.◌∷◌ sep back) ≡ front ∷ split (code sep) back
unfolding split has_code
split-append sep String.[] back h =
    let (part, parts, e) = split-cons (code sep) back in
    rw (nil-append (String.◌∷◌ sep back), e) (ground arith)
split-append sep (String.◌∷◌ c front) back h =
    rw (cons-append c front (String.◌∷◌ sep back))
      (rw (split, split-append sep front back (ground arith)) (ground arith))

-- A text of two parts or more has a separator.
pub has_code-split :
    (sep : ℕ) (s first second : String) (parts : List String)
    → split sep s ≡ first ∷ second ∷ parts
    → has_code sep s ≡ true
has_code-split sep s first second parts e = elim (Bool-cases (has_code sep s)) [
  | inl h ↦ h
  | inr h ↦ absurd (ground (arith, split-bare sep s h))
]
