-- ===== src/Prelude/Assoc.antt =====
-- A Go map with string keys as an association list: a write replaces the key or adds it at the end.
use Prim.Native.String.{String}
use mathlib.Core.Path.{◌≡◌, refl}
use mathlib.Core.Logic.{◌≢◌}
use mathlib.Core.Bool.{false}
use mathlib.Core.Option.{Option, none, some}
use mathlib.Core.List.{List, [], ◌∷◌}
use native.Mathlib.Omega.{arith}
use text.Mathlib.Text.{◌==◌ as str_eq}
use text.Mathlib.TextEquality.{eq_iff}
use go_dev_auth.Prelude.Tests.{if◌then◌else◌}

module _ {ℓ} {V : Type ℓ} where
  unfoldable pub lookup : String → List (String × V) → Option V
  lookup k [] = none
  lookup k ((j, v) ∷ m) = if str_eq j k then some v else lookup k m

  -- `m[k] = v`: a new key goes to the end.
  unfoldable pub insert : String → V → List (String × V) → List (String × V)
  insert name value [] = (name, value) ∷ []
  insert name value ((other, old) ∷ rest) =
      if str_eq other name then (name, value) ∷ rest else (other, old) ∷ insert name value rest

  pub lookup-insert :
      (name found : String) (value : V) (rest : List (String × V))
      → lookup found (insert name value rest)
        ≡ (if str_eq name found then some value else lookup found rest)
  unfolding lookup insert
  lookup-insert name found value [] = refl
  lookup-insert name found value ((other, old) ∷ rest) = ground (
    arith,
    lookup-insert name found value rest,
    eq_iff name found,
    eq_iff other name,
    eq_iff other found,
  )

  -- `for k, v := range update { m[k] = v }`
  unfoldable pub merge : List (String × V) → List (String × V) → List (String × V)
  merge [] m = m
  merge ((k, v) ∷ update) m = merge update (insert k v m)

pub str_eq_ne : (s t : String) → s ≢ t → str_eq s t ≡ false
str_eq_ne s t h = ground (arith, eq_iff s t)

pub ne_of_str_eq : (s t : String) → str_eq s t ≡ false → s ≢ t
ne_of_str_eq s t h = ground (arith, eq_iff s t)
