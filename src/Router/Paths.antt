-- ===== src/Router/Paths.antt =====
-- What a match of a path binds.
use go_dev_auth.Prelude.{
  ◌≡◌, ◌≢◌, refl, inl, inr, true, false, some, List, [], ◌∷◌, arith, Bool-cases, subst, ◌↔◌,
}
use go_dev_auth.Prelude.Text.{codes_eq, codes_eq-eq, codes_eq_refl}
use go_dev_auth.Router.{Text, Params, match_segments, is_param, tail, put_param, is_empty}

-- The segments of a path fit those of a pattern: literals are equal, and a parameter takes one
-- segment that is not empty.
pub data Fits : List Text → List Text → Type 0 where
  done : Fits [] []
  literal :
      {p : Text} {pp ss : List Text} → is_param p ≡ false → Fits pp ss → Fits (p ∷ pp) (p ∷ ss)
  param :
      {p s : Text} {pp ss : List Text}
      → is_param p ≡ true
      → s ≢ []
      → Fits pp ss
      → Fits (p ∷ pp) (s ∷ ss)

match_segments-Fits :
    (pp ss : List Text) (ps out : Params) → match_segments pp ss ps ≡ some out → Fits pp ss
unfolding match_segments is_empty
match_segments-Fits [] [] ps out h = done
match_segments-Fits [] (s ∷ ss) ps out h = absurd (cc)
match_segments-Fits (p ∷ pp) [] ps out h = absurd (cc)
match_segments-Fits (p ∷ pp) (s ∷ ss) ps out h = elim (Bool-cases (is_param p)) [
  | inl e ↦
      param e (ground arith)
        (match_segments-Fits pp ss (put_param (tail p) s ps) out (ground arith))
  | inr e ↦ elim (Bool-cases (codes_eq p s)) [
    | inl same ↦
        subst (λ q. Fits (p ∷ pp) (q ∷ ss)) (codes_eq-eq p s same)
          (literal e (match_segments-Fits pp ss ps out (ground arith)))
    | inr other ↦ absurd (ground arith)
  ]
]

Fits-match_segments :
    {pp ss : List Text}
    → Fits pp ss
    → (ps : Params) → (out : Params) × (match_segments pp ss ps ≡ some out)
unfolding match_segments is_empty
Fits-match_segments done ps = (ps, refl)
Fits-match_segments (literal {p = p} e f) ps =
    let (out, h) = Fits-match_segments f ps in (out, rw (e, codes_eq_refl p) h)
Fits-match_segments (param {p = p} {s = s} e ne f) ps =
    let (out, h) = Fits-match_segments f (put_param (tail p) s ps) in (out, ground (arith, h))

-- A pattern with a parameter matches exactly the paths whose segments fit its segments.
match_segments_iff :
    (pp ss : List Text) → ((out : Params) × (match_segments pp ss [] ≡ some out)) ↔ Fits pp ss
match_segments_iff pp ss =
    (λ x. match_segments-Fits pp ss [] x.0 x.1, λ f. Fits-match_segments f [])
