-- ===== src/Router/Index.antt =====
-- The index of the literal routes against the route table.
use go_dev_auth.Prelude.{
  String, ◌≡◌, refl, Bool, true, not, ◌&&◌, Option, none, some, List, [], ◌∷◌, arith, if◌then◌else◌,
  eq_iff, Bool-cases, inl, inr, sym, ◌∙◌,
}
use go_dev_auth.Prelude.Text.{codes_eq, codes_eq-eq, codes_eq_refl}
use go_dev_auth.Router.{
  Text, Method, any, method, Route, is_dynamic, same_method, put_static, build_index, find_static,
  find_dynamic, Params, answers, match_path, match, or_else,
}

same_method-eq : (m n : Method) → same_method m n ≡ true → m ≡ n
unfolding same_method
same_method-eq any any h = refl
same_method-eq (method a) (method b) h = ground (arith, eq_iff a b)
same_method-eq m n h = cc

same_method_refl : (m : Method) → same_method m m ≡ true
unfolding same_method
same_method_refl any = refl
same_method_refl (method a) = ground (arith, eq_iff a a)

-- Whether a route is the entry of a path and a method.
abbrev pub at : Text → Method → Route → Bool
at path m r = codes_eq r.path path && same_method r.verb m

at-eq : (path : Text) (m : Method) (r : Route) → at path m r ≡ true → (r.path ≡ path) × (r.verb ≡ m)
at-eq path m r h = (codes_eq-eq r.path path (ground arith), same_method-eq r.verb m (ground arith))

at_self : (path : Text) (m : Method) (r : Route) → r.path ≡ path → r.verb ≡ m → at path m r ≡ true
at_self path m r e h = rw (e, h, codes_eq_refl path) (same_method_refl m)

find_static-put_static :
    (path : Text) (m : Method) (r : Route) (qs : List Route)
    → find_static path m (put_static r qs) ≡ (if at path m r then some r else find_static path m qs)
unfolding find_static put_static
find_static-put_static path m r [] = refl
find_static-put_static path m r (q ∷ qs) = elim (Bool-cases (at r.path r.verb q)) [
  | inl same ↦ ground (arith, at-eq r.path r.verb q same)
  | inr other ↦ elim (Bool-cases (at path m q)) [
    | inr no_q ↦ ground (arith, find_static-put_static path m r qs)
    | inl at_q ↦ elim (Bool-cases (at path m r)) [
      | inr no_r ↦ ground (arith, find_static-put_static path m r qs)
      | inl at_r ↦
          let (p, v) = at-eq path m q at_q in
          let (p', v') = at-eq path m r at_r in
          absurd (ground (arith, at_self r.path r.verb q (p ∙ sym p') (v ∙ sym v')))
    ]
  ]
]

-- The literal route of a path and a method that was registered last.
abbrev pub last_route : Text → Method → List Route → Option Route
last_route path m [] = none
last_route path m (r ∷ rs) = elim (last_route path m rs) [
  | some q ↦ some q
  | none ↦ if not (is_dynamic r) && at path m r then some r else none
]

find_static-build :
    (path : Text) (m : Method) (rs static : List Route)
    → find_static path m (build_index rs static).0
      ≡ elim (last_route path m rs) [ some q ↦ some q | none ↦ find_static path m static ]
unfolding build_index
find_static-build path m [] static = refl
find_static-build path m (r ∷ rs) static = elim (Bool-cases (is_dynamic r)) [
  | inl e ↦ ground (arith, find_static-build path m rs static)
  | inr e ↦ ground (
    arith,
    find_static-build path m rs (put_static r static),
    find_static-put_static path m r static,
  )
]

-- The index finds for every path and method the literal route that was registered last.
find_static-last_route :
    (path : Text) (m : Method) (routes : List Route)
    → find_static path m (build_index routes []).0 ≡ last_route path m routes
unfolding find_static
find_static-last_route path m routes = ground (arith, find_static-build path m routes [])

-- The first parameterised route of the table that matches a path and answers a method.
abbrev pub first_pattern : String → Text → List Route → Option (Route × Params)
first_pattern m path [] = none
first_pattern m path (r ∷ rs) =
    let rest = first_pattern m path rs in
    if is_dynamic r
    then elim (match_path r.path path) [
      | none ↦ rest
      | some ps ↦ if answers r m then some (r, ps) else rest
    ]
    else rest

find_dynamic-build :
    (m : String) (path : Text) (rs static : List Route)
    → find_dynamic m path (build_index rs static).1 ≡ first_pattern m path rs
unfolding build_index find_dynamic
find_dynamic-build m path [] static = refl
find_dynamic-build m path (r ∷ rs) static = elim (Bool-cases (is_dynamic r)) [
  | inl e ↦ ground (arith, find_dynamic-build m path rs static)
  | inr e ↦ ground (arith, find_dynamic-build m path rs (put_static r static))
]

-- The route that a request should get.
abbrev pub route_of : List Route → String → Text → Option (Route × Params)
route_of routes m path = elim (last_route path (method m) routes) [
  | some r ↦ some (r, [])
  | none ↦ elim (last_route path any routes) [
    | some r ↦ some (r, [])
    | none ↦ first_pattern m path routes
  ]
]

or_else_lem :
    (a b : Option Route) (p : Option (Route × Params))
    → or_else a (or_else b p)
      ≡ elim a [ some r ↦ some (r, []) | none ↦ elim b [ some r ↦ some (r, []) | none ↦ p ] ]
unfolding or_else
or_else_lem none none p = refl
or_else_lem none (some r) p = refl
or_else_lem (some q) b p = refl

-- A request gets, through the index of any route table: the literal route of its path and method that
-- was registered last; if there is none, the literal one of any method registered last; and if there
-- is none either, the first parameterised route that matches the path and answers the method.
pub match-routes :
    (m : String) (path : Text) (routes : List Route)
    → match (build_index routes []).0 (build_index routes []).1 m path ≡ route_of routes m path
unfolding match
match-routes m path routes =
    rw
      (
        find_static-last_route path (method m) routes,
        find_static-last_route path any routes,
        find_dynamic-build m path routes [],
      )
      (or_else_lem (last_route path (method m) routes) (last_route path any routes)
        (first_pattern m path routes))
