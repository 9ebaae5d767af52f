-- ===== src/Router.antt =====
-- router.go: the route table, its index, and the match of a request. Paths are lists of code points.
pub mod Paths
pub mod Index
use go_dev_auth.Prelude.{
  ℕ, zero, suc, ◌+◌, String, Bool, true, false, not, ◌&&◌, ◌||◌, Option, none, some, List, [], ◌∷◌,
  ◌++◌, ◌==◌, str_eq, if◌then◌else◌,
}
use go_dev_auth.Prelude.Text.{codes_eq, contains, has_prefix}

abbrev pub Text : Type 0
Text = List ℕ

-- A parameter map: a later value of a name replaces an earlier one.
abbrev pub Params : Type 0
Params = List (Text × Text)

put_param : Text → Text → Params → Params
unfolding codes_eq
put_param k v [] = (k, v) ∷ []
put_param k v ((j, u) ∷ ps) = if codes_eq j k then (k, v) ∷ ps else (j, u) ∷ put_param k v ps

-- `strings.Split(s, "/")`
unfoldable pub split : Text → List Text
split [] = [] ∷ []
split (c ∷ s) = elim (split s) [
  | [] ↦ (c ∷ []) ∷ []
  | part ∷ parts ↦ if c == b'/' then [] ∷ part ∷ parts else (c ∷ part) ∷ parts
]

abbrev pub is_param : Text → Bool
is_param [] = false
is_param (c ∷ s) = c == b':'

abbrev pub tail : Text → Text
tail [] = []
tail (c ∷ s) = s

is_empty : Text → Bool
is_empty [] = true
is_empty (c ∷ s) = false

-- The loop of `matchPath` over the segments of the pattern and the path.
unfoldable pub match_segments : List Text → List Text → Params → Option Params
unfolding put_param is_empty codes_eq
match_segments [] [] ps = some ps
match_segments [] (s ∷ ss) ps = none
match_segments (p ∷ pp) [] ps = none
match_segments (p ∷ pp) (s ∷ ss) ps =
    let bound = match_segments pp ss (put_param (tail p) s ps) in
    let literal = match_segments pp ss ps in
    if is_param p
    then (if is_empty s then none else bound)
    else if codes_eq p s
    then literal
    else none

-- `matchPath`: a pattern without parameters is compared whole.
unfoldable pub match_path : Text → Text → Option Params
unfolding contains codes_eq match_segments split
match_path pattern path =
    if contains pattern (b':' ∷ [])
    then match_segments (split pattern) (split path) []
    else if codes_eq pattern path
    then some []
    else none

-- `Route`, its handler named by a number. The method "*" stands for any.
pub data Method : Type 0 where
  any : Method
  method : String → Method

pub record Route : Type 0 where
  pub verb : Method
  pub path : Text
  pub handler : ℕ
  pub skip_origin_check : Bool

pub is_dynamic : Route → Bool
unfolding contains
is_dynamic r = contains r.path (b':' ∷ [])

unfoldable pub same_method : Method → Method → Bool
same_method any any = true
same_method (method a) (method b) = str_eq a b
same_method _ _ = false

-- The static map: path and method to the route that was registered last, as a list of the literal
-- routes in which an earlier entry of a path and a method is replaced.
unfoldable pub put_static : Route → List Route → List Route
unfolding codes_eq same_method
put_static r [] = r ∷ []
put_static r (q ∷ qs) =
    if codes_eq q.path r.path && same_method q.verb r.verb then r ∷ qs else q ∷ put_static r qs

-- `buildRouteIndex`: the literal routes, and the parameterised ones in their order.
unfoldable pub build_index : List Route → List Route → List Route × List Route
unfolding is_dynamic put_static
build_index [] static = (static, [])
build_index (r ∷ rs) static =
    let (s, d) = build_index rs (if is_dynamic r then static else put_static r static) in
    (s, if is_dynamic r then r ∷ d else d)

-- `a.static[path][method]`
unfoldable pub find_static : Text → Method → List Route → Option Route
unfolding codes_eq same_method
find_static path m [] = none
find_static path m (r ∷ rs) =
    if codes_eq r.path path && same_method r.verb m then some r else find_static path m rs

pub answers : Route → String → Bool
answers r m = elim r.verb [ any ↦ true | method v ↦ str_eq v m ]

-- The scan of the parameterised routes.
unfoldable pub find_dynamic : String → Text → List Route → Option (Route × Params)
unfolding answers match_path
find_dynamic m path [] = none
find_dynamic m path (r ∷ rs) = elim (match_path r.path path) [
  | none ↦ find_dynamic m path rs
  | some ps ↦ if answers r m then some (r, ps) else find_dynamic m path rs
]

or_else : Option Route → Option (Route × Params) → Option (Route × Params)
or_else none later = later
or_else (some r) later = some (r, [])

-- `match`: a literal route of the method, then one of any method, then the parameterised ones.
unfoldable pub match : List Route → List Route → String → Text → Option (Route × Params)
unfolding or_else find_static find_dynamic
match static dynamic m path =
    or_else (find_static path (method m) static)
      (or_else (find_static path any static) (find_dynamic m path dynamic))
