-- ===== src/Examples/Routes.antt =====
-- A parameterised route, and two registrations of one literal path.
use go_dev_auth.Prelude.{ℕ, ◌≡◌, false, List, [], ◌∷◌}
use go_dev_auth.Prelude.Text.{codes}
use go_dev_auth.Router.{Text, Route, method, match, build_index}
use go_dev_auth.Router.Index.{route_of, match-routes}

abbrev user_pattern : List Text
user_pattern = (b'u' ∷ []) ∷ (b':' ∷ b'i' ∷ b'd' ∷ []) ∷ []

abbrev user_path : List Text
user_path = (b'u' ∷ []) ∷ (b'7' ∷ []) ∷ []

abbrev route : ℕ → Text → Route
route handler path = record {
  verb = method "GET";
  path = path;
  handler = handler;
  skip_origin_check = false;
}

abbrev table : List Route
table = route 1 (codes "/a") ∷ route 2 (codes "/:id") ∷ route 3 (codes "/a") ∷ []

match-routes_example :
    match (build_index table []).0 (build_index table []).1 "GET" (codes "/a")
    ≡ route_of table "GET" (codes "/a")
match-routes_example = match-routes "GET" (codes "/a") table
