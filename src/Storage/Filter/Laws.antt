-- ===== src/Storage/Filter/Laws.antt =====
-- What a list of clauses selects.
use go_dev_auth.Prelude.{
  ◌≡◌, refl, ◌↔◌, ◌≢◌, Bool, true, ◌&&◌, List, [], ◌∷◌, ◌++◌, String, All, arith, some,
}
use go_dev_auth.Prelude.Assoc.{lookup}
use go_dev_auth.Storage.Value.{Value, text, equal}
use go_dev_auth.Storage.Value.Laws.{equal-text_iff}
use go_dev_auth.Storage.Filter.{
  Record, Where, Connector, connector_or, w, field, join, match_one, matches_from, matches,
}

abbrev pub IsConjunctive : List Where → Type 0
IsConjunctive = All (λ c. c.connector ≢ connector_or)

join_of_and : (k : Connector) (a b : Bool) → k ≢ connector_or → join k a b ≡ (a && b)
unfolding join
join_of_and k a b h = ground arith

matches_from_iff :
    (r : Record) (result : Bool) (cs : List Where)
    → IsConjunctive cs
    → (matches_from r result cs ≡ true) ↔ ((result ≡ true) × All (λ c. match_one r c ≡ true) cs)
unfolding matches_from
matches_from_iff r result [] h = ground arith
matches_from_iff r result (c ∷ cs) (p, h) = ground (
  arith,
  join_of_and c.connector result (match_one r c) p,
  matches_from_iff r (join c.connector result (match_one r c)) cs h,
)

-- Without OR connectors behind the first clause, a record matches exactly if it matches each one.
matches_iff :
    (r : Record) (c : Where) (cs : List Where)
    → IsConjunctive cs
    → (matches r (c ∷ cs) ≡ true) ↔ All (λ d. match_one r d ≡ true) (c ∷ cs)
unfolding matches
matches_iff r c cs h = matches_from_iff r (match_one r c) cs h

matches_from-concat :
    (r : Record) (result : Bool) (cs : List Where) (d : Where)
    → matches_from r result (cs ++ d ∷ [])
      ≡ join d.connector (matches_from r result cs) (match_one r d)
unfolding matches_from
matches_from-concat r result [] d = refl
matches_from-concat r result (c ∷ cs) d =
    matches_from-concat r (join c.connector result (match_one r c)) cs d

-- Connectors associate to the left and have no precedence: a last OR clause accepts what it
-- matches, whatever stands before it, and a last AND clause must match.
pub matches-concat :
    (r : Record) (c : Where) (cs : List Where) (d : Where)
    → matches r (c ∷ (cs ++ d ∷ [])) ≡ join d.connector (matches r (c ∷ cs)) (match_one r d)
unfolding matches
matches-concat r c cs d = matches_from-concat r (match_one r c) cs d

-- An equality clause on a text selects the records that hold this text under the field.
pub matches-w_text :
    (r : Record) (f s : String)
    → (matches r (w f (text s) ∷ []) ≡ true) ↔ (lookup f r ≡ some (text s))
unfolding matches match_one field
matches-w_text r f s = ground (arith, equal-text_iff (field r f) s)

-- Two equality clauses accept a record exactly if both do.
pub matches-pair :
    (r : Record) (f g : String) (u v : Value)
    → matches r (w f u ∷ w g v ∷ []) ≡ (equal (field r f) u && equal (field r g) v)
unfolding matches match_one join
matches-pair r f g u v = refl
