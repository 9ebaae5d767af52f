-- ===== src/Storage/Filter.antt =====
-- storage/storage.go: records and the clauses that select them.
pub mod Laws
use go_dev_auth.Prelude.{
  ℕ, String, Bool, true, false, not, ◌&&◌, ◌||◌, Option, none, some, List, [], ◌∷◌, if◌then◌else◌,
}
use go_dev_auth.Prelude.Assoc.{lookup}
use go_dev_auth.Storage.Value.{
  Value, null, Operand, one, many, Operator, op_default, op_eq, op_ne, op_gt, op_gte, op_lt, op_lte,
  op_in, op_contains, op_starts_with, op_ends_with, op_unknown, equal, compare, str_contains,
  str_has_prefix, str_has_suffix, str,
}

-- A record: `map[string]any`.
abbrev pub Record : Type 0
Record = List (String × Value)

-- `record[field]`, which is nil where the key is absent.
unfoldable pub field : Record → String → Value
unfolding lookup
field r f = elim (lookup f r) [ none ↦ null | some v ↦ v ]

pub data Connector : Type 0 where
  connector_default connector_and connector_or connector_unknown : Connector

pub record Where : Type 0 where
  pub name : String
  pub operator : Operator
  pub value : Operand
  pub connector : Connector

-- `W`: an equality clause.
abbrev pub w : String → Value → Where
w f v = record { name = f; operator = op_eq; value = one v; connector = connector_default }

any_equal : Value → List Value → Bool
any_equal v [] = false
any_equal v (item ∷ items) = equal v item || any_equal v items

-- A slice equals no field: `reflect.DeepEqual` of a field with a slice is false.
equal_operand : Value → Operand → Bool
equal_operand v (one u) = equal v u
equal_operand v (many us) = false

compare_operand : Value → Operand → Operator → Bool
compare_operand v (one u) op = compare v u op
compare_operand v (many us) op = false

str_operand : Operand → String
unfolding str
str_operand (one u) = str u
str_operand (many us) = ""

in_operand : Value → Operand → Bool
unfolding any_equal
in_operand v (one u) = false
in_operand v (many us) = any_equal v us

-- The `switch` of `matchOne`; the empty operator is OpEq.
match_operator : Operator → Value → Operand → Bool
unfolding equal_operand compare_operand str_operand in_operand str
match_operator op_default v x = equal_operand v x
match_operator op_eq v x = equal_operand v x
match_operator op_ne v x = not (equal_operand v x)
match_operator op_in v x = in_operand v x
match_operator op_contains v x = str_contains (str v) (str_operand x)
match_operator op_starts_with v x = str_has_prefix (str v) (str_operand x)
match_operator op_ends_with v x = str_has_suffix (str v) (str_operand x)
match_operator op_gt v x = compare_operand v x op_gt
match_operator op_gte v x = compare_operand v x op_gte
match_operator op_lt v x = compare_operand v x op_lt
match_operator op_lte v x = compare_operand v x op_lte
match_operator op_unknown v x = false

unfoldable pub match_one : Record → Where → Bool
unfolding match_operator field
match_one r c = match_operator c.operator (field r c.name) c.value

-- Every connector but OR joins by "and".
pub join : Connector → Bool → Bool → Bool
join connector_or result ok = result || ok
join connector_default result ok = result && ok
join connector_and result ok = result && ok
join connector_unknown result ok = result && ok

-- The loop of `Matches` behind its first clause.
matches_from : Record → Bool → List Where → Bool
unfolding join
matches_from r result [] = result
matches_from r result (c ∷ cs) = matches_from r (join c.connector result (match_one r c)) cs

unfoldable pub matches : Record → List Where → Bool
unfolding matches_from
matches r [] = true
matches r (c ∷ cs) = matches_from r (match_one r c) cs
