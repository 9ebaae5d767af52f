-- ===== src/Memory/Index.antt =====
-- storage/memory/memory.go: the records of one model and the index on its unique fields.
pub mod Laws
use go_dev_auth.Prelude.{
  ℕ, String, Bool, true, false, not, ◌&&◌, ◌||◌, Option, none, some, List, [], ◌∷◌, map, ◌==◌,
  str_eq, if◌then◌else◌,
}
use go_dev_auth.Prelude.Assoc.{lookup}
use go_dev_auth.Storage.Value.{
  Value, null, Operand, one, many, Operator, op_default, op_eq, same, indexable,
}
use go_dev_auth.Storage.Filter.{Record, Where, field}
use go_dev_auth.Storage.Schema.{Table, unique_fields}

-- The objects, by address.
abbrev pub Cells : Type 0
Cells = ℕ → Record

-- The index: unique field and value to the address of the record.
abbrev pub Index : Type 0
Index = String → Value → Option ℕ

pub record Coll : Type 0 where
  pub cells : Cells
  pub next : ℕ
  pub rows : List ℕ
  pub index : Index

abbrev pub empty : Coll
empty = record { cells = λ p. []; next = 0; rows = []; index = λ f v. none }

abbrev pub set_cell : Cells → ℕ → Record → Cells
set_cell cells p r q = if q == p then r else cells q

abbrev pub put : Index → String → Value → Option ℕ → Index
put index f v o g u = if str_eq g f && same u v then o else index g u

-- `uniqueFields`: without a schema for the model, only "id".
unfoldable pub unique_of : Option Table → List String
unfolding unique_fields
unique_of none = "id" ∷ []
unique_of (some t) = unique_fields t.fields

-- The value under which a record is indexed by a field: none if it is absent or not indexable.
unfoldable pub key : String → Record → Option Value
unfolding lookup indexable
key f r = elim (lookup f r) [ none ↦ none | some v ↦ if indexable v then some v else none ]

-- `addToIndex`
unfoldable pub add_to_index : List String → Record → ℕ → Index → Index
unfolding key
add_to_index [] r p index = index
add_to_index (f ∷ fs) r p index =
    add_to_index fs r p (elim (key f r) [ none ↦ index | some v ↦ put index f v (some p) ])

-- `sameRecord`: two records are the same if they have the same id.
unfoldable pub same_record : Record → Record → Bool
unfolding lookup same
same_record a b = elim (lookup "id" a) [
  | none ↦ false
  | some ida ↦ elim (lookup "id" b) [ none ↦ false | some idb ↦ same ida idb ]
]

-- Whether an index entry refers to the record.
unfoldable pub refers : Cells → Record → Option ℕ → Bool
unfolding same_record
refers cells r none = false
refers cells r (some q) = same_record (cells q) r

-- `removeFromIndex`
unfoldable pub remove_from_index : List String → Cells → Record → Index → Index
unfolding key refers
remove_from_index [] cells r index = index
remove_from_index (f ∷ fs) cells r index = remove_from_index fs cells r (elim (key f r) [
  | none ↦ index
  | some v ↦ if refers cells r (index f v) then put index f v none else index
])

unfoldable pub declares : String → List String → Bool
declares f [] = false
declares f (g ∷ gs) = str_eq g f || declares f gs

is_equality : Operator → Bool
is_equality op_default = true
is_equality op_eq = true
is_equality _ = false

-- `lookupUnique` on one clause: `none` if the clause is no indexed lookup.
lookup_clause : List String → Index → Where → Operand → Option (Option ℕ)
unfolding declares is_equality indexable
lookup_clause fs index c (many vs) = none
lookup_clause fs index c (one v) =
    if is_equality c.operator && (indexable v && declares c.name fs)
    then some (index c.name v)
    else none

unfoldable pub lookup_unique : List String → Index → List Where → Option (Option ℕ)
unfolding lookup_clause
lookup_unique fs index [] = none
lookup_unique fs index (c ∷ []) = lookup_clause fs index c c.value
lookup_unique fs index (c ∷ d ∷ cs) = none

-- Whether an index entry is a record other than the one that is being updated.
unfoldable pub taken : Cells → Option Record → Option ℕ → Bool
unfolding same_record
taken cells skip none = false
taken cells none (some q) = true
taken cells (some s) (some q) = not (same_record (cells q) s)

-- The loop of `violatesUnique` over the unique fields.
unfoldable pub violates_fields : List String → Cells → Index → Record → Option Record → Bool
unfolding key taken
violates_fields [] cells index r skip = false
violates_fields (f ∷ fs) cells index r skip =
    elim (key f r) [ none ↦ false | some v ↦ taken cells skip (index f v) ]
    || violates_fields fs cells index r skip

is_null : Value → Bool
is_null null = true
is_null _ = false

-- Whether each column of a constraint is set in the record.
complete : List String → Record → Bool
unfolding field is_null
complete [] r = true
complete (c ∷ cs) r = not (is_null (field r c)) && complete cs r

-- Whether two records agree in each column.
agree : List String → Record → Record → Bool
unfolding field same
agree [] r s = true
agree (c ∷ cs) r s = same (field s c) (field r c) && agree cs r s

unfoldable pub skipped : Option Record → Record → Bool
unfolding same_record
skipped none r = false
skipped (some s) r = same_record r s

-- The scan of the table for a row that agrees with the record in the columns.
unfoldable pub clash : List String → List Record → Record → Option Record → Bool
unfolding agree skipped
clash cols [] r skip = false
clash cols (s ∷ rows) r skip = not (skipped skip s) && agree cols r s || clash cols rows r skip

violates_constraints : List (List String) → List Record → Record → Option Record → Bool
unfolding complete clash
violates_constraints [] rows r skip = false
violates_constraints (cols ∷ more) rows r skip =
    complete cols r && clash cols rows r skip || violates_constraints more rows r skip

-- `violatesCompositeUnique`, on the records of the table
unfoldable pub violates_composite : Option Table → List Record → Record → Option Record → Bool
unfolding violates_constraints
violates_composite none rows r skip = false
violates_composite (some t) rows r skip = violates_constraints t.unique_constraints rows r skip

-- `violatesUnique`
unfoldable pub violates_unique : Option Table → Coll → Record → Option Record → Bool
unfolding unique_of violates_fields violates_composite
violates_unique t c r skip =
    violates_fields (unique_of t) c.cells c.index r skip
    || violates_composite t (map c.cells c.rows) r skip
