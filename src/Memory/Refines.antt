-- ===== src/Memory/Refines.antt =====
-- The in-memory adapter does what the interface promises, on the records in table order.
use go_dev_auth.Prelude.{
  ℕ, ◌≡◌, refl, Bool, true, false, not, ◌||◌, Option, none, some, List, [], ◌∷◌, ◌++◌, arith,
  if◌then◌else◌, Bool-cases, inl, inr, ap, map, ◌∙◌,
}
use go_dev_auth.Prelude.Result.{Result, ok, err}
use go_dev_auth.Storage.Error.{AdapterError, not_found, unique_violation, unknown_field}
use go_dev_auth.Storage.Value.{Value}
use go_dev_auth.Storage.Filter.{Record, Where}
use go_dev_auth.Storage.Schema.{Table}
use go_dev_auth.Storage.Contract.{first}
use go_dev_auth.Memory.Index.{
  Cells, Coll, key, declares, unique_of, violates_fields, violates_unique,
}
use go_dev_auth.Memory.Operations.{
  create, find_row, insert_row, filterable, writable, with_defaults, found,
}
use go_dev_auth.Memory.Invariant.{IsValid}
use go_dev_auth.Memory.Invariant.Writes.{insert_row-IsValid, mem_bound}
use mathlib.Core.List.{map-append}
use mathlib.Core.Path.{ap₂}
use go_dev_auth.Prelude.{==_refl}
use go_dev_auth.Memory.View.{view, first-map, map-set_cell}
use go_dev_auth.Memory.Conflicts.{conflicts, violates-conflicts}
use go_dev_auth.Memory.Index.{violates_composite}

-- The specification of each operation on the plain records.
unfoldable pub refused : Option Table → Record → Option Record → List Record → Bool
refused t r skip rs = conflicts (unique_of t) r skip rs || violates_composite t rs r skip

unfoldable pub create_spec :
    Option Table → Record → List Record → Result AdapterError Record × List Record
unfolding refused
create_spec t data' rs =
    let r = with_defaults t data' in
    if not (writable t data')
    then (err unknown_field, rs)
    else if refused t r none rs
    then (err unique_violation, rs)
    else (ok r, rs ++ r ∷ [])

pub view-insert_row :
    (t : Option Table) (r : Record) (c : Coll)
    → IsValid (unique_of t) c
    → view (insert_row t r c) ≡ view c ++ r ∷ []
unfolding insert_row
view-insert_row t r c valid =
    map-append _ c.rows (c.next ∷ [])
    ∙ ap₂ ◌++◌ (map-set_cell c.cells c.next r c.rows (mem_bound (unique_of t) c valid))
        (ap (λ b. (if b then r else c.cells c.next) ∷ []) (==_refl c.next))

pub refused_lem :
    (t : Option Table) (c : Coll) (r : Record) (skip : Option Record)
    → IsValid (unique_of t) c
    → violates_unique t c r skip ≡ refused t r skip (view c)
unfolding refused violates_unique
refused_lem t c r skip valid =
    ap (λ b. b || violates_composite t (view c) r skip) (violates-conflicts t c valid r skip)

pub fields_free :
    (t : Option Table) (c : Coll) (r : Record) (skip : Option Record)
    → violates_unique t c r skip ≡ false
    → violates_fields (unique_of t) c.cells c.index r skip ≡ false
unfolding violates_unique
fields_free t c r skip h = ground arith

-- On a model with an exact index and unique ids, Create of a record that has an id keeps the index
-- exact, and does to the records what the specification does: it refuses an undeclared field, or a value of a unique field or constraint that another record has, without a
-- change, and otherwise adds the record with the defaults.
pub create-refines :
    (t : Option Table) (data' : Record) (c : Coll) (v : Value)
    → declares "id" (unique_of t) ≡ true
    → key "id" (with_defaults t data') ≡ some v
    → IsValid (unique_of t) c
    → IsValid (unique_of t) (create t data' c).1
      × ((create t data' c).0 ≡ (create_spec t data' (view c)).0)
      × (view (create t data' c).1 ≡ (create_spec t data' (view c)).1)
unfolding create create_spec
create-refines t data' c v d k valid = elim (Bool-cases (writable t data')) [
  | inr e ↦ rw e (valid, refl, refl)
  | inl e ↦ elim (Bool-cases (violates_unique t c (with_defaults t data') none)) [
    | inl bad ↦
        rw (e, bad, ← refused_lem t c (with_defaults t data') none valid, bad) (valid, refl, refl)
    | inr free ↦
        rw (e, free, ← refused_lem t c (with_defaults t data') none valid, free)
          (
            insert_row-IsValid t (with_defaults t data') c valid v k (fields_free t c _ none free),
            refl,
            view-insert_row t (with_defaults t data') c valid,
          )
  ]
]

unfoldable pub find_one_spec : Option Table → List Where → List Record → Result AdapterError Record
find_one_spec t cs rs =
    if not (filterable t cs)
    then err unknown_field
    else elim (first cs rs) [ none ↦ err not_found | some r ↦ ok r ]

pub found-find_row :
    (cs : List Where) (cells : Cells) (ps : List ℕ)
    → found cells (find_row cells cs ps)
      ≡ elim (first cs (map cells ps)) [ none ↦ err not_found | some r ↦ ok r ]
unfolding found
found-find_row cs cells ps = ground (arith, first-map cs cells ps)
