-- ===== src/Memory/Traces.antt =====
-- Sequences of calls on one model of the in-memory adapter.
use go_dev_auth.Prelude.{
  ℕ, String, ◌≡◌, refl, ap, true, false, Option, none, some, List, [], ◌∷◌, if◌then◌else◌,
  Bool-cases, inl, inr, length,
}
use go_dev_auth.Prelude.Result.{Result, ok, err}
use go_dev_auth.Storage.Error.{AdapterError, unknown_field}
use go_dev_auth.Storage.Value.{Value, text}
use go_dev_auth.Storage.Filter.{Record, Where, w}
use go_dev_auth.Storage.Schema.{Table}
use go_dev_auth.Storage.Contract.{select, reject, remove_first}
use go_dev_auth.Memory.Index.{Coll, key, declares, unique_of, lookup_unique}
use go_dev_auth.Memory.Operations.{
  create, find_one, find_many, count, update, delete, delete_many, filterable, with_defaults,
  FindOptions, page,
}
use go_dev_auth.Memory.Invariant.{IsValid}
use go_dev_auth.Memory.View.{view}
use go_dev_auth.Memory.Refines.{create_spec, find_one_spec, found-find_row, create-refines}
use go_dev_auth.Memory.Lookup.{find_one-refines}
use go_dev_auth.Memory.Updates.{KeepsId, update_spec, update-refines, delete-refines}
use go_dev_auth.Memory.Deletes.{delete_many-refines}
use go_dev_auth.Memory.Batch.{find_many-refines}

-- The calls of the interface: FindOne by one text or by several clauses, FindMany, Count, Create,
-- Update, Delete and DeleteMany.
pub data Call : Type 0 where
  find_by : String → String → Call
  find_where : Where → Where → List Where → Call
  list : List Where → FindOptions → Call
  total : List Where → Call
  add : Record → Call
  change : List Where → Record → Call
  remove : List Where → Call
  remove_all : List Where → Call

pub data Answer : Type 0 where
  one : Result AdapterError Record → Answer
  several : Result AdapterError (List Record) → Answer
  number : Result AdapterError ℕ → Answer
  done : Result AdapterError (Unit {0}) → Answer

-- What the in-memory adapter does.
unfoldable pub step : Option Table → Call → Coll → Answer × Coll
step t (find_by f s) c = (one (find_one t (w f (text s) ∷ []) c), c)
step t (find_where a b cs) c = (one (find_one t (a ∷ b ∷ cs) c), c)
step t (list cs o) c = (several (find_many t cs o c), c)
step t (total cs) c = (number (count t cs c), c)
step t (add data') c = let (r, c') = create t data' c in (one r, c')
step t (change cs u) c = let (r, c') = update t cs u c in (one r, c')
step t (remove cs) c = let (r, c') = delete t cs c in (done r, c')
step t (remove_all cs) c = let (n, c') = delete_many t cs c in (number n, c')

-- What the interface promises, on the plain list of records: no index, no addresses.
unfoldable pub step_spec : Option Table → Call → List Record → Answer × List Record
unfolding find_one_spec create_spec update_spec remove_first select reject page
step_spec t (find_by f s) rs = (one (find_one_spec t (w f (text s) ∷ []) rs), rs)
step_spec t (find_where a b cs) rs = (one (find_one_spec t (a ∷ b ∷ cs) rs), rs)
step_spec t (list cs o) rs =
    (several (if filterable t cs then ok (page o (select cs rs)) else err unknown_field), rs)
step_spec t (total cs) rs =
    (number (if filterable t cs then ok (length (select cs rs)) else err unknown_field), rs)
step_spec t (add data') rs = let (r, rs') = create_spec t data' rs in (one r, rs')
step_spec t (change cs u) rs = let (r, rs') = update_spec t cs u rs in (one r, rs')
step_spec t (remove cs) rs =
    if filterable t cs then (done (ok tt), remove_first cs rs) else (done (err unknown_field), rs)
step_spec t (remove_all cs) rs =
    if filterable t cs
    then (number (ok (length (select cs rs))), reject cs rs)
    else (number (err unknown_field), rs)

unfoldable pub run : Option Table → List Call → Coll → List Answer × Coll
unfolding step
run t [] c = ([], c)
run t (call ∷ calls) c =
    let (a, c') = step t call c in let (answers, c'') = run t calls c' in (a ∷ answers, c'')

unfoldable pub run_spec : Option Table → List Call → List Record → List Answer × List Record
unfolding step_spec
run_spec t [] rs = ([], rs)
run_spec t (call ∷ calls) rs =
    let (a, rs') = step_spec t call rs in
    let (answers, rs'') = run_spec t calls rs' in (a ∷ answers, rs'')

-- A record that is created has an id, and an update leaves each record an id.
abbrev pub HasId : Option Table → Call → Type 0
HasId t (add data') = (v : Value) × (key "id" (with_defaults t data') ≡ some v)
HasId t (change cs u) = KeepsId u
HasId t (find_by f s) = Unit
HasId t (find_where a b cs) = Unit
HasId t (list cs o) = Unit
HasId t (total cs) = Unit
HasId t (remove cs) = Unit
HasId t (remove_all cs) = Unit

abbrev pub HaveIds : Option Table → List Call → Type 0
HaveIds t [] = Unit
HaveIds t (call ∷ calls) = HasId t call × HaveIds t calls

-- The model is valid, and it and the list agree on the answer and the records.
abbrev Agrees : {A : Type 0} → Option Table → A × Coll → A × List Record → Type 0
Agrees t (a, c) (b, rs) = IsValid (unique_of t) c × (a ≡ b) × (view c ≡ rs)

module _ (t : Option Table) (id : declares "id" (unique_of t) ≡ true) where
  find_where-refines :
      (a b : Where) (cs : List Where) (c : Coll)
      → find_one t (a ∷ b ∷ cs) c ≡ find_one_spec t (a ∷ b ∷ cs) (view c)
  unfolding find_one find_one_spec lookup_unique
  find_where-refines a b cs c = rw found-find_row refl

  delete-refused :
      (cs : List Where) (c : Coll)
      → filterable t cs ≡ false
      → (delete t cs c ≡ (err unknown_field, c)) × (delete_many t cs c ≡ (err unknown_field, c))
  unfolding delete delete_many
  delete-refused cs c e = rw e (refl, refl)

  delete-Agrees :
      (cs : List Where) (c : Coll)
      → IsValid (unique_of t) c
      → Agrees t (step t (remove cs) c) (step_spec t (remove cs) (view c))
  unfolding step step_spec
  delete-Agrees cs c valid = elim (Bool-cases (filterable t cs)) [
    | inl e ↦ let (v, a, l) = delete-refines t cs c valid id e in rw e (v, ap done a, l)
    | inr e ↦ rw (e, (delete-refused cs c e).0) (valid, refl, refl)
  ]

  delete_many-Agrees :
      (cs : List Where) (c : Coll)
      → IsValid (unique_of t) c
      → Agrees t (step t (remove_all cs) c) (step_spec t (remove_all cs) (view c))
  unfolding step step_spec
  delete_many-Agrees cs c valid = elim (Bool-cases (filterable t cs)) [
    | inl e ↦ let (v, a, l) = delete_many-refines t cs c id valid e in rw e (v, ap number a, l)
    | inr e ↦ rw (e, (delete-refused cs c e).1) (valid, refl, refl)
  ]

  step-Agrees :
      (call : Call) (c : Coll)
      → HasId t call
      → IsValid (unique_of t) c
      → Agrees t (step t call c) (step_spec t call (view c))
  unfolding step step_spec
  step-Agrees (find_by f s) c h valid = (valid, ap one (find_one-refines t f s c valid), refl)
  step-Agrees (find_where a b cs) c h valid = (valid, ap one (find_where-refines a b cs c), refl)
  step-Agrees (list cs o) c h valid = (valid, ap several (find_many-refines t cs o c).0, refl)
  step-Agrees (total cs) c h valid = (
    valid,
    ap number (find_many-refines t cs (record { limit = 0; offset = 0; sort_by = none }) c).1,
    refl,
  )
  step-Agrees (add data') c (v, k) valid =
      let (v', a, l) = create-refines t data' c v id k valid in (v', ap one a, l)
  step-Agrees (change cs u) c keeps valid =
      let (v, a, l) = update-refines t cs c valid id u keeps in (v, ap one a, l)
  step-Agrees (remove cs) c h valid = delete-Agrees cs c valid
  step-Agrees (remove_all cs) c h valid = delete_many-Agrees cs c valid

  -- However FindOne, FindMany, Count, Create, Update, Delete and DeleteMany follow one another on a
  -- model with an exact index and unique ids, where each record created has an id and no update takes
  -- one away, the answers are those of the plain list of records, the records left are the same, in
  -- the same order, and the index is exact again. A FindOne has either a single clause that compares a
  -- field with a text for equality, or two clauses or more; a FindOne by any other single clause is
  -- not covered.
  pub run-refines :
      (calls : List Call) (c : Coll)
      → HaveIds t calls
      → IsValid (unique_of t) c
      → IsValid (unique_of t) (run t calls c).1
        × ((run t calls c).0 ≡ (run_spec t calls (view c)).0)
        × (view (run t calls c).1 ≡ (run_spec t calls (view c)).1)
  unfolding run run_spec
  run-refines [] c h valid = (valid, refl, refl)
  run-refines (call ∷ calls) c (h, hs) valid =
      let (v, a, l) = step-Agrees call c h valid in
      let (v', a', l') = run-refines calls (step t call c).1 hs v in
      (v', rw (a, a', l) refl, rw (l', l) refl)
