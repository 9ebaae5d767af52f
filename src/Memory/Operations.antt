-- ===== src/Memory/Operations.antt =====
-- storage/memory/memory.go: the operations of `storage.Adapter` on the records of one model, under
-- the model's table in the schema, if there is one.
use go_dev_auth.Prelude.{
  ℕ, suc, String, Bool, true, false, not, ◌&&◌, Option, none, some, List, [], ◌∷◌, ◌++◌, ◌==◌,
  if◌then◌else◌, ltb, take, drop, length,
}
use go_dev_auth.Prelude.Assoc.{merge}
use go_dev_auth.Prelude.Result.{Result, ok, err}
use go_dev_auth.Storage.Error.{AdapterError, not_found, unique_violation, unknown_field}
use go_dev_auth.Storage.Value.{less_value}
use go_dev_auth.Storage.Filter.{Record, Where, field, matches}
use go_dev_auth.Storage.Schema.{Field, Table, field_by_name, apply_defaults}
use go_dev_auth.Memory.Index.{
  Cells, Index, Coll, set_cell, unique_of, add_to_index, remove_from_index, lookup_unique,
  violates_unique,
}

known : List Field → String → Bool
unfolding field_by_name
known fs name = elim (field_by_name name fs) [ none ↦ false | some f ↦ true ]

known_keys : List Field → Record → Bool
unfolding known
known_keys fs [] = true
known_keys fs ((k, v) ∷ r) = known fs k && known_keys fs r

known_clauses : List Field → List Where → Bool
unfolding known
known_clauses fs [] = true
known_clauses fs (c ∷ cs) = known fs c.name && known_clauses fs cs

-- `checkWritableFields`: whether the schema declares every key.
unfoldable pub writable : Option Table → Record → Bool
unfolding known_keys
writable none r = true
writable (some t) r = known_keys t.fields r

-- `checkWhereFields`: whether the schema declares every field of the filter.
unfoldable pub filterable : Option Table → List Where → Bool
unfolding known_clauses
filterable none cs = true
filterable (some t) cs = known_clauses t.fields cs

unfoldable pub with_defaults : Option Table → Record → Record
unfolding apply_defaults
with_defaults none r = r
with_defaults (some t) r = apply_defaults t.fields r

-- A new object at the end of the table, and in the index.
unfoldable pub insert_row : Option Table → Record → Coll → Coll
unfolding add_to_index unique_of
insert_row t r c = record {
  cells = set_cell c.cells c.next r;
  next = suc c.next;
  rows = c.rows ++ c.next ∷ [];
  index = add_to_index (unique_of t) r c.next c.index;
}

-- `Create`
unfoldable pub create : Option Table → Record → Coll → Result AdapterError Record × Coll
unfolding writable with_defaults violates_unique insert_row
create t data' c =
    let r = with_defaults t data' in
    if not (writable t data')
    then (err unknown_field, c)
    else if violates_unique t c r none
    then (err unique_violation, c)
    else (ok r, insert_row t r c)

-- The address of the first row that matches.
unfoldable pub find_row : Cells → List Where → List ℕ → Option ℕ
unfolding matches
find_row cells cs [] = none
find_row cells cs (p ∷ ps) = if matches (cells p) cs then some p else find_row cells cs ps

unfoldable pub found : Cells → Option ℕ → Result AdapterError Record
found cells none = err not_found
found cells (some p) = ok (cells p)

-- `FindOne`
unfoldable pub find_one : Option Table → List Where → Coll → Result AdapterError Record
unfolding filterable lookup_unique unique_of found find_row
find_one t cs c =
    if not (filterable t cs)
    then err unknown_field
    else elim (lookup_unique (unique_of t) c.index cs) [
      | some o ↦ found c.cells o
      | none ↦ found c.cells (find_row c.cells cs c.rows)
    ]

-- The records that match, in table order.
unfoldable pub matching : List Where → Cells → List ℕ → List Record
unfolding matches
matching cs cells [] = []
matching cs cells (p ∷ ps) =
    if matches (cells p) cs then cells p ∷ matching cs cells ps else matching cs cells ps

pub record SortBy : Type 0 where
  pub name : String
  pub descending : Bool

pub record FindOptions : Type 0 where
  pub limit : ℕ
  pub offset : ℕ
  pub sort_by : Option SortBy

less_record : SortBy → Record → Record → Bool
unfolding field less_value
less_record s a b =
    if s.descending
    then less_value (field b s.name) (field a s.name)
    else less_value (field a s.name) (field b s.name)

-- The stable sort of a list: an earlier element goes behind those that are less than it alone.
insert_sorted : SortBy → Record → List Record → List Record
unfolding less_record
insert_sorted s r [] = r ∷ []
insert_sorted s r (x ∷ xs) = if less_record s x r then x ∷ insert_sorted s r xs else r ∷ x ∷ xs

unfoldable pub sort_records : SortBy → List Record → List Record
unfolding insert_sorted
sort_records s [] = []
sort_records s (r ∷ rs) = insert_sorted s r (sort_records s rs)

unfoldable pub sorted : Option SortBy → List Record → List Record
unfolding sort_records
sorted none rs = rs
sorted (some s) rs = sort_records s rs

unfoldable pub limited : ℕ → List Record → List Record
limited n rs = if ltb 0 n && ltb n (length rs) then take n rs else rs

-- Sorting, then the offset, then the limit; 0 stands for no limit.
unfoldable pub page : FindOptions → List Record → List Record
unfolding sorted limited
page o rs = limited o.limit (drop o.offset (sorted o.sort_by rs))

-- `FindMany`
unfoldable pub find_many :
    Option Table → List Where → FindOptions → Coll → Result AdapterError (List Record)
unfolding filterable matching page
find_many t cs o c =
    if not (filterable t cs) then err unknown_field else ok (page o (matching cs c.cells c.rows))

-- The object is taken out of the index, overwritten, and put back.
unfoldable pub write_row : Option Table → Record → ℕ → Coll → Coll
unfolding merge remove_from_index add_to_index unique_of
write_row t update p c =
    let r = merge update (c.cells p) in
    record c {
      cells = set_cell c.cells p r;
      index =
          add_to_index (unique_of t) r p
            (remove_from_index (unique_of t) c.cells (c.cells p) c.index);
    }

unfoldable pub update_row :
    Option Table → Record → Option ℕ → Coll → Result AdapterError Record × Coll
unfolding write_row violates_unique merge
update_row t update none c = (err not_found, c)
update_row t update (some p) c =
    if violates_unique t c (merge update (c.cells p)) (some (c.cells p))
    then (err unique_violation, c)
    else (ok (merge update (c.cells p)), write_row t update p c)

-- `Update`
unfoldable pub update :
    Option Table → List Where → Record → Coll → Result AdapterError Record × Coll
unfolding filterable writable update_row find_row
update t cs u c =
    if not (filterable t cs)
    then (err unknown_field, c)
    else if not (writable t u)
    then (err unknown_field, c)
    else update_row t u (find_row c.cells cs c.rows) c

-- The loop of `UpdateMany` over the rows.
unfoldable pub update_rows : Option Table → List Where → Record → List ℕ → Coll → ℕ × Coll
unfolding matches write_row
update_rows t cs u [] c = (0, c)
update_rows t cs u (p ∷ ps) c =
    let hit = matches (c.cells p) cs in
    let rest = update_rows t cs u ps (if hit then write_row t u p c else c) in
    ((if hit then suc rest.0 else rest.0), rest.1)

-- `UpdateMany`
unfoldable pub update_many :
    Option Table → List Where → Record → Coll → Result AdapterError ℕ × Coll
unfolding filterable writable update_rows
update_many t cs [] c = (ok 0, c)
update_many t cs (e ∷ u) c =
    let done = update_rows t cs (e ∷ u) c.rows c in
    if not (filterable t cs)
    then (err unknown_field, c)
    else if not (writable t (e ∷ u))
    then (err unknown_field, c)
    else (ok done.0, done.1)

unfoldable pub without : ℕ → List ℕ → List ℕ
without p [] = []
without p (q ∷ qs) = if q == p then qs else q ∷ without p qs

unfoldable pub delete_row : Option Table → ℕ → Coll → Coll
unfolding remove_from_index unique_of without
delete_row t p c = record c {
  index = remove_from_index (unique_of t) c.cells (c.cells p) c.index;
  rows = without p c.rows;
}

unfoldable pub delete_found : Option Table → Option ℕ → Coll → Coll
unfolding delete_row
delete_found t none c = c
delete_found t (some p) c = delete_row t p c

-- `Delete`
unfoldable pub delete : Option Table → List Where → Coll → Result AdapterError (Unit {0}) × Coll
unfolding filterable delete_found find_row
delete t cs c =
    if not (filterable t cs)
    then (err unknown_field, c)
    else (ok tt, delete_found t (find_row c.cells cs c.rows) c)

-- The loop of `DeleteMany`: the rows kept, how many are removed, and the index left.
unfoldable pub delete_rows : List String → List Where → Cells → List ℕ → Index → List ℕ × ℕ × Index
unfolding matches remove_from_index
delete_rows fs cs cells [] index = ([], 0, index)
delete_rows fs cs cells (p ∷ ps) index =
    let hit = matches (cells p) cs in
    let (kept, n, left) =
      delete_rows fs cs cells ps
        (if hit then remove_from_index fs cells (cells p) index else index) in
    (if hit then kept else p ∷ kept, if hit then suc n else n, left)

-- `DeleteMany`
unfoldable pub delete_many : Option Table → List Where → Coll → Result AdapterError ℕ × Coll
unfolding filterable delete_rows unique_of
delete_many t cs c =
    let (kept, n, left) = delete_rows (unique_of t) cs c.cells c.rows c.index in
    if not (filterable t cs)
    then (err unknown_field, c)
    else (ok n, record c { rows = kept; index = left })

-- `Count`
unfoldable pub count : Option Table → List Where → Coll → Result AdapterError ℕ
unfolding filterable matching
count t cs c =
    if not (filterable t cs) then err unknown_field else ok (length (matching cs c.cells c.rows))
