-- ===== src/Memory/Updates.antt =====
-- Update and Delete against their specification.
use go_dev_auth.Prelude.{
  ℕ, ◌≡◌, refl, true, not, Option, none, some, List, if◌then◌else◌, Option-cases, Bool-cases, inl,
  inr, sym,
}
use go_dev_auth.Prelude.Assoc.{merge}
use go_dev_auth.Prelude.Result.{Result, ok, err}
use go_dev_auth.Storage.Error.{AdapterError, not_found, unknown_field, unique_violation}
use go_dev_auth.Storage.Value.{Value}
use go_dev_auth.Storage.Filter.{Record, Where}
use go_dev_auth.Storage.Schema.{Table}
use go_dev_auth.Storage.Contract.{first, remove_first, update_first}
use go_dev_auth.Memory.Index.{Coll, key, declares, unique_of, violates_unique}
use go_dev_auth.Memory.Operations.{
  update, update_row, write_row, delete, delete_found, delete_row, find_row, filterable, writable,
}
use go_dev_auth.Memory.Invariant.{IsValid}
use go_dev_auth.Memory.Invariant.Writes.{write_row-IsValid, delete_row-IsValid}
use go_dev_auth.Memory.View.{
  view, mem-find_row, first-map, map-set_cell_first, map-without, remove_first-none,
}
use go_dev_auth.Memory.Refines.{refused, refused_lem, fields_free}

-- An update that leaves the id alone, or writes one.
abbrev pub KeepsId : Record → Type 0
KeepsId u =
    (r : Record) (v : Value) → key "id" r ≡ some v → (v' : Value) × (key "id" (merge u r) ≡ some v')

unfoldable pub update_spec :
    Option Table → List Where → Record → List Record → Result AdapterError Record × List Record
update_spec t cs u rs =
    if not (filterable t cs)
    then (err unknown_field, rs)
    else if not (writable t u)
    then (err unknown_field, rs)
    else elim (first cs rs) [
      | none ↦ (err not_found, rs)
      | some r ↦
          if refused t (merge u r) (some r) rs
          then (err unique_violation, rs)
          else (ok (merge u r), update_first cs u rs)
    ]

module _ (t : Option Table) (cs : List Where) (c : Coll) (valid : IsValid (unique_of t) c)
    (id : declares "id" (unique_of t) ≡ true) where
  view-write_row :
      (u : Record) (p : ℕ)
      → find_row c.cells cs c.rows ≡ some p
      → view (write_row t u p c) ≡ update_first cs u (view c)
  unfolding write_row
  view-write_row u p h = map-set_cell_first cs u c.cells c.rows p valid.nodup h

  view-delete_row :
      (p : ℕ)
      → find_row c.cells cs c.rows ≡ some p
      → view (delete_row t p c) ≡ remove_first cs (view c)
  unfolding delete_row
  view-delete_row p h =
      map-without cs c.cells c.rows p h (mem-find_row cs c.cells c.rows p h) valid.nodup

  -- On a model with an exact index and unique ids, Update keeps the index exact, if it leaves each
  -- record an id, and does to the records what the specification does: the first
  -- record that matches takes the new values, unless another record has the value of a unique field
  -- or constraint; on an error nothing changes.
  pub update-refines :
      (u : Record)
      → KeepsId u
      → IsValid (unique_of t) (update t cs u c).1
        × ((update t cs u c).0 ≡ (update_spec t cs u (view c)).0)
        × (view (update t cs u c).1 ≡ (update_spec t cs u (view c)).1)
  unfolding update update_spec update_row
  update-refines u keeps = elim (Bool-cases (filterable t cs)) [
    | inr e ↦ rw e (valid, refl, refl)
    | inl e ↦ elim (Bool-cases (writable t u)) [
      | inr e' ↦ rw (e, e') (valid, refl, refl)
      | inl e' ↦ elim (Option-cases (find_row c.cells cs c.rows)) [
        | inl n ↦ rw (e, e', first-map cs c.cells c.rows, n) (valid, refl, refl)
        | inr (p, f) ↦
            elim (Bool-cases (violates_unique t c (merge u (c.cells p)) (some (c.cells p)))) [
              | inl bad ↦
                  rw
                    (
                      e,
                      e',
                      first-map cs c.cells c.rows,
                      f,
                      bad,
                      ← refused_lem t c (merge u (c.cells p)) (some (c.cells p)) valid,
                      bad,
                    )
                    (valid, refl, refl)
              | inr free ↦
                  let row = mem-find_row cs c.cells c.rows p f in
                  let (v, k) = valid.has_id p row in
                  let (v', k') = keeps (c.cells p) v k in
                  rw
                    (
                      e,
                      e',
                      first-map cs c.cells c.rows,
                      f,
                      free,
                      ← refused_lem t c (merge u (c.cells p)) (some (c.cells p)) valid,
                      free,
                    )
                    (
                      write_row-IsValid t p c valid id row u (fields_free t c _ _ free) v' k',
                      refl,
                      view-write_row u p f,
                    )
            ]
      ]
    ]
  ]

  -- On a model with an exact index and unique ids, for a filter on declared fields, Delete keeps the
  -- index exact and removes the first record that matches, if there is one.
  pub delete-refines :
      filterable t cs ≡ true
      → IsValid (unique_of t) (delete t cs c).1
        × ((delete t cs c).0 ≡ ok tt)
        × (view (delete t cs c).1 ≡ remove_first cs (view c))
  unfolding delete delete_found
  delete-refines e = elim (Option-cases (find_row c.cells cs c.rows)) [
    | inl n ↦
        rw (e, n)
          (valid, refl, sym (remove_first-none cs (view c) (rw (first-map cs c.cells c.rows, n))))
    | inr (p, f) ↦
        rw (e, f)
          (
            delete_row-IsValid t p c valid id (mem-find_row cs c.cells c.rows p f),
            refl,
            view-delete_row p f,
          )
  ]
