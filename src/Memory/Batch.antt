-- ===== src/Memory/Batch.antt =====
-- storage/memory/memory.go: the operations on many rows that read or overwrite them.
use go_dev_auth.Prelude.{
  ℕ, suc, ◌≡◌, refl, true, false, List, [], ◌∷◌, arith, if◌then◌else◌, Bool-cases, inl, inr, mem,
  map, length, sym, subst, Option, ap, ◌∙◌, ==_iff, ◌≢◌,
}
use go_dev_auth.Prelude.Assoc.{merge}
use go_dev_auth.Prelude.Result.{ok, err}
use go_dev_auth.Storage.Error.{unknown_field}
use go_dev_auth.Storage.Filter.{Record, Where, matches}
use go_dev_auth.Storage.Schema.{Table}
use go_dev_auth.Storage.Contract.{select, update_all}
use go_dev_auth.Memory.Index.{Coll, set_cell, unique_of}
use go_dev_auth.Memory.Operations.{
  write_row, filterable, writable, update_rows, update_many, find_many, FindOptions, page, count,
}
use go_dev_auth.Memory.Invariant.{IsValid, Nodup}
use go_dev_auth.Memory.View.{view, map-set_cell, matching-select}

cons_eq : {r s : Record} {rs ss : List Record} → r ≡ s → rs ≡ ss → r ∷ rs ≡ s ∷ ss
cons_eq {s = s} {rs = rs} e f = ap (λ x. x ∷ rs) e ∙ ap (λ xs. s ∷ xs) f

module _ (t : Option Table) (cs : List Where) (u : Record) where
  update_rows-rows : (ps : List ℕ) (c : Coll) → (update_rows t cs u ps c).1.rows ≡ c.rows
  unfolding update_rows write_row
  update_rows-rows [] c = refl
  update_rows-rows (p ∷ ps) c = elim (Bool-cases (matches (c.cells p) cs)) [
    | inl e ↦ rw e (update_rows-rows ps (write_row t u p c))
    | inr e ↦ rw e (update_rows-rows ps c)
  ]

  -- A row that the loop does not come to keeps its record.
  update_rows-cells :
      (ps : List ℕ) (c : Coll) (q : ℕ)
      → mem q ps ≡ false
      → (update_rows t cs u ps c).1.cells q ≡ c.cells q
  unfolding update_rows write_row mem
  update_rows-cells [] c q h = refl
  update_rows-cells (p ∷ ps) c q h = elim (Bool-cases (matches (c.cells p) cs)) [
    | inl e ↦ rw e (ground (arith, update_rows-cells ps (write_row t u p c) q))
    | inr e ↦ rw e (update_rows-cells ps c q (ground arith))
  ]

  update_rows-hit :
      (p : ℕ) (ps : List ℕ) (c : Coll)
      → matches (c.cells p) cs ≡ true
      → update_rows t cs u (p ∷ ps) c ≡ (
        suc (update_rows t cs u ps (write_row t u p c)).0,
        (update_rows t cs u ps (write_row t u p c)).1,
      )
  unfolding update_rows
  update_rows-hit p ps c e = rw e refl

  update_rows-miss :
      (p : ℕ) (ps : List ℕ) (c : Coll)
      → matches (c.cells p) cs ≡ false
      → update_rows t cs u (p ∷ ps) c ≡ update_rows t cs u ps c
  unfolding update_rows
  update_rows-miss p ps c e = rw e refl

  abbrev IsUpdated : List ℕ → Coll → ℕ × Coll → Type 0
  IsUpdated ps c x =
      (map x.1.cells ps ≡ update_all cs u (map c.cells ps))
      × (x.0 ≡ length (select cs (map c.cells ps)))

  update_rows-view : (ps : List ℕ) (c : Coll) → Nodup ps → IsUpdated ps c (update_rows t cs u ps c)
  unfolding update_all select write_row
  update_rows-view [] c d = unfold update_rows in (refl, refl)
  update_rows-view (p ∷ ps) c (new, d) = elim (Bool-cases (matches (c.cells p) cs)) [
    | inl e ↦
        let (v, n) = update_rows-view ps (write_row t u p c) d in
        let seen = map-set_cell c.cells p (merge u (c.cells p)) ps new in
        let own : set_cell c.cells p (merge u (c.cells p)) p ≡ merge u (c.cells p) =
          ground (arith, ==_iff p p) in
        subst (IsUpdated (p ∷ ps) c) (sym (update_rows-hit p ps c e)) (
          rw e (
            cons_eq (update_rows-cells ps (write_row t u p c) p new ∙ own)
                (v ∙ ap (update_all cs u) seen),
            ap suc (n ∙ ap (λ rs. length (select cs rs)) seen),
          ))
    | inr e ↦
        let (v, n) = update_rows-view ps c d in
        subst (IsUpdated (p ∷ ps) c) (sym (update_rows-miss p ps c e))
          (rw e (cons_eq (update_rows-cells ps c p new) v, n))
  ]

-- An UpdateMany that sets something merges the new values into exactly the records that match, each in its place, and
-- returns how many they are, where the index is exact and the schema declares all fields.
pub update_many-refines :
    (t : Option Table) (cs : List Where) (u : Record) (c : Coll)
    → IsValid (unique_of t) c
    → filterable t cs ≡ true
    → writable t u ≡ true
    → u ≢ []
    → ((update_many t cs u c).0 ≡ ok (length (select cs (view c))))
      × (view (update_many t cs u c).1 ≡ update_all cs u (view c))
unfolding update_many
update_many-refines t cs [] c valid f g ne = absurd (ne refl)
update_many-refines t cs (x ∷ u) c valid f g ne =
    let (v, n) = update_rows-view t cs (x ∷ u) c.rows c valid.nodup in
    rw (f, g, n) (refl, ap (map _) (update_rows-rows t cs (x ∷ u) c.rows c) ∙ v)

-- FindMany returns a page of the records that match, in table order where no sort is asked for, and
-- Count how many there are; a filter on an undeclared field is refused by both.
pub find_many-refines :
    (t : Option Table) (cs : List Where) (o : FindOptions) (c : Coll)
    → (find_many t cs o c
        ≡ (if filterable t cs then ok (page o (select cs (view c))) else err unknown_field))
      × (count t cs c
          ≡ (if filterable t cs then ok (length (select cs (view c))) else err unknown_field))
unfolding find_many count
find_many-refines t cs o c = ground (arith, matching-select cs c.cells c.rows)
