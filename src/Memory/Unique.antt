-- ===== src/Memory/Unique.antt =====
-- storage/memory/memory.go: UpdateMany on fields that are not unique.
use go_dev_auth.Prelude.{
  ℕ, String, ◌≡◌, ◌≢◌, refl, ap, sym, ◌∙◌, true, false, Option, none, some, List, [], ◌∷◌, All,
  arith, Bool-cases, Option-cases, inl, inr, mem, length, str_eq, eq_iff, eq_refl, ==_iff,
}
use go_dev_auth.Prelude.Assoc.{lookup, insert, merge, lookup-insert}
use go_dev_auth.Prelude.Result.{ok}
use go_dev_auth.Storage.Filter.{Record, Where, matches}
use go_dev_auth.Storage.Schema.{Table}
use go_dev_auth.Storage.Contract.{select, update_all}
use go_dev_auth.Memory.Index.{Coll, unique_of, declares, key, taken, violates_fields}
use go_dev_auth.Memory.Operations.{write_row, filterable, writable, update_rows, update_many}
use go_dev_auth.Memory.Invariant.{IsValid, same_record_self}
use go_dev_auth.Memory.Invariant.Writes.{write_row-IsValid}
use go_dev_auth.Memory.View.{view}
use go_dev_auth.Memory.Batch.{update_many-refines}

-- The columns of the constraints over several columns.
abbrev pub constraints_of : Option Table → List (List String)
constraints_of none = []
constraints_of (some t) = t.unique_constraints

-- No value is for a unique field or for a column of a constraint.
abbrev pub SetsNoUnique : Option Table → Record → Type 0
SetsNoUnique t = All (λ e.
    (declares e.0 (unique_of t) ≡ false)
    × All (λ columns. declares e.0 columns ≡ false) (constraints_of t))

module _ (t : Option Table) (u : Record) (plain : SetsNoUnique t u) where
  lookup-merge_other :
      (update : Record) (g : String) (r : Record)
      → SetsNoUnique t update
      → declares g (unique_of t) ≡ true
      → lookup g (merge update r) ≡ lookup g r
  unfolding merge
  lookup-merge_other [] g r h d = refl
  lookup-merge_other ((k, v) ∷ update) g r ((free, _), h) d =
      let differ : str_eq k g ≡ false = elim (Bool-cases (str_eq k g)) [
        | inr e ↦ e
        | inl e ↦
            let contrary : true ≡ false =
              sym d ∙ ap (λ j. declares j (unique_of t)) (sym ((eq_iff k g).0 e)) ∙ free in
            absurd (cc contrary)
      ] in
      lookup-merge_other update g (insert k v r) h d ∙ lookup-insert k g v r ∙ rw differ refl

  key-merge_other :
      (g : String) (r : Record) → declares g (unique_of t) ≡ true → key g (merge u r) ≡ key g r
  unfolding key
  key-merge_other g r d = rw (key, lookup-merge_other u g r plain d) refl

  module _ (id : declares "id" (unique_of t) ≡ true) where
    -- The row's own values are its own.
    own_values :
        (c : Coll) (p : ℕ) (gs : List String)
        → IsValid (unique_of t) c
        → mem p c.rows ≡ true
        → ((g : String) → declares g gs ≡ true → declares g (unique_of t) ≡ true)
        → violates_fields gs c.cells c.index (merge u (c.cells p)) (some (c.cells p)) ≡ false
    unfolding violates_fields declares taken
    own_values c p [] valid row known = refl
    own_values c p (g ∷ gs) valid row known =
        let d = known g (rw eq_refl refl) in
        let rest = own_values c p gs valid row (λ f e. known f (rw e (ground arith))) in
        elim (Option-cases (key g (c.cells p))) [
          | inl e ↦ rw (violates_fields, key-merge_other g (c.cells p) d, e) rest
          | inr (v, e) ↦
              rw
                (
                  violates_fields,
                  key-merge_other g (c.cells p) d,
                  e,
                  valid.complete g v p d row e,
                  same_record_self (unique_of t) c valid id p row,
                )
                rest
        ]

    update_rows-IsValid :
        (cs : List Where) (ps : List ℕ) (c : Coll)
        → ((p : ℕ) → mem p ps ≡ true → mem p c.rows ≡ true)
        → IsValid (unique_of t) c
        → IsValid (unique_of t) (update_rows t cs u ps c).1
    unfolding update_rows mem write_row
    update_rows-IsValid cs [] c rows valid = valid
    update_rows-IsValid cs (p ∷ ps) c rows valid =
        let row = rows p (ground (arith, ==_iff p p)) in
        let later = λ (q : ℕ) (h : mem q ps ≡ true). rows q (ground (arith, h)) in
        elim (Bool-cases (matches (c.cells p) cs)) [
          | inr e ↦ rw (e, update_rows) (update_rows-IsValid cs ps c later valid)
          | inl e ↦
              let (v, k) = valid.has_id p row in
              let kept =
                write_row-IsValid t p c valid id row u
                  (own_values c p (unique_of t) valid row (λ g d. d)) v
                  (key-merge_other "id" (c.cells p) id ∙ k) in
              rw (e, update_rows) (update_rows-IsValid cs ps (write_row t u p c) later kept)
        ]

-- An UpdateMany that sets something, but no unique field and no column of a constraint, merges the new values
-- into exactly the records that match, each in its place, and returns how many they are; the index is
-- exact again, so that no two records share the value of a unique field. Before, the index was exact,
-- ids are unique, and the schema declares all fields that the filter and the values name. What an
-- UpdateMany of a unique field does is not covered.
pub update_many-IsValid :
    (t : Option Table) (cs : List Where) (u : Record) (c : Coll)
    → declares "id" (unique_of t) ≡ true
    → IsValid (unique_of t) c
    → filterable t cs ≡ true
    → writable t u ≡ true
    → u ≢ []
    → SetsNoUnique t u
    → ((update_many t cs u c).0 ≡ ok (length (select cs (view c))))
      × (view (update_many t cs u c).1 ≡ update_all cs u (view c))
      × IsValid (unique_of t) (update_many t cs u c).1
unfolding update_many
update_many-IsValid t cs [] c id valid f g ne plain = absurd (ne refl)
update_many-IsValid t cs (x ∷ u) c id valid f g ne plain =
    let (answer, left) = update_many-refines t cs (x ∷ u) c valid f g ne in
    (
      answer,
      left,
      rw (update_many, f, g) (update_rows-IsValid t (x ∷ u) plain id cs c.rows c (λ p h. h) valid),
    )
