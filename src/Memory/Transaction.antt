-- ===== src/Memory/Transaction.antt =====
-- storage/memory/memory.go: `Transaction`, on the records of one model.
use go_dev_auth.Prelude.{
  ℕ, ◌≡◌, refl, true, false, List, [], ◌∷◌, ◌++◌, arith, Option-cases, inl, inr, mem, map, sym,
  Option, ap, ◌∙◌, ◌==◌, ==_iff, none, String, eq_iff,
}
use mathlib.Core.List.{append_assoc, append-nil, map-append}
use go_dev_auth.Prelude.Result.{Result, ok, err, Result-cases}
use go_dev_auth.Storage.Value.Laws.{same_iff}
use go_dev_auth.Storage.Filter.{Record}
use go_dev_auth.Storage.Schema.{Table}
use go_dev_auth.Memory.Index.{Coll, empty, key, declares, unique_of, skipped}
use go_dev_auth.Memory.Operations.{insert_row}
use go_dev_auth.Memory.Invariant.{IsValid, Nodup}
use go_dev_auth.Memory.Invariant.Writes.{empty-IsValid, mem-concat, insert_row-IsValid}
use go_dev_auth.Memory.View.{view}
use go_dev_auth.Memory.Refines.{view-insert_row}
use go_dev_auth.Memory.Conflicts.{shares, conflicts, violates-conflicts}

-- The child adapter: clones of the records, each put into a new index.
unfoldable pub copy_rows : Option Table → List Record → Coll → Coll
unfolding insert_row
copy_rows t [] d = d
copy_rows t (r ∷ rs) d = copy_rows t rs (insert_row t r d)

-- `Transaction`: the function runs on the child, which replaces the model if there is no error.
unfoldable pub transaction :
    {E A : Type 0} → Option Table → (Coll → Result E A × Coll) → Coll → Result E A × Coll
unfolding copy_rows
transaction t run c =
    let (answer, child) = run (copy_rows t (view c) empty) in
    elim answer [ ok a ↦ (ok a, child) | err e ↦ (err e, c) ]

module _ (t : Option Table) (c : Coll) (valid : IsValid (unique_of t) c)
    (id : declares "id" (unique_of t) ≡ true) where
  not_shares :
      (fs : List String) (p q : ℕ)
      → ((g : String) → declares g fs ≡ true → declares g (unique_of t) ≡ true)
      → mem p c.rows ≡ true
      → mem q c.rows ≡ true
      → (q == p) ≡ false
      → shares fs (c.cells p) (c.cells q) ≡ false
  unfolding declares
  not_shares [] p q sub mp mq ne = refl
  not_shares (f ∷ fs) p q sub mp mq ne = elim (Option-cases (key f (c.cells p))) [
    | inl e ↦ rw e (not_shares fs p q (λ g d. sub g (ground arith)) mp mq ne)
    | inr (v, e) ↦ elim (Option-cases (key f (c.cells q))) [
      | inl k ↦ rw (e, k) (not_shares fs p q (λ g d. sub g (ground arith)) mp mq ne)
      | inr (u, k) ↦
          let d = sub f (ground (arith, eq_iff f f)) in
          rw (e, k)
            (ground (
              arith,
              same_iff v u,
              valid.complete f v p d mp e,
              valid.complete f u q d mq k,
              not_shares fs p q (λ g d'. sub g (ground arith)) mp mq ne,
            ))
    ]
  ]

  not_conflicts :
      (p : ℕ) (qs : List ℕ)
      → mem p c.rows ≡ true
      → ((q : ℕ) → mem q qs ≡ true → mem q c.rows ≡ true)
      → mem p qs ≡ false
      → conflicts (unique_of t) (c.cells p) none (map c.cells qs) ≡ false
  unfolding mem skipped
  not_conflicts p [] mp sub new = refl
  not_conflicts p (q ∷ qs) mp sub new = ground (
    arith,
    not_shares (unique_of t) p q (λ g d. d) mp (sub q (ground arith)),
    not_conflicts p qs mp (λ x m. sub x (ground arith)),
  )

  -- The copies of further rows, behind those of the rows `qs`.
  copy_rows-view :
      (ps qs : List ℕ) (d : Coll)
      → Nodup ps
      → IsValid (unique_of t) d
      → view d ≡ map c.cells qs
      → ((x : ℕ) → mem x ps ≡ true → (mem x c.rows ≡ true) × (mem x qs ≡ false))
      → ((x : ℕ) → mem x qs ≡ true → mem x c.rows ≡ true)
      → IsValid (unique_of t) (copy_rows t (map c.cells ps) d)
        × (view (copy_rows t (map c.cells ps) d) ≡ map c.cells (qs ++ ps))
  unfolding copy_rows mem
  copy_rows-view [] qs d nodup vd e new old = (vd, e ∙ ap (map c.cells) (sym (append-nil qs)))
  copy_rows-view (p ∷ ps) qs d (first, nodup) vd e new old =
      let (row, apart) = new p (ground (arith, ==_iff p p)) in
      let (v, k) = valid.has_id p row in
      let free =
        violates-conflicts t d vd (c.cells p) none
        ∙ ap (conflicts (unique_of t) (c.cells p) none) e
        ∙ not_conflicts p qs row old apart in
      let seen =
        view-insert_row t (c.cells p) d vd
        ∙ ap (λ l. l ++ c.cells p ∷ []) e
        ∙ sym (map-append c.cells qs (p ∷ [])) in
      let (vd', e') =
        copy_rows-view ps (qs ++ p ∷ []) (insert_row t (c.cells p) d) nodup
          (insert_row-IsValid t (c.cells p) d vd v k free) seen
          (λ x m. (
            (new x (ground (arith, m))).0,
            ground (arith, mem-concat x qs p, (new x (ground (arith, m))).1, ==_iff x p, first, m),
          ))
          (λ x m. ground (arith, mem-concat x qs p, old x, ==_iff x p, row)) in
      (vd', e' ∙ ap (map c.cells) (append_assoc qs (p ∷ []) ps))

  copy_rows-IsValid :
      IsValid (unique_of t) (copy_rows t (view c) empty)
      × (view (copy_rows t (view c) empty) ≡ view c)
  unfolding mem
  copy_rows-IsValid =
      copy_rows-view c.rows [] empty valid.nodup (empty-IsValid (unique_of t)) refl
        (λ x m. (m, refl)) (λ x m. absurd (cc m))

-- What a transaction of a function on the records does: all or nothing.
abbrev pub transaction_spec :
    {E A : Type 0}
    → (List Record → Result E A × List Record)
    → List Record
    → Result E A × List Record
transaction_spec run rs =
    let (answer, left) = run rs in elim answer [ ok a ↦ (ok a, left) | err e ↦ (err e, rs) ]

-- On the records of a model, a function does what another does to their list, and keeps the index exact.
pub record Implements {E A : Type 0} (t : Option Table) (run : Coll → Result E A × Coll)
    (spec : List Record → Result E A × List Record) : Type 0 where
  pub keeps : (d : Coll) → IsValid (unique_of t) d → IsValid (unique_of t) (run d).1
  pub answer : (d : Coll) → IsValid (unique_of t) d → (run d).0 ≡ (spec (view d)).0
  pub left : (d : Coll) → IsValid (unique_of t) d → view (run d).1 ≡ (spec (view d)).1

-- On a model with an exact index and unique ids, a transaction of a function that implements one on
-- lists is all or nothing: whatever its function does to the list of records is there afterwards if
-- the function succeeds, and nothing of it if the function fails; the index stays exact, though the
-- function works on copies of the records under an index built anew.
pub transaction-refines :
    {E A : Type 0} (t : Option Table) (run : Coll → Result E A × Coll)
    (spec : List Record → Result E A × List Record) (c : Coll)
    → declares "id" (unique_of t) ≡ true
    → IsValid (unique_of t) c
    → Implements t run spec
    → IsValid (unique_of t) (transaction t run c).1
      × ((transaction t run c).0 ≡ (transaction_spec spec (view c)).0)
      × (view (transaction t run c).1 ≡ (transaction_spec spec (view c)).1)
unfolding transaction
transaction-refines t run spec c id valid imp =
    let d = copy_rows t (view c) empty in
    let (vd, e) = copy_rows-IsValid t c valid id in
    let answer = imp.answer d vd ∙ ap (λ rs. (spec rs).0) e in
    let left = imp.left d vd ∙ ap (λ rs. (spec rs).1) e in
    elim (Result-cases (run d).0) [
      | inl (a, f) ↦
          rw (f, transaction, sym answer ∙ f, transaction_spec) (imp.keeps d vd, refl, left)
      | inr (x, f) ↦ rw (f, transaction, sym answer ∙ f, transaction_spec) (valid, refl, refl)
    ]
