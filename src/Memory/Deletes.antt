-- ===== src/Memory/Deletes.antt =====
-- DeleteMany against its specification.
use go_dev_auth.Prelude.{
  ℕ, String, ◌≡◌, refl, true, not, ◌&&◌, Option, List, [], ◌∷◌, map, suc, arith, Bool-cases, inl,
  inr, mem, sym, ap, ◌∙◌, ==_iff, length,
}
use go_dev_auth.Prelude.Result.{ok}
use go_dev_auth.Storage.Filter.{Where, matches}
use go_dev_auth.Storage.Schema.{Table}
use go_dev_auth.Storage.Contract.{reject, select}
use go_dev_auth.Memory.Index.{Cells, Coll, Index, declares, unique_of, remove_from_index}
use go_dev_auth.Memory.Operations.{filterable, delete_many, delete_rows, delete_row}
use go_dev_auth.Memory.Invariant.{IsValid, Nodup}
use go_dev_auth.Memory.Invariant.Writes.{delete_row-IsValid, mem-without}
use go_dev_auth.Memory.View.{view}

-- The invariant depends on the rows by membership alone.
IsValid-rows :
    (fs : List String) (c : Coll) (rows : List ℕ)
    → IsValid fs c
    → ((q : ℕ) → mem q rows ≡ mem q c.rows)
    → Nodup rows
    → IsValid fs (record c { rows = rows })
IsValid-rows fs c rows valid e d = record {
  bound = λ p m. valid.bound p (sym (e p) ∙ m);
  nodup = d;
  has_id = λ p m. valid.has_id p (sym (e p) ∙ m);
  sound = λ g u p k i. let (m, h) = valid.sound g u p k i in (e p ∙ m, h);
  complete = λ g u p k m h. valid.complete g u p k (sym (e p) ∙ m) h;
}

module _ (t : Option Table) (cs : List Where) (id : declares "id" (unique_of t) ≡ true) where
  delete_rows-IsValid :
      (ps : List ℕ) (c : Coll) (rows : List ℕ)
      → IsValid (unique_of t) c
      → Nodup ps
      → ((q : ℕ) → mem q ps ≡ true → mem q c.rows ≡ true)
      → ((q : ℕ) → mem q rows ≡ (mem q c.rows && not (mem q ps && matches (c.cells q) cs)))
      → Nodup rows
      → IsValid
          (unique_of t)
          (record c { rows = rows; index = (delete_rows (unique_of t) cs c.cells ps c.index).2 })
  unfolding delete_rows delete_row mem
  delete_rows-IsValid [] c rows valid d sub e dr =
      IsValid-rows (unique_of t) c rows valid (λ q. ground (arith, e q)) dr
  delete_rows-IsValid (p ∷ ps) c rows valid (out, d) sub e dr =
      elim (Bool-cases (matches (c.cells p) cs)) [
        | inr miss ↦ rw miss (
            delete_rows-IsValid ps c rows valid d (λ q m. sub q (ground arith))
              (λ q. ground (arith, e q, ==_iff q p)) dr)
        | inl hit ↦ rw hit (
            delete_rows-IsValid ps (delete_row t p c) rows
              (delete_row-IsValid t p c valid id (sub p (ground arith))) d
              (λ q m.
                ground
                  (arith, mem-without q p c.rows valid.nodup, sub q (ground arith), ==_iff q p))
              (λ q. ground (arith, e q, mem-without q p c.rows valid.nodup, ==_iff q p)) dr)
      ]

mem-kept :
    (fs : List String) (cs : List Where) (cells : Cells) (ps : List ℕ) (index : Index) (q : ℕ)
    → mem q (delete_rows fs cs cells ps index).0 ≡ (mem q ps && not (matches (cells q) cs))
unfolding delete_rows mem
mem-kept fs cs cells [] index q = refl
mem-kept fs cs cells (p ∷ ps) index q = elim (Bool-cases (matches (cells p) cs)) [
  | inl hit ↦ rw hit (
      ground
        (arith, ==_iff q p, mem-kept fs cs cells ps (remove_from_index fs cells (cells p) index) q))
  | inr miss ↦ rw miss (ground (arith, ==_iff q p, mem-kept fs cs cells ps index q))
]

Nodup-kept :
    (fs : List String) (cs : List Where) (cells : Cells) (ps : List ℕ) (index : Index)
    → Nodup ps
    → Nodup (delete_rows fs cs cells ps index).0
unfolding delete_rows
Nodup-kept fs cs cells [] index d = tt
Nodup-kept fs cs cells (p ∷ ps) index (out, d) = elim (Bool-cases (matches (cells p) cs)) [
  | inl hit ↦ rw hit (Nodup-kept fs cs cells ps (remove_from_index fs cells (cells p) index) d)
  | inr miss ↦
      rw miss (ground (arith, mem-kept fs cs cells ps index p), Nodup-kept fs cs cells ps index d)
]

map-kept :
    (fs : List String) (cs : List Where) (cells : Cells) (ps : List ℕ) (index : Index)
    → (map cells (delete_rows fs cs cells ps index).0 ≡ reject cs (map cells ps))
      × ((delete_rows fs cs cells ps index).1 ≡ length (select cs (map cells ps)))
unfolding delete_rows reject select
map-kept fs cs cells [] index = (refl, refl)
map-kept fs cs cells (p ∷ ps) index = elim (Bool-cases (matches (cells p) cs)) [
  | inl hit ↦
      let (a, b) = map-kept fs cs cells ps (remove_from_index fs cells (cells p) index) in
      rw hit (a, ap suc b)
  | inr miss ↦ let (a, b) = map-kept fs cs cells ps index in rw miss (ap (◌∷◌ (cells p)) a, b)
]

-- On a model with an exact index and unique ids, for a filter on declared fields, DeleteMany keeps
-- the index exact, removes exactly the records that match, and returns how many
-- they are.
pub delete_many-refines :
    (t : Option Table) (cs : List Where) (c : Coll)
    → declares "id" (unique_of t) ≡ true
    → IsValid (unique_of t) c
    → filterable t cs ≡ true
    → IsValid (unique_of t) (delete_many t cs c).1
      × ((delete_many t cs c).0 ≡ ok (length (select cs (view c))))
      × (view (delete_many t cs c).1 ≡ reject cs (view c))
unfolding delete_many
delete_many-refines t cs c id valid f =
    let (a, b) = map-kept (unique_of t) cs c.cells c.rows c.index in
    rw f (
      delete_rows-IsValid t cs id c.rows c _ valid valid.nodup (λ q m. m)
          (λ q. ground (arith, mem-kept (unique_of t) cs c.cells c.rows c.index q))
          (Nodup-kept (unique_of t) cs c.cells c.rows c.index valid.nodup),
      ap ok b,
      a,
    )
