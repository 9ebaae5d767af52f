-- ===== src/Memory/View.antt =====
-- The table of a model as the plain list of its records, and what scans and writes do to it.
use go_dev_auth.Prelude.{
  ℕ, ◌≡◌, refl, true, false, none, some, List, [], ◌∷◌, arith, Bool-cases, inl, inr, mem, map,
}
use go_dev_auth.Prelude.Assoc.{merge}
use go_dev_auth.Storage.Filter.{Record, Where, matches}
use go_dev_auth.Storage.Contract.{first, select, remove_first, update_first}
use go_dev_auth.Memory.Index.{Cells, Coll, set_cell}
use go_dev_auth.Memory.Operations.{find_row, matching, without}
use go_dev_auth.Memory.Invariant.{Nodup}

-- The records of a model, in table order.
abbrev pub view : Coll → List Record
view c = map c.cells c.rows

pub matching-select :
    (cs : List Where) (cells : Cells) (ps : List ℕ)
    → matching cs cells ps ≡ select cs (map cells ps)
unfolding matching select
matching-select cs cells [] = refl
matching-select cs cells (p ∷ ps) = ground (arith, matching-select cs cells ps)

-- A scan finds the first record that matches, and the row is in the table.
pub first-map :
    (cs : List Where) (cells : Cells) (ps : List ℕ)
    → first cs (map cells ps)
      ≡ elim (find_row cells cs ps) [ none ↦ none | some p ↦ some (cells p) ]
unfolding find_row first
first-map cs cells [] = refl
first-map cs cells (p ∷ ps) = ground (arith, first-map cs cells ps)

pub mem-find_row :
    (cs : List Where) (cells : Cells) (ps : List ℕ) (p : ℕ)
    → find_row cells cs ps ≡ some p
    → mem p ps ≡ true
unfolding find_row mem
mem-find_row cs cells [] p h = cc
mem-find_row cs cells (q ∷ ps) p h = ground (arith, mem-find_row cs cells ps p)

pub map-set_cell :
    (cells : Cells) (p : ℕ) (r : Record) (ps : List ℕ)
    → mem p ps ≡ false
    → map (set_cell cells p r) ps ≡ map cells ps
unfolding mem
map-set_cell cells p r [] h = refl
map-set_cell cells p r (q ∷ ps) h = ground (arith, map-set_cell cells p r ps)

pub map-set_cell_first :
    (cs : List Where) (u : Record) (cells : Cells) (ps : List ℕ) (p : ℕ)
    → Nodup ps
    → find_row cells cs ps ≡ some p
    → map (set_cell cells p (merge u (cells p))) ps ≡ update_first cs u (map cells ps)
unfolding find_row update_first
map-set_cell_first cs u cells [] p d h = cc
map-set_cell_first cs u cells (q ∷ ps) p (e, d) h = elim (Bool-cases (matches (cells q) cs)) [
  | inl m ↦ ground (arith, map-set_cell cells p (merge u (cells p)) ps)
  | inr m ↦ ground (arith, map-set_cell_first cs u cells ps p d, mem-find_row cs cells ps p)
]

pub map-without :
    (cs : List Where) (cells : Cells) (ps : List ℕ) (p : ℕ)
    → find_row cells cs ps ≡ some p
    → mem p ps ≡ true
    → Nodup ps
    → map cells (without p ps) ≡ remove_first cs (map cells ps)
unfolding find_row remove_first without
map-without cs cells [] p h m d = cc
map-without cs cells (q ∷ ps) p h m (e, d) = elim (Bool-cases (matches (cells q) cs)) [
  | inl k ↦ ground arith
  | inr k ↦ ground (arith, map-without cs cells ps p, mem-find_row cs cells ps p)
]

pub remove_first-none :
    (cs : List Where) (rs : List Record) → first cs rs ≡ none → remove_first cs rs ≡ rs
unfolding first remove_first
remove_first-none cs [] h = refl
remove_first-none cs (r ∷ rs) h = ground (arith, remove_first-none cs rs)
