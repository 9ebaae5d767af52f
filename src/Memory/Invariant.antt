-- ===== src/Memory/Invariant.antt =====
-- The invariant of the records of one model: the index holds exactly the rows, by unique field.
pub mod Writes
use go_dev_auth.Prelude.{
  ℕ, suc, ◌+◌, ◌<◌, String, ◌≡◌, refl, ◌≢◌, Bool, true, false, not, ◌&&◌, ◌||◌, Option, none, some,
  List, [], ◌∷◌, ◌++◌, arith, eq_iff, str_eq, if◌then◌else◌, Option-cases, Bool-cases, inl, inr,
  mem, mem-append, ◌==◌, sym, subst,
}
use go_dev_auth.Prelude.Assoc.{lookup}
use go_dev_auth.Storage.Value.{Value, same, indexable}
use go_dev_auth.Storage.Value.Laws.{same_iff}
use go_dev_auth.Storage.Filter.{Record}
use go_dev_auth.Memory.Index.{
  Cells, Index, Coll, set_cell, key, add_to_index, refers, remove_from_index, declares, taken,
  violates_fields, same_record,
}
use go_dev_auth.Memory.Index.Laws.{hits}

abbrev pub Nodup : List ℕ → Type 0
Nodup [] = Unit
Nodup (p ∷ ps) = (mem p ps ≡ false) × Nodup ps

-- The rows are distinct objects with an id, and an index entry of a unique field is there exactly
-- if the row is; so no two rows share the value of a unique field.
pub record IsValid (fs : List String) (c : Coll) : Type 0 where
  pub bound : (p : ℕ) → mem p c.rows ≡ true → p < c.next
  pub nodup : Nodup c.rows
  pub has_id : (p : ℕ) → mem p c.rows ≡ true → (v : Value) × (key "id" (c.cells p) ≡ some v)
  pub sound :
      (g : String) (u : Value) (p : ℕ)
      → declares g fs ≡ true
      → c.index g u ≡ some p
      → (mem p c.rows ≡ true) × (key g (c.cells p) ≡ some u)
  pub complete :
      (g : String) (u : Value) (p : ℕ)
      → declares g fs ≡ true
      → mem p c.rows ≡ true
      → key g (c.cells p) ≡ some u
      → c.index g u ≡ some p

pub lookup_of_key : (f : String) (r : Record) (v : Value) → key f r ≡ some v → lookup f r ≡ some v
unfolding key
lookup_of_key f r v h = elim (Option-cases (lookup f r)) [
  | inl e ↦ ground arith
  | inr (u, e) ↦ ground arith
]

pub key_of_hits :
    (fs : List String) (r : Record) (g : String) (u : Value)
    → hits fs r g u ≡ true
    → key g r ≡ some u
key_of_hits fs r g u h = elim (Option-cases (key g r)) [
  | inl e ↦ ground arith
  | inr (v, e) ↦ ground (arith, same_iff v u)
]

pub hits_of_key :
    (fs : List String) (r : Record) (g : String) (u : Value)
    → declares g fs ≡ true
    → key g r ≡ some u
    → hits fs r g u ≡ true
hits_of_key fs r g u d e = rw (d, e) ((same_iff u u).1 refl)

-- `sameRecord` tells objects apart by their id.
pub same_record-eq :
    (a b : Record) (v w : Value)
    → key "id" a ≡ some v
    → key "id" b ≡ some w
    → same_record a b ≡ same v w
unfolding same_record
same_record-eq a b v w h k = rw (lookup_of_key "id" a v h, lookup_of_key "id" b w k, same_record)

module _ (fs : List String) (c : Coll) (valid : IsValid fs c) (id : declares "id" fs ≡ true) where
  pub eq_of_same_record :
      (p q : ℕ)
      → mem p c.rows ≡ true
      → mem q c.rows ≡ true
      → same_record (c.cells p) (c.cells q) ≡ true
      → p ≡ q
  eq_of_same_record p q hp hq s =
      let (v, kv) = valid.has_id p hp in
      let (w, kw) = valid.has_id q hq in
      let e : v ≡ w =
        (same_iff v w).0 (rw (← same_record-eq (c.cells p) (c.cells q) v w kv kw) s) in
      ground (arith, e, kv, kw, valid.complete "id" v p id hp kv, valid.complete "id" w q id hq kw)

  pub same_record_self : (p : ℕ) → mem p c.rows ≡ true → same_record (c.cells p) (c.cells p) ≡ true
  same_record_self p hp =
      let (v, kv) = valid.has_id p hp in
      rw (same_record-eq (c.cells p) (c.cells p) v v kv kv) ((same_iff v v).1 refl)
