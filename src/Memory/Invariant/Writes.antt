-- ===== src/Memory/Invariant/Writes.antt =====
-- Each write keeps the invariant.
use go_dev_auth.Prelude.{
  ℕ, String, ◌≡◌, refl, true, false, not, ◌&&◌, ◌||◌, Option, none, some, List, [], ◌∷◌, ◌++◌,
  arith, if◌then◌else◌, Bool-cases, inl, inr, mem, mem-append, ◌==◌,
}
use go_dev_auth.Prelude.Assoc.{merge}
use go_dev_auth.Storage.Value.{Value}
use go_dev_auth.Storage.Filter.{Record}
use go_dev_auth.Storage.Schema.{Table}
use go_dev_auth.Memory.Index.{
  Index, Coll, key, refers, remove_from_index, declares, taken, violates_fields, unique_of, empty,
}
use go_dev_auth.Memory.Index.Laws.{
  hits, add_to_index_lem, remove_from_index_lem, taken-violates_fields,
}
use go_dev_auth.Memory.Operations.{insert_row, write_row, delete_row, without}
use go_dev_auth.Memory.Invariant.{
  IsValid, Nodup, key_of_hits, hits_of_key, eq_of_same_record, same_record_self,
}

pub empty-IsValid : (fs : List String) → IsValid fs empty
unfolding mem
empty-IsValid fs = record {
  bound = λ p h. cc;
  nodup = tt;
  has_id = λ p h. absurd (cc);
  sound = λ g u p d h. absurd (cc);
  complete = λ g u p d h k. cc;
}

Nodup-concat : (ps : List ℕ) (q : ℕ) → Nodup ps → mem q ps ≡ false → Nodup (ps ++ q ∷ [])
unfolding mem
Nodup-concat [] q h k = (refl, tt)
Nodup-concat (p ∷ ps) q (h, hs) k =
    (ground (arith, mem-append p ps (q ∷ [])), Nodup-concat ps q hs (ground arith))

pub mem-concat : (p : ℕ) (ps : List ℕ) (q : ℕ) → mem p (ps ++ q ∷ []) ≡ (mem p ps || p == q)
unfolding mem
mem-concat p ps q = ground (arith, mem-append p ps (q ∷ []))

-- A row that is not yet there.
pub mem_bound : (fs : List String) (c : Coll) → IsValid fs c → mem c.next c.rows ≡ false
mem_bound fs c valid = elim (Bool-cases (mem c.next c.rows)) [
  | inl e ↦ absurd (omega (arith, valid.bound c.next e))
  | inr e ↦ e
]

module _ (t : Option Table) (r : Record) (c : Coll) (valid : IsValid (unique_of t) c) where
  insert_sound :
      (g : String) (u : Value) (p : ℕ)
      → declares g (unique_of t) ≡ true
      → (insert_row t r c).index g u ≡ some p
      → (mem p (insert_row t r c).rows ≡ true) × (key g ((insert_row t r c).cells p) ≡ some u)
  unfolding insert_row
  insert_sound g u p d h = elim (Bool-cases (hits (unique_of t) r g u)) [
    | inl e ↦ ground (
      arith,
      add_to_index_lem (unique_of t) r c.next c.index g u,
      key_of_hits (unique_of t) r g u e,
      mem-concat p c.rows c.next,
    )
    | inr e ↦ ground (
      arith,
      add_to_index_lem (unique_of t) r c.next c.index g u,
      valid.sound g u p d,
      mem-concat p c.rows c.next,
      mem_bound (unique_of t) c valid,
    )
  ]

  insert_complete :
      violates_fields (unique_of t) c.cells c.index r none ≡ false
      → (g : String) (u : Value) (p : ℕ) → declares g (unique_of t) ≡ true
      → mem p (insert_row t r c).rows ≡ true
      → key g ((insert_row t r c).cells p) ≡ some u
      → (insert_row t r c).index g u ≡ some p
  unfolding insert_row taken
  insert_complete free g u p d m k = elim (Bool-cases (hits (unique_of t) r g u)) [
    | inl e ↦ ground (
      arith,
      add_to_index_lem (unique_of t) r c.next c.index g u,
      taken-violates_fields (unique_of t) c.cells c.index r none g u free e,
      valid.complete g u p d,
      mem-concat p c.rows c.next,
    )
    | inr e ↦ ground (
      arith,
      add_to_index_lem (unique_of t) r c.next c.index g u,
      hits_of_key (unique_of t) r g u d,
      valid.complete g u p d,
      mem-concat p c.rows c.next,
    )
  ]

  pub insert_row-IsValid :
      (v : Value)
      → key "id" r ≡ some v
      → violates_fields (unique_of t) c.cells c.index r none ≡ false
      → IsValid (unique_of t) (insert_row t r c)
  unfolding insert_row
  insert_row-IsValid v id free = record {
    bound = λ p h. ground (arith, mem-concat p c.rows c.next, valid.bound p);
    nodup = Nodup-concat c.rows c.next valid.nodup (mem_bound (unique_of t) c valid);
    has_id = λ p h. elim (Bool-cases (p == c.next)) [
      | inl e ↦ (v, rw e id)
      | inr e ↦ rw e (valid.has_id p (ground (arith, mem-concat p c.rows c.next)))
    ];
    sound = insert_sound;
    complete = insert_complete free;
  }

module _ (t : Option Table) (p : ℕ) (c : Coll) (valid : IsValid (unique_of t) c)
    (id : declares "id" (unique_of t) ≡ true) (row : mem p c.rows ≡ true) where
  declares_of_hits :
      (fs : List String) (r : Record) (g : String) (u : Value)
      → hits fs r g u ≡ true
      → declares g fs ≡ true
  declares_of_hits fs r g u h = ground arith

  -- The entries of a row are its own, so all of them are taken out.
  removed :
      (g : String) (u : Value)
      → remove_from_index (unique_of t) c.cells (c.cells p) c.index g u
        ≡ (if hits (unique_of t) (c.cells p) g u then none else c.index g u)
  unfolding refers
  removed g u = elim (Bool-cases (hits (unique_of t) (c.cells p) g u)) [
    | inl e ↦ ground (
      arith,
      remove_from_index_lem (unique_of t) c.cells (c.cells p) c.index g u,
      declares_of_hits (unique_of t) (c.cells p) g u e,
      valid.complete g u p,
      key_of_hits (unique_of t) (c.cells p) g u e,
      same_record_self (unique_of t) c valid id p row,
    )
    | inr e ↦ ground (arith, remove_from_index_lem (unique_of t) c.cells (c.cells p) c.index g u)
  ]

  module _ (update : Record)
      (free : violates_fields
          (unique_of t)
          c.cells
          c.index
          (merge update (c.cells p))
          (some (c.cells p))
        ≡ false) where
    abbrev fs : List String
    fs = unique_of t

    abbrev new : Record
    new = merge update (c.cells p)

    abbrev without_old : Index
    without_old = remove_from_index fs c.cells (c.cells p) c.index

    write_sound :
        (g : String) (u : Value) (q : ℕ)
        → declares g fs ≡ true
        → (write_row t update p c).index g u ≡ some q
        → (mem q c.rows ≡ true) × (key g ((write_row t update p c).cells q) ≡ some u)
    unfolding write_row
    write_sound g u q d h = elim (Bool-cases (hits fs new g u)) [
      | inl e ↦
          ground (arith, add_to_index_lem fs new p without_old g u, key_of_hits fs new g u e, row)
      | inr e ↦ ground (
        arith,
        add_to_index_lem fs new p without_old g u,
        removed g u,
        valid.sound g u q d,
        hits_of_key fs (c.cells p) g u d,
      )
    ]

    -- Another row's entry is neither one of the old record nor one of the new.
    module _ (g : String) (u : Value) (q : ℕ) (d : declares g fs ≡ true) (m : mem q c.rows ≡ true)
        (other : (q == p) ≡ false) (entry : c.index g u ≡ some q) where
      not_old : hits fs (c.cells p) g u ≡ false
      not_old = elim (Bool-cases (hits fs (c.cells p) g u)) [
        | inl e ↦ ground (arith, valid.complete g u p d row (key_of_hits fs (c.cells p) g u e))
        | inr e ↦ e
      ]

      not_new : hits fs new g u ≡ false
      unfolding taken
      not_new = elim (Bool-cases (hits fs new g u)) [
        | inl e ↦ ground (
          arith,
          taken-violates_fields fs c.cells c.index new (some (c.cells p)) g u free e,
          eq_of_same_record fs c valid id q p m row,
        )
        | inr e ↦ e
      ]

    write_complete :
        (g : String) (u : Value) (q : ℕ)
        → declares g fs ≡ true
        → mem q c.rows ≡ true
        → key g ((write_row t update p c).cells q) ≡ some u
        → (write_row t update p c).index g u ≡ some q
    unfolding write_row
    write_complete g u q d m k = elim (Bool-cases (q == p)) [
      | inl e ↦ ground (arith, add_to_index_lem fs new p without_old g u, hits_of_key fs new g u d)
      | inr e ↦
          let entry = valid.complete g u q d m (rw e at k) in
          rw
            (
              add_to_index_lem fs new p without_old g u,
              not_new g u q d m e entry,
              removed g u,
              not_old g u q d m e entry,
            )
            entry
    ]

    pub write_row-IsValid :
        (v : Value) → key "id" new ≡ some v → IsValid (unique_of t) (write_row t update p c)
    unfolding write_row
    write_row-IsValid v k = record {
      bound = valid.bound;
      nodup = valid.nodup;
      has_id = λ q h. elim (Bool-cases (q == p)) [
        | inl e ↦ (v, rw e k)
        | inr e ↦ rw e (valid.has_id q h)
      ];
      sound = write_sound;
      complete = write_complete;
    }

pub mem-without :
    (q p : ℕ) (ps : List ℕ) → Nodup ps → mem q (without p ps) ≡ (mem q ps && not (q == p))
unfolding mem without
mem-without q p [] h = refl
mem-without q p (x ∷ xs) (h, hs) = ground (arith, mem-without q p xs hs)

pub Nodup-without : (p : ℕ) (ps : List ℕ) → Nodup ps → Nodup (without p ps)
unfolding without
Nodup-without p [] h = tt
Nodup-without p (x ∷ xs) (h, hs) = ground (arith, mem-without x p xs hs, Nodup-without p xs hs)

module _ (t : Option Table) (p : ℕ) (c : Coll) (valid : IsValid (unique_of t) c)
    (id : declares "id" (unique_of t) ≡ true) (row : mem p c.rows ≡ true) where
  pub delete_row-IsValid : IsValid (unique_of t) (delete_row t p c)
  unfolding delete_row
  delete_row-IsValid = record {
    bound = λ q h. valid.bound q (ground (arith, mem-without q p c.rows valid.nodup));
    nodup = Nodup-without p c.rows valid.nodup;
    has_id = λ q h. valid.has_id q (ground (arith, mem-without q p c.rows valid.nodup));
    sound = λ g u q d h. ground (
      arith,
      removed t p c valid id row g u,
      valid.sound g u q d,
      hits_of_key (unique_of t) (c.cells p) g u d,
      mem-without q p c.rows valid.nodup,
    );
    complete = λ g u q d m k. ground (
      arith,
      removed t p c valid id row g u,
      valid.complete g u q d,
      valid.complete g u p d row,
      key_of_hits (unique_of t) (c.cells p) g u,
      mem-without q p c.rows valid.nodup,
    );
  }
