-- ===== src/Memory/Conflicts.antt =====
-- The uniqueness check by index, against a comparison with every row.
use go_dev_auth.Prelude.{
  ℕ, String, ◌≡◌, refl, Bool, true, false, not, ◌&&◌, ◌||◌, Option, none, some, List, [], ◌∷◌,
  arith, eq_iff, Option-cases, Bool-cases, inl, inr, mem, ==_iff, sym, map, ◌∙◌,
}
use go_dev_auth.Storage.Value.{Value, same}
use go_dev_auth.Storage.Value.Laws.{same_iff}
use go_dev_auth.Storage.Filter.{Record}
use go_dev_auth.Storage.Schema.{Table}
use go_dev_auth.Memory.Index.{
  Cells, Index, Coll, key, declares, unique_of, violates_fields, taken, skipped,
}
use go_dev_auth.Memory.Invariant.{IsValid}
use go_dev_auth.Memory.View.{view}
use go_dev_auth.Memory.Index.Laws.{taken-violates_fields}
use go_dev_auth.Memory.Invariant.{hits_of_key}

-- Whether a record shares the value of a unique field with another.
abbrev pub shares : List String → Record → Record → Bool
shares [] r s = false
shares (f ∷ fs) r s =
    elim (key f r) [ none ↦ false | some v ↦ elim (key f s) [ none ↦ false | some u ↦ same v u ] ]
    || shares fs r s

-- Whether it does so with any record but the skipped one.
abbrev pub conflicts : List String → Record → Option Record → List Record → Bool
conflicts fs r skip [] = false
conflicts fs r skip (s ∷ rs) = not (skipped skip s) && shares fs r s || conflicts fs r skip rs

taken-some :
    (cells : Cells) (skip : Option Record) (q : ℕ)
    → taken cells skip (some q) ≡ not (skipped skip (cells q))
unfolding taken skipped
taken-some cells none q = refl
taken-some cells (some s) q = refl

shares_of :
    (fs : List String) (r s : Record) (f : String) (v : Value)
    → declares f fs ≡ true
    → key f r ≡ some v
    → key f s ≡ some v
    → shares fs r s ≡ true
unfolding declares
shares_of [] r s f v d h k = cc
shares_of (g ∷ fs) r s f v d h k = ground (arith, eq_iff g f, same_iff v v, shares_of fs r s f v)

conflicts_of :
    (fs : List String) (r : Record) (skip : Option Record) (cells : Cells) (ps : List ℕ) (p : ℕ)
    → mem p ps ≡ true
    → skipped skip (cells p) ≡ false
    → shares fs r (cells p) ≡ true
    → conflicts fs r skip (map cells ps) ≡ true
unfolding mem
conflicts_of fs r skip cells [] p m k h = cc
conflicts_of fs r skip cells (q ∷ ps) p m k h =
    ground (arith, ==_iff p q, conflicts_of fs r skip cells ps p)

-- The entry that a violation found.
entry_of :
    (fs : List String) (cells : Cells) (index : Index) (r : Record) (skip : Option Record)
    → violates_fields fs cells index r skip ≡ true
    → (f : String) × (v : Value) × (p : ℕ) × (declares f fs ≡ true)
      × (key f r ≡ some v)
      × (index f v ≡ some p)
      × (skipped skip (cells p) ≡ false)
unfolding violates_fields declares
entry_of [] cells index r skip h = absurd (cc)
entry_of (f ∷ fs) cells index r skip h = elim (Bool-cases (violates_fields fs cells index r skip)) [
  | inl later ↦
      let (g, v, p, d, k, e, o) = entry_of fs cells index r skip later in
      (g, v, p, ground arith, k, e, o)
  | inr none_later ↦ elim (Option-cases (key f r)) [
    | inl absent ↦ absurd (ground arith)
    | inr (v, k) ↦ elim (Option-cases (index f v)) [
      | inl free ↦ absurd (unfold taken in ground arith)
      | inr (p, e) ↦
          (f, v, p, ground (arith, eq_iff f f), k, e, ground (arith, taken-some cells skip p))
    ]
  ]
]

module _ (t : Option Table) (c : Coll) (valid : IsValid (unique_of t) c) (r : Record)
    (skip : Option Record) where
  module _ (free : violates_fields (unique_of t) c.cells c.index r skip ≡ false) where
    -- An entry that the record would take is the skipped record's.
    no_entry :
        (g : String) (u : Value) (p : ℕ)
        → declares g (unique_of t) ≡ true
        → key g r ≡ some u
        → c.index g u ≡ some p
        → skipped skip (c.cells p) ≡ true
    no_entry g u p d k e =
        let open_entry =
          taken-violates_fields (unique_of t) c.cells c.index r skip g u free
            (hits_of_key (unique_of t) r g u d k) in
        ground (arith, open_entry, taken-some c.cells skip p)

    not_shares :
        (fs : List String) (p : ℕ)
        → ((g : String) → declares g fs ≡ true → declares g (unique_of t) ≡ true)
        → mem p c.rows ≡ true
        → skipped skip (c.cells p) ≡ false
        → shares fs r (c.cells p) ≡ false
    unfolding declares
    not_shares [] p sub m o = refl
    not_shares (f ∷ fs) p sub m o = elim (Option-cases (key f r)) [
      | inl k ↦ ground (arith, not_shares fs p (λ g d. sub g (ground arith)) m o)
      | inr (v, k) ↦ elim (Option-cases (key f (c.cells p))) [
        | inl l ↦ ground (arith, not_shares fs p (λ g d. sub g (ground arith)) m o)
        | inr (u, l) ↦
            let d = sub f (ground (arith, eq_iff f f)) in
            ground (
              arith,
              same_iff v u,
              no_entry f u p d,
              valid.complete f u p d m l,
              not_shares fs p (λ g d'. sub g (ground arith)) m o,
            )
      ]
    ]

    not_conflicts :
        (ps : List ℕ)
        → ((p : ℕ) → mem p ps ≡ true → mem p c.rows ≡ true)
        → conflicts (unique_of t) r skip (map c.cells ps) ≡ false
    unfolding mem
    not_conflicts [] sub = refl
    not_conflicts (p ∷ ps) sub = ground (
      arith,
      not_shares (unique_of t) p (λ g d. d) (sub p (ground arith)),
      not_conflicts ps (λ q m. sub q (ground arith)),
    )

  -- The index finds a violation exactly if some row has the value of a unique field.
  pub violates-conflicts :
      violates_fields (unique_of t) c.cells c.index r skip ≡ conflicts (unique_of t) r skip (view c)
  violates-conflicts = elim (Bool-cases (violates_fields (unique_of t) c.cells c.index r skip)) [
    | inl e ↦
        let (f, v, p, d, k, i, o) = entry_of (unique_of t) c.cells c.index r skip e in
        let (m, l) = valid.sound f v p d i in
        e
        ∙ sym (
            conflicts_of (unique_of t) r skip c.cells c.rows p m o
              (shares_of (unique_of t) r (c.cells p) f v d k l))
    | inr e ↦ e ∙ sym (not_conflicts e c.rows (λ p m. m))
  ]
