-- ===== src/Memory/Index/Laws.antt =====
-- What the index holds after a record is put in or taken out, by field and value.
use go_dev_auth.Prelude.{
  ℕ, String, ◌≡◌, refl, Bool, true, false, ◌&&◌, Option, none, some, List, [], ◌∷◌, arith, eq_iff,
  if◌then◌else◌, Option-cases, Bool-cases, inl, inr,
}
use go_dev_auth.Storage.Value.{Value, same}
use go_dev_auth.Storage.Value.Laws.{same_iff}
use go_dev_auth.Storage.Filter.{Record}
use go_dev_auth.Memory.Index.{
  Cells, Index, put, key, add_to_index, refers, remove_from_index, declares, taken, violates_fields,
}

-- Whether the record has the value under the field, which is indexed.
abbrev pub hits : List String → Record → String → Value → Bool
hits fs r g u = declares g fs && elim (key g r) [ none ↦ false | some v ↦ same v u ]

pub add_to_index_lem :
    (fs : List String) (r : Record) (p : ℕ) (index : Index) (g : String) (u : Value)
    → add_to_index fs r p index g u ≡ (if hits fs r g u then some p else index g u)
unfolding add_to_index declares
add_to_index_lem [] r p index g u = refl
add_to_index_lem (f ∷ fs) r p index g u = elim (Option-cases (key f r)) [
  | inl e ↦ ground (arith, eq_iff f g, eq_iff g f, add_to_index_lem fs r p index g u)
  | inr (v, e) ↦ ground (
    arith,
    eq_iff f g,
    eq_iff g f,
    same_iff u v,
    same_iff v u,
    add_to_index_lem fs r p (put index f v (some p)) g u,
  )
]

pub remove_from_index_lem :
    (fs : List String) (cells : Cells) (r : Record) (index : Index) (g : String) (u : Value)
    → remove_from_index fs cells r index g u
      ≡ (if hits fs r g u && refers cells r (index g u) then none else index g u)
unfolding remove_from_index declares
remove_from_index_lem [] cells r index g u = refl
remove_from_index_lem (f ∷ fs) cells r index g u = elim (Option-cases (key f r)) [
  | inl e ↦ ground (arith, eq_iff f g, eq_iff g f, remove_from_index_lem fs cells r index g u)
  | inr (v, e) ↦ elim (Bool-cases (refers cells r (index f v))) [
    | inl own ↦ ground (
      arith,
      eq_iff f g,
      eq_iff g f,
      same_iff u v,
      same_iff v u,
      remove_from_index_lem fs cells r (put index f v none) g u,
    )
    | inr other ↦
        ground (arith, eq_iff f g, same_iff v u, remove_from_index_lem fs cells r index g u)
  ]
]

-- If no unique field is violated, no entry that the record would take is another record's.
pub taken-violates_fields :
    (fs : List String) (cells : Cells) (index : Index) (r : Record) (skip : Option Record)
    (g : String) (u : Value)
    → violates_fields fs cells index r skip ≡ false
    → hits fs r g u ≡ true
    → taken cells skip (index g u) ≡ false
unfolding violates_fields declares
taken-violates_fields [] cells index r skip g u e h = cc
taken-violates_fields (f ∷ fs) cells index r skip g u e h = elim (Option-cases (key f r)) [
  | inl k ↦ ground (arith, eq_iff f g, taken-violates_fields fs cells index r skip g u)
  | inr (v, k) ↦
      ground (arith, eq_iff f g, same_iff v u, taken-violates_fields fs cells index r skip g u)
]
