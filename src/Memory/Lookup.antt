-- ===== src/Memory/Lookup.antt =====
-- A lookup by index answers like a scan of the table.
use go_dev_auth.Prelude.{
  ℕ, String, ◌≡◌, true, false, Option, none, some, List, [], ◌∷◌, arith, Option-cases, Bool-cases,
  inl, inr, mem, sym, ◌∙◌,
}
use go_dev_auth.Prelude.Assoc.{lookup}
use go_dev_auth.Storage.Value.{text, indexable}
use go_dev_auth.Storage.Filter.{Record, Where, w, matches}
use go_dev_auth.Storage.Filter.Laws.{matches-w_text}
use go_dev_auth.Storage.Schema.{Table}
use go_dev_auth.Memory.Index.{Cells, Coll, key, declares, unique_of, lookup_unique}
use go_dev_auth.Memory.Operations.{find_one, find_row}
use go_dev_auth.Memory.Invariant.{IsValid, lookup_of_key}
use go_dev_auth.Memory.View.{view, mem-find_row}
use go_dev_auth.Memory.Refines.{find_one_spec, found-find_row}

key-text : (f s : String) (r : Record) → lookup f r ≡ some (text s) → key f r ≡ some (text s)
unfolding key indexable
key-text f s r h = ground arith

find_row-none :
    (cs : List Where) (cells : Cells) (ps : List ℕ) (p : ℕ)
    → find_row cells cs ps ≡ none
    → mem p ps ≡ true
    → matches (cells p) cs ≡ false
unfolding find_row mem
find_row-none cs cells [] p h m = cc
find_row-none cs cells (q ∷ ps) p h m = ground (arith, find_row-none cs cells ps p)

find_row-matches :
    (cs : List Where) (cells : Cells) (ps : List ℕ) (p : ℕ)
    → find_row cells cs ps ≡ some p
    → matches (cells p) cs ≡ true
unfolding find_row
find_row-matches cs cells [] p h = cc
find_row-matches cs cells (q ∷ ps) p h = ground (arith, find_row-matches cs cells ps p)

module _ (fs : List String) (c : Coll) (valid : IsValid fs c) (f s : String)
    (unique : declares f fs ≡ true) where
  -- The entry for a text is the row that a scan finds.
  entry-find_row : c.index f (text s) ≡ find_row c.cells (w f (text s) ∷ []) c.rows
  entry-find_row = elim (Option-cases (find_row c.cells (w f (text s) ∷ []) c.rows)) [
    | inr (p, e) ↦
        let m = mem-find_row _ c.cells c.rows p e in
        let hit = (matches-w_text (c.cells p) f s).0 (find_row-matches _ c.cells c.rows p e) in
        valid.complete f (text s) p unique m (key-text f s (c.cells p) hit) ∙ sym e
    | inl e ↦ elim (Option-cases (c.index f (text s))) [
      | inl i ↦ i ∙ sym e
      | inr (p, i) ↦
          let (m, k) = valid.sound f (text s) p unique i in
          let hit = (matches-w_text (c.cells p) f s).1 (lookup_of_key f (c.cells p) (text s) k) in
          absurd (ground (arith, hit, find_row-none _ c.cells c.rows p e m))
    ]
  ]

-- On a model with an exact index, FindOne by a text returns the first record that holds it, though it does not look at the rows
-- where the field is unique.
pub find_one-refines :
    (t : Option Table) (f s : String) (c : Coll)
    → IsValid (unique_of t) c
    → find_one t (w f (text s) ∷ []) c ≡ find_one_spec t (w f (text s) ∷ []) (view c)
unfolding find_one find_one_spec lookup_unique indexable
find_one-refines t f s c valid = elim (Bool-cases (declares f (unique_of t))) [
  | inl u ↦ rw (u, entry-find_row (unique_of t) c valid f s u, found-find_row)
  | inr u ↦ rw (u, found-find_row)
]
