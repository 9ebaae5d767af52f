-- ===== src/Storage/Swap.antt =====
-- UpdateMany on the id and the present value of a field: a compare-and-set of one record.
use go_dev_auth.Prelude.{
  ◌≡◌, refl, sym, ap, ◌∙◌, String, true, false, none, some, List, [], ◌∷◌, arith, if◌then◌else◌,
  Bool-cases, inl, inr, str_eq, length,
}
use go_dev_auth.Prelude.Assoc.{merge, lookup-insert}
use go_dev_auth.Storage.Value.{Value, text, equal}
use go_dev_auth.Storage.Filter.{Record, Where, field, w, matches, match_one}
use go_dev_auth.Storage.Filter.Laws.{matches-pair}
use go_dev_auth.Storage.Contract.{select, first, update_all, update_many}

-- The filter of a compare-and-set, and its write.
abbrev pub holds : String → String → Value → List Where
holds id f old = w "id" (text id) ∷ w f old ∷ []

abbrev pub set : String → Value → Record
set f v = (f, v) ∷ []

abbrev pub by_id : String → List Where
by_id id = w "id" (text id) ∷ []

matches-single :
    (r : Record) (f : String) (v : Value) → matches r (w f v ∷ []) ≡ equal (field r f) v
unfolding matches match_one
matches-single r f v = refl

pub field-set :
    (r : Record) (f g : String) (v : Value)
    → field (merge (set f v) r) g ≡ (if str_eq f g then v else field r g)
unfolding field merge
field-set r f g v = ground (arith, lookup-insert f g v r)

select-holds :
    (id f : String) (old : Value) (rows : List Record)
    → select (holds id f old) rows ≡ select (w f old ∷ []) (select (by_id id) rows)
unfolding select
select-holds id f old [] = refl
select-holds id f old (r ∷ rows) = ground (
  arith,
  matches-pair r "id" f (text id) old,
  matches-single r "id" (text id),
  matches-single r f old,
  select-holds id f old rows,
)

select-update_all :
    (ds cs : List Where) (u : Record) (rows : List Record)
    → ((r : Record) → matches (merge u r) ds ≡ matches r ds)
    → select ds (update_all cs u rows) ≡ update_all cs u (select ds rows)
unfolding select update_all
select-update_all ds cs u [] same = refl
select-update_all ds cs u (r ∷ rows) same =
    ground (arith, same r, select-update_all ds cs u rows same)

pub select-head :
    (cs : List Where) (rows : List Record) (r : Record) (rs : List Record)
    → select cs rows ≡ r ∷ rs
    → matches r cs ≡ true
unfolding select
select-head cs [] r rs h = absurd (cc)
select-head cs (q ∷ rows) r rs h = elim (Bool-cases (matches q cs)) [
  | inl e ↦ ground (arith, e)
  | inr e ↦ select-head cs rows r rs (ground arith)
]

module _ (id f : String) (old new : Value) (rows : List Record)
    (other : str_eq f "id" ≡ false) where
  id_kept : (q : Record) → matches (merge (set f new) q) (by_id id) ≡ matches q (by_id id)
  id_kept q =
      matches-single (merge (set f new) q) "id" (text id)
      ∙ ap (λ v. equal v (text id)) (field-set q f "id" new ∙ (rw other))
      ∙ sym (matches-single q "id" (text id))

  select-update_many :
      select (by_id id) (update_many (holds id f old) (set f new) rows).1
      ≡ update_all (holds id f old) (set f new) (select (by_id id) rows)
  unfolding update_many
  select-update_many = select-update_all (by_id id) (holds id f old) (set f new) rows id_kept

  -- Where no record has the id, nothing is written.
  pub update_many-holds_none :
      select (by_id id) rows ≡ []
      → ((update_many (holds id f old) (set f new) rows).0 ≡ 0)
        × (select (by_id id) (update_many (holds id f old) (set f new) rows).1 ≡ [])
  unfolding update_many select update_all
  update_many-holds_none gone =
      (ap length (select-holds id f old rows) ∙ rw gone refl, select-update_many ∙ rw gone refl)

  -- On the one record with an id, the write happens exactly if the field still has the old value, and
  -- the count says so.
  pub update_many-holds :
      (r : Record)
      → select (by_id id) rows ≡ r ∷ []
      → ((update_many (holds id f old) (set f new) rows).0
          ≡ (if equal (field r f) old then 1 else 0))
        × (select (by_id id) (update_many (holds id f old) (set f new) rows).1
            ≡ (if equal (field r f) old then merge (set f new) r else r) ∷ [])
  unfolding update_many select update_all
  update_many-holds r one =
      let here : matches r (by_id id) ≡ true = select-head (by_id id) rows r [] one in
      (
        ap length (select-holds id f old rows) ∙ rw one (ground (arith, matches-single r f old)),
        select-update_many
            ∙ rw one (
                ground (
                  arith,
                  matches-pair r "id" f (text id) old,
                  matches-single r "id" (text id),
                  here,
                )),
      )

-- The first record is the head of those selected.
pub first-select :
    (cs : List Where) (rows : List Record) (r : Record) (rs : List Record)
    → select cs rows ≡ r ∷ rs
    → first cs rows ≡ some r
unfolding select first
first-select cs [] r rs h = absurd (cc)
first-select cs (q ∷ rows) r rs h = ground (arith, first-select cs rows r rs)

pub first-select-none :
    (cs : List Where) (rows : List Record) → select cs rows ≡ [] → first cs rows ≡ none
unfolding select first
first-select-none cs [] h = refl
first-select-none cs (q ∷ rows) h = ground (arith, first-select-none cs rows)
