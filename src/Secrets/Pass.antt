-- ===== src/Secrets/Pass.antt =====
-- secrets.go: what the loops of a pass leave of the ids, and where they move the cursor.
use Prim.Native.String.{◌++◌ as str_append}
use go_dev_auth.Prelude.{
  ◌≡◌, ◌⊎◌, refl, ap, subst, ◌∙◌, String, Bool, true, false, List, [], ◌∷◌, ◌++◌, map, arith,
  str_eq, eq_iff, if◌then◌else◌, Bool-cases, inl, inr, All,
}
use go_dev_auth.Prelude.Result.{ok, err}
use go_dev_auth.Storage.Error.{AdapterError}
use go_dev_auth.Storage.Value.{text, str}
use go_dev_auth.Storage.Filter.{Record, Where, field}
use go_dev_auth.Storage.Contract.{update_all, update_many}
use go_dev_auth.Storage.Swap.{holds, set, field-set}
use go_dev_auth.Token.{Table}
use go_dev_auth.Keyring.{member}
use go_dev_auth.Secrets.Cases.{reencrypt_field-cases}
use go_dev_auth.Secrets.{
  Vault, Database, Fate, Progress, add, no_tally, no_id, prefix_of, reencrypt_field, write_back,
  reencrypt_record, reencrypt_batch, text_lt, behind, batch_options,
}
use go_dev_auth.Secrets.Swap.{IsUpdating}
use go_dev_auth.Secrets.Order.{text_lt_trans}

-- The id of a record, and those of a table.
abbrev pub id_of : Record → String
id_of r = str (field r "id")

abbrev pub ids : Table → List String
ids rows = map id_of rows

-- What the interface promises of FindMany, for the end of the pass: the records that it lists are records of
-- the table.
abbrev pub IsListing : Database → Type 0
IsListing db =
    (last : String) (rows : Table)
    → ((page : List Record) × (db.find_many (behind last) batch_options rows ≡ ok page)
        × All (λ r. member (id_of r) (ids rows) ≡ true) page)
      ⊎ ((e : AdapterError) × (db.find_many (behind last) batch_options rows ≡ err e))

ids-update_all :
    (cs : List Where) (f new : String) (rows : Table)
    → str_eq f "id" ≡ false
    → ids (update_all cs (set f (text new)) rows) ≡ ids rows
unfolding update_all
ids-update_all cs f new [] other = refl
ids-update_all cs f new (r ∷ rows) other =
    ground (arith, ids-update_all cs f new rows other, ap str (field-set r f "id" (text new)))

module _ (v : Vault) (db : Database) (model : String) (marked : Bool)
    (updating : IsUpdating db) where
  ids-update :
      (cs : List Where) (f new : String) (rows : Table)
      → str_eq f "id" ≡ false
      → ids (db.update_many cs (set f (text new)) rows).1 ≡ ids rows
  unfolding update_many
  ids-update cs f new rows other = elim (updating cs (set f (text new)) rows) [
    | inl (n, e, c) ↦ ap (λ out. ids out.1) e ∙ ids-update_all cs f new rows other
    | inr (x, e) ↦ ap (λ out. ids out.1) e
  ]

  -- No call of the pass changes an id.
  ids-reencrypt_field :
      (id f : String) (rec : Record) (rows : Table)
      → str_eq f "id" ≡ false
      → ids (reencrypt_field v db model marked id f rec rows).1 ≡ ids rows
  unfolding write_back
  ids-reencrypt_field id f rec rows other =
      elim (reencrypt_field-cases v db model marked id f rec rows) [
        | inl (fate, e, _, _) ↦ ap {A = Fate × Table} (λ out. ids out.1) e
        | inr (body, plaintext, new, _, _, _, e) ↦
            ap {A = Fate × Table} (λ out. ids out.1) e
            ∙ ids-update (holds id f (text (str (field rec f)))) f
                (str_append (prefix_of marked) new) rows other
      ]

  ids-reencrypt_record :
      (fs : List String) (id : String) (rec : Record) (st : Progress)
      → All (λ f. str_eq f "id" ≡ false) fs
      → ids (reencrypt_record v db model marked fs id rec st).rows ≡ ids st.rows
  unfolding reencrypt_record
  ids-reencrypt_record [] id rec st others = refl
  ids-reencrypt_record (f ∷ fs) id rec st (other, others) =
      ids-reencrypt_record fs id rec _ others ∙ ids-reencrypt_field id f rec st.rows other

  step : List String → Record → Progress → Progress
  step fs r st =
      if str_eq (id_of r) ""
      then (record {
        tally = add st.tally (record no_tally { failed = 1 });
        errors = st.errors ++ no_id ∷ [];
        rows = st.rows;
      })
      else reencrypt_record v db model marked fs (id_of r) r st

  ids-step :
      (fs : List String) (r : Record) (st : Progress)
      → All (λ f. str_eq f "id" ≡ false) fs
      → ids (step fs r st).rows ≡ ids st.rows
  unfolding step
  ids-step fs r st others = elim (Bool-cases (str_eq (id_of r) "")) [
    | inl e ↦ rw e refl
    | inr e ↦ rw e (ids-reencrypt_record fs (id_of r) r st others)
  ]

  pub ids-reencrypt_batch :
      (fs : List String) (records : List Record) (last : String) (st : Progress)
      → All (λ f. str_eq f "id" ≡ false) fs
      → ids (reencrypt_batch v db model marked fs records last st).1.rows ≡ ids st.rows
  unfolding reencrypt_batch step
  ids-reencrypt_batch fs [] last st others = refl
  ids-reencrypt_batch fs (r ∷ records) last st others =
      ids-reencrypt_batch fs records _ (step fs r st) others ∙ ids-step fs r st others

  -- The cursor stays where it is, or moves up to an id of the batch.
  abbrev pub IsMoved : String → String → List String → Type 0
  IsMoved last next is = (next ≡ last) ⊎ ((text_lt last next ≡ true) × (member next is ≡ true))

  moved :
      (last next i : String) (is : List String)
      → IsMoved (if text_lt last i then i else last) next is
      → IsMoved last next (i ∷ is)
  unfolding member
  moved last next i is h = elim (Bool-cases (text_lt last i)) [
    | inr e ↦ elim (rw e at h) [ inl s ↦ inl s | inr (l, m) ↦ inr (l, ground (arith)) ]
    | inl e ↦ elim (rw e at h) [
      | inl s ↦ inr (rw s e, ground (arith, eq_iff i next))
      | inr (l, m) ↦ inr (text_lt_trans last i next e l, ground (arith))
    ]
  ]

  pub reencrypt_batch-IsMoved :
      (fs : List String) (records : List Record) (last : String) (st : Progress)
      → IsMoved last (reencrypt_batch v db model marked fs records last st).0 (ids records)
  unfolding reencrypt_batch step
  reencrypt_batch-IsMoved fs [] last st = inl refl
  reencrypt_batch-IsMoved fs (r ∷ records) last st =
      moved last _ (id_of r) (ids records) (reencrypt_batch-IsMoved fs records _ (step fs r st))

pub member_of_All :
    (records : List Record) (i : String) (is : List String)
    → All (λ r. member (id_of r) is ≡ true) records
    → member i (ids records) ≡ true
    → member i is ≡ true
unfolding member
member_of_All [] i is listed m = cc
member_of_All (r ∷ records) i is (here, listed) m = elim (Bool-cases (str_eq (id_of r) i)) [
  | inl e ↦ subst (λ j. member j is ≡ true) ((eq_iff (id_of r) i).0 e) here
  | inr e ↦ member_of_All records i is listed (ground arith)
]
