-- ===== src/Secrets/Done.antt =====
-- secrets.go: what is known of a table when a pass over it is done.
use go_dev_auth.Prelude.{
  ℕ, zero, suc, ◌≤◌, ◌≡◌, ◌⊎◌, refl, ap, sym, subst, ◌∙◌, String, Bool, true, false, ◌||◌, some,
  List, [], ◌∷◌, arith, str_eq, eq_iff, Bool-cases, inl, inr, length, All,
}
use go_dev_auth.Prelude.Result.{Result, ok, err}
use go_dev_auth.Prelude.Text.{codes_lt}
use go_dev_auth.Storage.Error.{AdapterError, not_found, unique_violation, unknown_field}
use go_dev_auth.Storage.Value.{str}
use go_dev_auth.Storage.Filter.{Record, field}
use go_dev_auth.Token.{Table}
use go_dev_auth.Keyring.{needs_reencryption, member}
use go_dev_auth.Secrets.{
  Vault, Database, Fate, Tally, Progress, no_tally, add, tally_of, is_done, body_of, fate_of,
  write_back, reencrypt_field, reencrypt_record, reencrypt_batch, text_lt, behind, batch_options,
  batch_size,
}
use go_dev_auth.Secrets.Cases.{reencrypt_field-cases}
use go_dev_auth.Secrets.Pass.{id_of, ids}

add-is_done : (a b : Tally) → is_done (add a b) ≡ true → (is_done a ≡ true) × (is_done b ≡ true)
unfolding is_done
add-is_done a b h = (ground arith, ground arith)

fate_of-is_done : (n : Result AdapterError ℕ) → is_done (tally_of (fate_of n)) ≡ false
unfolding is_done fate_of
fate_of-is_done (err not_found) = refl
fate_of-is_done (err unique_violation) = refl
fate_of-is_done (err unknown_field) = refl
fate_of-is_done (err AdapterError.failed) = refl
fate_of-is_done (ok zero) = refl
fate_of-is_done (ok (suc n)) = refl

failed-is_done : is_done (record no_tally { failed = 1 }) ≡ false
unfolding is_done
failed-is_done = refl

-- An encrypted value of the field needs no other encryption.
abbrev pub IsUpToDate : Vault → Bool → Record → String → Type 0
IsUpToDate v marked r f =
    (body : String)
    → body_of marked (str (field r f)) ≡ some body
    → needs_reencryption v.primitives v.keyring body ≡ false

module _ (v : Vault) (db : Database) (model : String) (marked : Bool) where
  field-done :
      (id f : String) (rec : Record) (rows : Table)
      → is_done (tally_of (reencrypt_field v db model marked id f rec rows).0) ≡ true
      → ((reencrypt_field v db model marked id f rec rows).1 ≡ rows) × IsUpToDate v marked rec f
  unfolding write_back
  field-done id f rec rows h = elim (reencrypt_field-cases v db model marked id f rec rows) [
    | inl (fate, e, ne, good) ↦ (
      ap {A = Fate × Table} (λ out. out.1) e,
      λ body b. good body b (sym (ap {A = Fate × Table} (λ out. is_done (tally_of out.0)) e) ∙ h),
    )
    | inr (body, plaintext, new, _, _, _, e) ↦
        let contrary : true ≡ false =
          sym h ∙ ap {A = Fate × Table} (λ out. is_done (tally_of out.0)) e ∙ fate_of-is_done _ in
        absurd (cc contrary)
  ]

  record-done :
      (fs : List String) (id : String) (rec : Record) (st : Progress)
      → is_done (reencrypt_record v db model marked fs id rec st).tally ≡ true
      → ((reencrypt_record v db model marked fs id rec st).rows ≡ st.rows)
        × (is_done st.tally ≡ true)
        × All (IsUpToDate v marked rec) fs
  unfolding reencrypt_record
  record-done [] id rec st h = (refl, h, tt)
  record-done (f ∷ fs) id rec st h =
      let (left, done, rest) = record-done fs id rec _ h in
      let (before, here) = add-is_done st.tally _ done in
      let (same, good) = field-done id f rec st.rows here in (left ∙ same, before, (good, rest))

  pub batch-done :
      (fs : List String) (records : List Record) (last : String) (st : Progress)
      → is_done (reencrypt_batch v db model marked fs records last st).1.tally ≡ true
      → ((reencrypt_batch v db model marked fs records last st).1.rows ≡ st.rows)
        × (is_done st.tally ≡ true)
        × All (λ r. (str_eq (id_of r) "" ≡ false) × All (IsUpToDate v marked r) fs) records
  unfolding reencrypt_batch
  batch-done fs [] last st h = (refl, h, tt)
  batch-done fs (r ∷ records) last st h = elim (Bool-cases (str_eq (id_of r) "")) [
    | inl e ↦
        let (_, done, _) = batch-done fs records _ _ (rw (reencrypt_batch, e) at h) in
        let contrary : true ≡ false =
          sym (add-is_done st.tally (record no_tally { failed = 1 }) done).1 ∙ failed-is_done in
        absurd (cc contrary)
    | inr e ↦
        let (left, done, rest) = batch-done fs records _ _ (rw (reencrypt_batch, e) at h) in
        let (same, before, good) = record-done fs (id_of r) r st done in
        (rw (reencrypt_batch, e) (left ∙ same), before, ((e, good), rest))
  ]

-- A record of a list.
abbrev pub IsIn : Record → List Record → Type 0
IsIn r [] = ⊥
IsIn r (q ∷ rs) = (q ≡ r) ⊎ IsIn r rs

-- A record that the filter of a batch asks for.
abbrev pub IsBehind : String → Record → Type 0
IsBehind last r = (str_eq last "" || text_lt last (id_of r)) ≡ true

-- What the interface promises of FindMany with a filter on the id, sorted by it and limited: the records are
-- some of those asked for, and all of them if there are fewer than the limit; each that is left out has no smaller id
-- than those listed.
abbrev pub IsPaging : Database → Type 0
IsPaging db =
    (last : String) (rows : Table)
    → ((page : List Record) × (db.find_many (behind last) batch_options rows ≡ ok page)
        × ((q : Record) → IsIn q page → IsIn q rows × IsBehind last q)
        × ((r : Record)
            → IsIn r rows
            → IsBehind last r
            → IsIn r page
              ⊎ ((batch_size ≤ length page)
                  × ((q : Record) → IsIn q page → text_lt (id_of r) (id_of q) ≡ false))))
      ⊎ ((e : AdapterError) × (db.find_many (behind last) batch_options rows ≡ err e))

-- No two records have one id.
abbrev pub IsKeyed : Table → Type 0
IsKeyed rows = (r q : Record) → IsIn r rows → IsIn q rows → id_of r ≡ id_of q → r ≡ q

pub all-in : (P : Record → Type 0) (rs : List Record) (r : Record) → All P rs → IsIn r rs → P r
all-in P [] r ps h = absurd h
all-in P (q ∷ rs) r (p, ps) (inl e) = subst P e p
all-in P (q ∷ rs) r (p, ps) (inr h) = all-in P rs r ps h

pub member-in :
    (i : String) (rs : List Record)
    → member i (ids rs) ≡ true
    → (q : Record) × IsIn q rs × (id_of q ≡ i)
unfolding member
member-in i [] m = absurd (cc)
member-in i (q ∷ rs) m = elim (Bool-cases (str_eq (id_of q) i)) [
  | inl e ↦ (q, inl refl, (eq_iff (id_of q) i).0 e)
  | inr e ↦ let (p, h, k) = member-in i rs (ground arith) in (p, inr h, k)
]

text_lt-empty : (i : String) → str_eq i "" ≡ false → text_lt "" i ≡ true
unfolding text_lt codes_lt
text_lt-empty String.[] h = cc
text_lt-empty (String.◌∷◌ c i) h = refl

pub text_lt_of-IsBehind :
    (last : String) (r : Record)
    → str_eq (id_of r) "" ≡ false
    → IsBehind last r
    → text_lt last (id_of r) ≡ true
text_lt_of-IsBehind last r named h = elim (Bool-cases (str_eq last "")) [
  | inl e ↦
      subst (λ l. text_lt l (id_of r) ≡ true) (sym ((eq_iff last "").0 e))
        (text_lt-empty (id_of r) named)
  | inr e ↦ ground (arith, e)
]
