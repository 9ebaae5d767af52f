-- ===== src/Secrets/Finish.antt =====
-- secrets.go: a pass that is done leaves nothing to do.
use go_dev_auth.Prelude.{
  ℕ, zero, suc, ◌≤◌, ◌<◌, ◌≡◌, ◌⊎◌, refl, ap, sym, subst, ◌∙◌, String, Bool, true, false, ◌||◌,
  some, List, [], ◌∷◌, arith, str_eq, eq_iff, eq_refl, Bool-cases, inl, inr, length, ltb, All,
}
use go_dev_auth.Storage.Filter.{Record, field}
use go_dev_auth.Token.{Table}
use go_dev_auth.Keyring.{Binding, member, decrypt, new_keyring}
use go_dev_auth.Keyring.Pruning.{decrypt-pruned}
use go_dev_auth.Storage.Value.{str}
use go_dev_auth.Secrets.{
  Vault, Database, Progress, unlisted, is_done, body_of, reencrypt_batch, reencrypt_behind,
  reencrypt_fields, text_lt, batch_size,
}
use go_dev_auth.Secrets.Swap.{IsUpdating}
use go_dev_auth.Secrets.Order.{above, above-length, text_lt_irrefl}
use go_dev_auth.Secrets.Pass.{id_of, ids, IsListing, reencrypt_batch-IsMoved}
use go_dev_auth.Secrets.Ends.{above-batch, length-ids}
use go_dev_auth.Secrets.Done.{
  IsUpToDate, batch-done, IsIn, IsBehind, IsPaging, IsKeyed, all-in, text_lt_of-IsBehind,
}
use go_dev_auth.Secrets.Cursor.{snoc-ne_nil, All-listed, raised, left_out}

-- An encrypted value of the field is decrypted by the current key alone as by the whole ring.
abbrev pub IsIndependent : Vault → Bool → Record → String → Type 0
IsIndependent v marked r f =
    (body : String)
    → body_of marked (str (field r f)) ≡ some body
    → (c : Binding)
    → decrypt v.primitives (new_keyring v.keyring.current [] true) c body
      ≡ decrypt v.primitives v.keyring c body

module _ (v : Vault) (db : Database) (model : String) (marked : Bool) (updating : IsUpdating db)
    (paging : IsPaging db) (fs : List String) (others : All (λ f. str_eq f "id" ≡ false) fs) where
  -- The cursor moves past a batch of records that have ids.
  next-lt :
      (r : Record) (rs : List Record) (last : String) (st : Progress)
      → str_eq (id_of r) "" ≡ false
      → IsBehind last r
      → text_lt last (reencrypt_batch v db model marked fs (r ∷ rs) last st).0 ≡ true
  unfolding reencrypt_batch
  next-lt r rs last st named h =
      let l = text_lt_of-IsBehind last r named h in
      rw (reencrypt_batch, l)
        (raised last (id_of r) _ (ids rs) l
          (reencrypt_batch-IsMoved v db model marked updating fs rs (id_of r) _))

  Finished : Progress → String → Progress → Type 0
  Finished st last out =
      (out.rows ≡ st.rows)
      × (is_done st.tally ≡ true)
      × ((r : Record) → IsIn r st.rows → IsBehind last r → All (IsUpToDate v marked r) fs)

  abbrev Good : Record → Type 0
  Good r = (str_eq (id_of r) "" ≡ false) × All (IsUpToDate v marked r) fs

  -- Where the pass stops behind a batch, the batch was not full.
  stopped :
      (page : List Record) (last next : String) (q : Record)
      → (str_eq next last || ltb (length page) batch_size) ≡ true
      → text_lt last next ≡ true
      → All Good page
      → IsIn q page
        ⊎ ((batch_size ≤ length page)
            × ((p : Record) → IsIn p page → text_lt (id_of q) (id_of p) ≡ false))
      → All (IsUpToDate v marked q) fs
  stopped page last next q stop l good (inl i) = (all-in Good page q good i).1
  stopped page last next q stop l good (inr (full, _)) =
      let same : next ≡ last = (eq_iff next last).0 (ground arith) in
      absurd (cc (sym l ∙ ap (text_lt last) same ∙ text_lt_irrefl last))

  -- Where it goes on, the rest of the pass sees what the batch has left out.
  went_on :
      (page : List Record) (last next : String) (q : Record) (rows : Table)
      → IsKeyed rows
      → IsIn q rows
      → ((p : Record) → IsIn p page → IsIn p rows)
      → member next (ids page) ≡ true
      → All Good page
      → (IsBehind next q → All (IsUpToDate v marked q) fs)
      → IsIn q page
        ⊎ ((batch_size ≤ length page)
            × ((p : Record) → IsIn p page → text_lt (id_of q) (id_of p) ≡ false))
      → All (IsUpToDate v marked q) fs
  went_on page last next q rows keyed here sub m good later (inl i) = (all-in Good page q good i).1
  went_on page last next q rows keyed here sub m good later (inr (_, least)) =
      elim (left_out page rows last next q keyed here sub least m) [
        | inl i ↦ (all-in Good page q good i).1
        | inr b ↦ later b
      ]

  listing : IsListing db
  listing last rows = elim (paging last rows) [
    | inl (page, e, sub, _) ↦ inl (page, e, All-listed page rows (λ q i. (sub q i).0))
    | inr (x, e) ↦ inr (x, e)
  ]

  behind-tally :
      (fuel : ℕ) (last : String) (st : Progress)
      → is_done (reencrypt_behind fuel v db model marked fs last st).tally ≡ true
      → is_done st.tally ≡ true
  unfolding reencrypt_behind
  behind-tally zero last st h = h
  behind-tally (suc fuel) last st h = elim (paging last st.rows) [
    | inr (e, x) ↦ rw (reencrypt_behind, x) at h
    | inl ([], x, _, _) ↦ rw (reencrypt_behind, x) at h
    | inl (r ∷ rs, x, _, _) ↦
        let next = (reencrypt_batch v db model marked fs (r ∷ rs) last st).0 in
        let st' = (reencrypt_batch v db model marked fs (r ∷ rs) last st).1 in
        elim (Bool-cases (str_eq next last || ltb (length (r ∷ rs)) batch_size)) [
          | inl stop ↦
              (batch-done v db model marked fs (r ∷ rs) last st
                (rw (reencrypt_behind, x, stop) at h)).1
          | inr on ↦
              (batch-done v db model marked fs (r ∷ rs) last st
                (behind-tally fuel next st' (rw (reencrypt_behind, x, on) at h))).1
        ]
  ]

  behind-done :
      (fuel : ℕ) (last : String) (st : Progress)
      → above last (ids st.rows) < fuel
      → IsKeyed st.rows
      → is_done (reencrypt_behind fuel v db model marked fs last st).tally ≡ true
      → (reencrypt_behind fuel v db model marked fs last st).errors ≡ []
      → Finished st last (reencrypt_behind fuel v db model marked fs last st)
  unfolding reencrypt_behind Finished
  behind-done zero last st n keyed h quiet = absurd (omega arith)
  behind-done (suc fuel) last st n keyed h quiet = elim (paging last st.rows) [
    | inr (e, x) ↦ absurd (snoc-ne_nil st.errors (unlisted e) (rw (reencrypt_behind, x) at quiet))
    | inl ([], x, sub, all) ↦
        rw (reencrypt_behind, x)
          (
            refl,
            rw (reencrypt_behind, x) at h,
            λ r here b. elim (all r here b) [
              | inl i ↦ absurd i
              | inr (full, _) ↦ absurd (omega arith)
            ],
          )
    | inl (r ∷ rs, x, sub, all) ↦
        let page = r ∷ rs in
        let next = (reencrypt_batch v db model marked fs page last st).0 in
        let st' = (reencrypt_batch v db model marked fs page last st).1 in
        elim (Bool-cases (str_eq next last || ltb (length page) batch_size)) [
          | inl stop ↦
              let h' : is_done st'.tally ≡ true = rw (reencrypt_behind, x, stop) at h in
              let (same, done, good) = batch-done v db model marked fs page last st h' in
              rw (reencrypt_behind, x, stop)
                (
                  same,
                  done,
                  λ q here b.
                      stopped page last next q stop
                        (next-lt r rs last st (all-in Good page r good (inl refl)).0
                          (sub r (inl refl)).1)
                        good (all q here b),
                )
          | inr on ↦
              let h' = rw (reencrypt_behind, x, on) at h in
              let quiet' = rw (reencrypt_behind, x, on) at quiet in
              let done' = behind-tally fuel next st' h' in
              let (same, done, good) = batch-done v db model marked fs page last st done' in
              let fewer =
                above-batch v db model marked updating listing fs others page last st
                  (All-listed page st.rows (λ q i. (sub q i).0)) (ground arith) in
              let (left, _, rest) =
                behind-done fuel next st' (omega (arith, fewer)) (subst IsKeyed (sym same) keyed) h'
                  quiet' in
              let m : member next (ids page) ≡ true =
                elim (reencrypt_batch-IsMoved v db model marked updating fs page last st) [
                  | inl e ↦ absurd (cc (rw (e, eq_refl last) at on))
                  | inr (_, m) ↦ m
                ] in
              rw (reencrypt_behind, x, on)
                (
                  left ∙ same,
                  done,
                  λ q here b.
                      went_on page last next q st.rows keyed here (λ p i. (sub p i).0) m good
                        (λ b'. rest q (subst (IsIn q) (sym same) here) b') (all q here b),
                )
        ]
  ]

  -- If a pass is done and no call has failed, it has changed nothing, and no encrypted value of the
  -- fields that it walks over needs another encryption.
  reencrypt_fields-done :
      (rows : Table)
      → IsKeyed rows
      → is_done (reencrypt_fields v db model marked fs rows).tally ≡ true
      → (reencrypt_fields v db model marked fs rows).errors ≡ []
      → ((reencrypt_fields v db model marked fs rows).rows ≡ rows)
        × ((r : Record) → IsIn r rows → All (IsUpToDate v marked r) fs)
  unfolding reencrypt_fields Finished
  reencrypt_fields-done rows keyed h quiet =
      let enough : above "" (ids rows) < suc (length rows) =
        omega (arith, above-length "" (ids rows), length-ids rows) in
      let (same, _, all) = behind-done (suc (length rows)) "" _ enough keyed h quiet in
      (same, λ r here. all r here refl)

  All-IsIndependent :
      (r : Record) (gs : List String)
      → All (IsUpToDate v marked r) gs
      → All (IsIndependent v marked r) gs
  All-IsIndependent r [] good = tt
  All-IsIndependent r (g ∷ gs) (here, good) = (
    λ body b c. decrypt-pruned v.primitives v.keyring c body (here body b),
    All-IsIndependent r gs good,
  )

  -- If a pass is done and no call has failed, it has changed nothing, and each encrypted value of the
  -- fields that it walks over is decrypted without the previous secrets and with the unbound
  -- formats refused as it was with both. UpdateMany and FindMany do what the interface promises, no two
  -- records have one id, and no field to encrypt is the id.
  pub reencrypt_fields-pruned :
      (rows : Table)
      → IsKeyed rows
      → is_done (reencrypt_fields v db model marked fs rows).tally ≡ true
      → (reencrypt_fields v db model marked fs rows).errors ≡ []
      → ((reencrypt_fields v db model marked fs rows).rows ≡ rows)
        × ((r : Record) → IsIn r rows → All (IsIndependent v marked r) fs)
  reencrypt_fields-pruned rows keyed h quiet =
      let (same, all) = reencrypt_fields-done rows keyed h quiet in
      (same, λ r here. All-IsIndependent r fs (all r here))
