-- ===== src/Secrets/Ends.antt =====
-- secrets.go: the pass over a table ends.
use go_dev_auth.Prelude.{
  ℕ, zero, suc, ◌<◌, ◌≡◌, refl, ap, String, Bool, true, false, ◌||◌, List, [], ◌∷◌, arith, str_eq,
  eq_refl, Bool-cases, inl, inr, length, ltb, All,
}
use go_dev_auth.Storage.Filter.{Record}
use go_dev_auth.Token.{Table}
use go_dev_auth.Keyring.{member}
use go_dev_auth.Secrets.{
  Vault, Database, Progress, no_tally, reencrypt_batch, reencrypt_behind, reencrypt_fields,
  batch_size,
}
use go_dev_auth.Secrets.Swap.{IsUpdating}
use go_dev_auth.Secrets.Order.{above, above-length, above-lt}
use go_dev_auth.Secrets.Pass.{
  id_of, ids, IsListing, member_of_All, ids-reencrypt_batch, reencrypt_batch-IsMoved,
}

pub length-ids : (rows : Table) → length (ids rows) ≡ length rows
length-ids [] = refl
length-ids (r ∷ rows) = ap suc (length-ids rows)

module _ (v : Vault) (db : Database) (model : String) (marked : Bool) (updating : IsUpdating db)
    (listing : IsListing db) (fs : List String) (others : All (λ f. str_eq f "id" ≡ false) fs) where
  -- A batch that moves the cursor leaves fewer ids above it.
  pub above-batch :
      (records : List Record) (last : String) (st : Progress)
      → All (λ r. member (id_of r) (ids st.rows) ≡ true) records
      → str_eq (reencrypt_batch v db model marked fs records last st).0 last ≡ false
      → above
          (reencrypt_batch v db model marked fs records last st).0
          (ids (reencrypt_batch v db model marked fs records last st).1.rows)
        < above last (ids st.rows)
  above-batch records last st listed stays =
      rw (ids-reencrypt_batch v db model marked updating fs records last st others)
        (elim (reencrypt_batch-IsMoved v db model marked updating fs records last st) [
          | inl e ↦ absurd (cc (rw (e, eq_refl last) at stays))
          | inr (l, m) ↦
              above-lt last _ (ids st.rows) l (member_of_All records _ (ids st.rows) listed m)
        ])

  -- Two amounts of fuel above the number of ids behind the cursor do the same.
  reencrypt_behind-stable :
      (j k : ℕ) (last : String) (st : Progress)
      → above last (ids st.rows) < j
      → above last (ids st.rows) < k
      → reencrypt_behind j v db model marked fs last st
        ≡ reencrypt_behind k v db model marked fs last st
  unfolding reencrypt_behind
  reencrypt_behind-stable zero k last st hj hk = absurd (omega arith)
  reencrypt_behind-stable (suc j) zero last st hj hk = absurd (omega arith)
  reencrypt_behind-stable (suc j) (suc k) last st hj hk = elim (listing last st.rows) [
    | inr (e, x) ↦ rw (reencrypt_behind, x) refl
    | inl ([], x, listed) ↦ rw (reencrypt_behind, x) refl
    | inl (r ∷ rs, x, listed) ↦
        let next = (reencrypt_batch v db model marked fs (r ∷ rs) last st).0 in
        elim (Bool-cases (str_eq next last || ltb (length (r ∷ rs)) batch_size)) [
          | inl stop ↦ rw (reencrypt_behind, x, stop) refl
          | inr on ↦
              let fewer = above-batch (r ∷ rs) last st listed (ground arith) in
              rw (reencrypt_behind, x, on)
                (reencrypt_behind-stable j k next _ (omega (arith, fewer)) (omega (arith, fewer)))
        ]
  ]

  -- A pass ends: with any more fuel than a record needs, it does the same, whatever calls fail.
  -- UpdateMany writes nothing on an error, FindMany lists records of the table, and no field to encrypt is the id.
  pub reencrypt_fields-ends :
      (fuel : ℕ) (rows : Table)
      → length rows < fuel
      → reencrypt_behind fuel v db model marked fs ""
          (record { tally = no_tally; errors = []; rows = rows })
        ≡ reencrypt_fields v db model marked fs rows
  unfolding reencrypt_fields
  reencrypt_fields-ends fuel rows h =
      let enough : above "" (ids rows) < suc (length rows) =
        omega (arith, above-length "" (ids rows), length-ids rows) in
      reencrypt_behind-stable fuel (suc (length rows)) "" _
        (omega (arith, above-length "" (ids rows), length-ids rows)) enough
