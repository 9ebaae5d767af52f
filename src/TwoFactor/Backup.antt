-- ===== src/TwoFactor/Backup.antt =====
-- Backup codes: each is spent as often as the list holds it, however the requests interleave.
use go_dev_auth.Prelude.{
  ℕ, suc, ◌+◌, ◌≤◌, ◌≡◌, ◌⊎◌, inl, inr, refl, ap, sym, subst, ◌∙◌, String, Bool, true, false, ◌&&◌,
  some, List, [], ◌∷◌, All, if◌then◌else◌, arith, Bool-cases, Option-cases, ◌==◌,
}
use go_dev_auth.Prelude.Result.{ok, Result-cases}
use go_dev_auth.Prelude.Assoc.{merge}
use go_dev_auth.Prelude.Text.{codes, codes_eq, codes_eq-eq}
use go_dev_auth.Storage.Value.{text, equal, str}
use go_dev_auth.Storage.Value.Laws.{equal-text_iff}
use go_dev_auth.Storage.Filter.{Record, field}
use go_dev_auth.Storage.Contract.{select, update_many}
use go_dev_auth.Storage.Swap.{
  holds, set, by_id, update_many-holds, update_many-holds_none, field-set,
}
use go_dev_auth.Token.{Table}
use go_dev_auth.TwoFactor.{retry}
use go_dev_auth.TwoFactor.Handlers.{
  Environment, decrypt_backup_codes, encrypt_backup_codes, without_code, normalized, Spending,
  wrong, stopped, spent, spend_sealed, spend_code,
}

-- How many codes of a list are the wanted one.
pub stock : List ℕ → List String → ℕ
stock want [] = 0
stock want (code ∷ list) =
    let rest = stock want list in if codes_eq (codes code) want then suc rest else rest

without_code-stock :
    (want other : List ℕ) (list remaining : List String)
    → without_code want list ≡ some remaining
    → stock other remaining + (if codes_eq want other then 1 else 0) ≡ stock other list
unfolding without_code stock
without_code-stock want other [] remaining e = absurd (cc)
without_code-stock want other (code ∷ list) remaining e =
    elim (Bool-cases (codes_eq (codes code) want)) [
      | inl f ↦
          let same : codes code ≡ want = codes_eq-eq (codes code) want f in
          let held : list ≡ remaining = ground (arith, e, f) in ground (arith, same, held)
      | inr f ↦ elim (Option-cases (without_code want list)) [
        | inl g ↦ absurd (ground (arith, f, g))
        | inr (others, g) ↦
            let held : code ∷ others ≡ remaining = ground (arith, e, f, g) in
            ground (arith, held, without_code-stock want other list others g, f)
      ]
    ]

-- What requests do to the table, call by call: a request for a code has read a record before, which
-- may be out of date; any other call is what it does to the table.
pub data Call : Type 0 where
  spend_of : ℕ → Record → String → Call
  other : (Table → Table) → Call

is_spent : Spending → Bool
is_spent spent = true
is_spent wrong = false
is_spent (stopped e) = false

-- How many of the calls spend a code that reads as the wanted one.
pub count_spent : Environment → List ℕ → List Call → Table → ℕ
unfolding spend_code is_spent normalized
count_spent env want [] rows = 0
count_spent env want (spend_of nonce rec code ∷ calls) rows =
    let (out, rows') = spend_code env nonce rec code rows in
    let rest = count_spent env want calls rows' in
    if is_spent out && codes_eq (normalized code) want then suc rest else rest
count_spent env want (other change ∷ calls) rows = count_spent env want calls (change rows)

-- The codes of the record with an id, if it is still there.
abbrev pub IsStocked : Environment → String → List String → Table → Type 0
IsStocked env i list rows =
    (select (by_id i) rows ≡ [])
    ⊎ ((r : Record) × (enc : String) × (select (by_id i) rows ≡ r ∷ [])
        × (field r "backupCodes" ≡ text enc)
        × (decrypt_backup_codes env i enc ≡ ok list))

-- A request has read the record with the id, at some time; other calls leave its codes alone, or
-- remove it.
abbrev pub IsCall : Environment → String → Call → Type 0
IsCall env i (spend_of nonce rec code) =
    (field rec "id" ≡ text i) × ((enc : String) × (field rec "backupCodes" ≡ text enc))
IsCall env i (other change) =
    (list : List String) (rows : Table)
    → IsStocked env i list rows
    → IsStocked env i list (change rows)

-- What is sealed for a record is read back.
abbrev pub IsSealing : Environment → Type 0
IsSealing env =
    (nonce : ℕ) (id sealed : String) (list : List String)
    → encrypt_backup_codes env nonce id list ≡ some sealed
    → decrypt_backup_codes env id sealed ≡ ok list

-- The claim of a code: a compare-and-set of the sealed codes.
abbrev swapped : String → String → String → Table → Spending × Table
swapped i enc sealed rows =
    let (n, rows') =
      update_many (holds i "backupCodes" (text enc)) (set "backupCodes" (text sealed)) rows in
    (if n == 0 then stopped retry else spent, rows')

-- A request that leaves the table and spends nothing, or the claim of a code that it has found.
abbrev IsRequest : Environment → ℕ → String → String → String → Table → Spending × Table → Type 0
IsRequest env nonce i enc code rows out =
    ((is_spent out.0 ≡ false) × (out.1 ≡ rows))
    ⊎ ((list : List String) × (remaining : List String) × (sealed : String) × (decrypt_backup_codes
            env i enc
          ≡ ok list)
        × (without_code (normalized code) list ≡ some remaining)
        × (encrypt_backup_codes env nonce i remaining ≡ some sealed)
        × (out ≡ swapped i enc sealed rows))

spend_sealed-IsRequest :
    (env : Environment) (nonce : ℕ) (i enc code : String) (rows : Table)
    → IsRequest env nonce i enc code rows (spend_sealed env nonce i enc code rows)
unfolding spend_sealed is_spent
spend_sealed-IsRequest env nonce i enc code rows =
    elim (Result-cases (decrypt_backup_codes env i enc)) [
      | inr (failure, g) ↦ inl (rw (spend_sealed, g) (refl, refl))
      | inl (list, g) ↦ elim (Option-cases (without_code (normalized code) list)) [
        | inl h ↦ inl (rw (spend_sealed, g, h) (refl, refl))
        | inr (remaining, h) ↦ elim (Option-cases (encrypt_backup_codes env nonce i remaining)) [
          | inl k ↦ inl (rw (spend_sealed, g, h, k) (refl, refl))
          | inr (sealed, k) ↦
              inr (list, remaining, sealed, g, h, k, rw (spend_sealed, g, h, k) refl)
        ]
      ]
    ]

spend_code-IsRequest :
    (env : Environment) (nonce : ℕ) (rec : Record) (i enc code : String) (rows : Table)
    → field rec "id" ≡ text i
    → field rec "backupCodes" ≡ text enc
    → IsRequest env nonce i enc code rows (spend_code env nonce rec code rows)
unfolding spend_code str
spend_code-IsRequest env nonce rec i enc code rows e f =
    rw (spend_code, e, f) (spend_sealed-IsRequest env nonce i enc code rows)

-- What a call leaves in stock: the codes of the record, and the one that it has spent.
abbrev IsLeft : Environment → String → List ℕ → List String → List ℕ → Spending × Table → Type 0
IsLeft env i want list read (out, rows) =
    (left : List String) × IsStocked env i left rows
    × (stock want left + (if is_spent out && codes_eq read want then 1 else 0) ≤ stock want list)

swapped-IsLeft :
    (env : Environment) (i enc sealed : String) (want read : List ℕ)
    (list found remaining : List String) (rows : Table)
    → decrypt_backup_codes env i enc ≡ ok found
    → without_code read found ≡ some remaining
    → decrypt_backup_codes env i sealed ≡ ok remaining
    → IsStocked env i list rows
    → IsLeft env i want list read (swapped i enc sealed rows)
unfolding is_spent str
swapped-IsLeft env i enc sealed want read list found remaining rows opened without resealed
      (inl gone) =
    let (count, left) =
      update_many-holds_none i "backupCodes" (text enc) (text sealed) rows refl gone in
    (list, inl left, rw count (omega arith))
swapped-IsLeft env i enc sealed want read list found remaining rows opened without resealed
      (inr (r, now_enc, one, h, now_open)) =
    let (count, left) =
      update_many-holds i "backupCodes" (text enc) (text sealed) rows refl r one in
    elim (Bool-cases (equal (field r "backupCodes") (text enc))) [
      | inl e ↦
          let same : text now_enc ≡ text enc =
            sym h ∙ (equal-text_iff (field r "backupCodes") enc).0 e in
          let same_list : ok list ≡ ok found =
            sym now_open ∙ ap (λ v. decrypt_backup_codes env i (str v)) same ∙ opened in
          (
            remaining,
            inr (
              merge (set "backupCodes" (text sealed)) r,
              sealed,
              left ∙ rw e refl,
              field-set r "backupCodes" "backupCodes" (text sealed),
              resealed,
            ),
            rw (count, e)
                (ground (arith, without_code-stock read want found remaining without, same_list)),
          )
      | inr e ↦ (list, inr (r, now_enc, left ∙ rw e refl, h, now_open), rw (count, e) (omega arith))
    ]

spend-IsLeft :
    (env : Environment) (i : String) (want : List ℕ) (nonce : ℕ) (rec : Record) (code : String)
    (list : List String) (rows : Table)
    → IsSealing env
    → IsCall env i (spend_of nonce rec code)
    → IsStocked env i list rows
    → IsLeft env i want list (normalized code) (spend_code env nonce rec code rows)
spend-IsLeft env i want nonce rec code list rows sealing (e, (enc, f)) stocked =
    elim (spend_code-IsRequest env nonce rec i enc code rows e f) [
      | inl (lost, kept) ↦
          (list, subst (IsStocked env i list) (sym kept) stocked, rw lost (omega arith))
      | inr (found, remaining, sealed, opened, without, resealed, out) ↦
          subst (IsLeft env i want list (normalized code)) (sym out) (
            swapped-IsLeft env i enc sealed want (normalized code) list found remaining rows opened
              without (sealing nonce i sealed remaining resealed) stocked)
    ]

-- Whatever records the requests had read, and however their calls are ordered: a backup code is spent
-- at most as often as the list of the record with the id holds it, if what is sealed for a record is
-- read back, and if all other calls leave the codes of the record alone or remove it.
pub count_spent-le :
    (env : Environment) (i : String) (want : List ℕ) (list : List String) (calls : List Call)
    (rows : Table)
    → IsSealing env
    → All (IsCall env i) calls
    → IsStocked env i list rows
    → count_spent env want calls rows ≤ stock want list
unfolding count_spent
count_spent-le env i want list [] rows sealing ok_calls stocked = omega arith
count_spent-le env i want list (spend_of nonce rec code ∷ calls) rows sealing ((e, g), hs) stocked =
    let (left, after, fewer) =
      spend-IsLeft env i want nonce rec code list rows sealing (e, g) stocked in
    ground (
      arith,
      fewer,
      count_spent-le env i want left calls (spend_code env nonce rec code rows).1 sealing hs after,
    )
count_spent-le env i want list (other change ∷ calls) rows sealing (keeps, hs) stocked =
    count_spent-le env i want list calls (change rows) sealing hs (keeps list rows stocked)
