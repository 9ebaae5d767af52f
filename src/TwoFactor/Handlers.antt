-- ===== src/TwoFactor/Handlers.antt =====
-- plugins/twofactor/twofactor.go: the handlers that check a code.
use go_dev_auth.Prelude.{
  ℕ, ◌/◌, ◌^◌, String, true, Option, none, some, List, [], ◌∷◌, ◌==◌, str_eq, if◌then◌else◌, pos,
}
use go_dev_auth.Prelude.Result.{Result, ok, err}
use go_dev_auth.Prelude.Text.{codes, codes_eq, to_lower, trim_space}
use go_dev_auth.Storage.Value.{text, boolean, time, str}
use go_dev_auth.Storage.Filter.{Record, field, w}
use go_dev_auth.Storage.Contract.{first, update_first, update_many, reject}
use go_dev_auth.Otp.{verify_totp_counter, valid_secret}
use go_dev_auth.Token.{Table, lookup_token}
use go_dev_auth.TwoFactor.{
  Failure, unauthorized, invalid_code, invalid_otp, not_enabled, secret_unreadable,
  unreadable_codes, not_sealed, retry, no_user, PendingChallenge, pending_user, fail_attempt,
  complete_pending, claim_counter, kind_otp,
}

-- The key ring (`Encrypt`, for a nonce, and `Decrypt`; both for the id and the field of a record),
-- encoding/json on lists of texts, the codes of a secret, and the plugin's options.
pub record Environment : Type 0 where
  pub hash : String → String
  pub encrypt : ℕ → String → String → String → Option String
  pub decrypt : String → String → String → Option String
  pub marshal : List String → String
  pub unmarshal : String → Option (List String)
  pub decode : String → Option (List ℕ)
  pub codes_of : String → ℕ → Option String
  pub period : ℕ
  pub skew : ℕ

-- The tables that the handlers use.
pub record State : Type 0 where
  pub verifications : Table
  pub factors : Table
  pub users : Table

pub data Answer : Type 0 where
  signed_in : String → Answer
  enabled : String → Answer

-- `record`
unfoldable pub record_of : String → Table → Option Record
unfolding first
record_of user_id rows = first (w "userId" (text user_id) ∷ []) rows

-- `decryptSecret`
unfoldable pub decrypt_secret : Environment → Record → Result Failure String
unfolding field str valid_secret
decrypt_secret env rec =
    elim (env.decrypt (str (field rec "id")) "secret" (str (field rec "secret"))) [
      | none ↦ err secret_unreadable
      | some secret ↦ if valid_secret env.decode secret then ok secret else err secret_unreadable
    ]

-- `encryptBackupCodes` and `decryptBackupCodes`
unfoldable pub encrypt_backup_codes : Environment → ℕ → String → List String → Option String
encrypt_backup_codes env nonce id list = env.encrypt nonce id "backupCodes" (env.marshal list)

unfoldable pub decrypt_backup_codes : Environment → String → String → Result Failure (List String)
decrypt_backup_codes env id enc = elim (env.decrypt id "backupCodes" enc) [
  | none ↦ err secret_unreadable
  | some raw ↦ elim (env.unmarshal raw) [ none ↦ err unreadable_codes | some list ↦ ok list ]
]

-- The loop over the codes, and the codes without the one that it finds.
unfoldable pub without_code : List ℕ → List String → Option (List String)
without_code want [] = none
without_code want (code ∷ list) =
    let rest = without_code want list in
    if codes_eq (codes code) want
    then some list
    else elim rest [ none ↦ none | some others ↦ some (code ∷ others) ]

-- `strings.TrimSpace(strings.ToLower(code))`
unfoldable pub normalized : String → List ℕ
normalized code = trim_space (to_lower (codes code))

-- What becomes of a backup code: it is wrong, the codes are not readable or not written, another
-- request has changed them since, or it is spent.
pub data Spending : Type 0 where
  wrong : Spending
  stopped : Failure → Spending
  spent : Spending

-- The part of `handleVerifyBackupCode` that reads the codes of a record and claims one of them.
unfoldable pub spend_sealed : Environment → ℕ → String → String → String → Table → Spending × Table
unfolding decrypt_backup_codes without_code normalized encrypt_backup_codes update_many
spend_sealed env nonce id enc code rows = elim (decrypt_backup_codes env id enc) [
  | err e ↦ (stopped e, rows)
  | ok list ↦ elim (without_code (normalized code) list) [
    | none ↦ (wrong, rows)
    | some remaining ↦ elim (encrypt_backup_codes env nonce id remaining) [
      | none ↦ (stopped not_sealed, rows)
      | some sealed ↦
          let (n, rows') =
            update_many (w "id" (text id) ∷ w "backupCodes" (text enc) ∷ [])
              (("backupCodes", text sealed) ∷ []) rows in
          (if n == 0 then stopped retry else spent, rows')
    ]
  ]
]

unfoldable pub spend_code : Environment → ℕ → Record → String → Table → Spending × Table
unfolding field str spend_sealed
spend_code env nonce rec code rows =
    spend_sealed env nonce (str (field rec "id")) (str (field rec "backupCodes")) code rows

-- The end of a handler: `failAttempt` or `completePending`.
unfoldable pub fail_with :
    Environment → String → PendingChallenge → ℕ → State → Result Failure Answer × State
unfolding fail_attempt
fail_with env id ch now st =
    let (failure, rows) = fail_attempt env.hash id ch now st.verifications in
    (err failure, record st { verifications = rows })

unfoldable pub complete_with :
    Environment → PendingChallenge → ℕ → State → Result Failure Answer × State
unfolding complete_pending
complete_with env ch now st =
    let (done, rows) = complete_pending env.hash ch now st.verifications in
    (
      elim done [ err e ↦ err e | ok user_id ↦ ok (signed_in user_id) ],
      record st { verifications = rows },
    )

-- `handleVerifyBackupCode`, behind its `pendingUser`
unfoldable pub verify_backup_code :
    Environment → ℕ → String → PendingChallenge → String → ℕ → State → Result Failure Answer × State
unfolding record_of spend_code fail_with complete_with
verify_backup_code env nonce id ch code now st = elim (record_of ch.user_id st.factors) [
  | none ↦ (err unauthorized, st)
  | some rec ↦
      let (out, rows) = spend_code env nonce rec code st.factors in
      let st' = record st { factors = rows } in
      elim out [
        | wrong ↦ fail_with env id ch now st'
        | stopped e ↦ (err e, st')
        | spent ↦ complete_with env ch now st'
      ]
]

-- The pending part of `handleVerifyTOTP`; the clock of the codes is in seconds.
unfoldable pub verify_pending_totp :
    Environment → String → PendingChallenge → String → ℕ → State → Result Failure Answer × State
unfolding record_of decrypt_secret verify_totp_counter claim_counter fail_with complete_with
verify_pending_totp env id ch code now st = elim (record_of ch.user_id st.factors) [
  | none ↦ (err unauthorized, st)
  | some rec ↦ elim (decrypt_secret env rec) [
    | err e ↦ (err e, st)
    | ok secret ↦
        elim (verify_totp_counter (env.codes_of secret) env.period env.skew (now / 10 ^ 9) code) [
          | none ↦ fail_with env id ch now st
          | some counter ↦
              let (won, rows) = claim_counter rec (pos counter) st.factors in
              let st' = record st { factors = rows } in
              if won then complete_with env ch now st' else fail_with env id ch now st'
        ]
  ]
]

-- `UpdateUserRecord`, without hooks, which sets the flag.
unfoldable pub enable_user : String → ℕ → State → Result Failure Answer × State
unfolding first update_first
enable_user user_id now st =
    let by_id = w "id" (text user_id) ∷ [] in
    elim (first by_id st.users) [
      | none ↦ (err no_user, st)
      | some user ↦ (
        ok (enabled user_id),
        record st {
          users =
              update_first by_id (("twoFactorEnabled", boolean true) ∷ ("updatedAt", time now) ∷ [])
                st.users;
        },
      )
    ]

-- Its other part, for the user of the session: a code completes the enrolment.
unfoldable pub verify_enrolment :
    Environment → String → String → ℕ → State → Result Failure Answer × State
unfolding record_of decrypt_secret verify_totp_counter enable_user
verify_enrolment env user_id code now st = elim (record_of user_id st.factors) [
  | none ↦ (err not_enabled, st)
  | some rec ↦ elim (decrypt_secret env rec) [
    | err e ↦ (err e, st)
    | ok secret ↦
        elim (verify_totp_counter (env.codes_of secret) env.period env.skew (now / 10 ^ 9) code) [
          | none ↦ (err invalid_code, st)
          | some counter ↦ enable_user user_id now st
        ]
  ]
]

-- `handleVerifyOTP`, behind its `pendingUser`
unfoldable pub verify_otp :
    Environment → String → PendingChallenge → String → ℕ → State → Result Failure Answer × State
unfolding lookup_token fail_with complete_with reject
verify_otp env id ch code now st =
    let (found, rows) = lookup_token env.hash kind_otp ch.user_id now st.verifications in
    let st' = record st { verifications = rows } in
    elim found [
      | err e ↦ (err invalid_otp, st')
      | ok v ↦
          if str_eq v.value (env.hash code)
          then complete_with env ch now
              (record st' { verifications = reject (w "id" (text v.id) ∷ []) rows })
          else fail_with env id ch now st'
    ]

-- The state behind `pendingUser`, and the challenge that it finds.
unfoldable pub pending_in :
    Environment → String → ℕ → State → Result Failure PendingChallenge × State
unfolding pending_user
pending_in env cookie now st =
    let (found, rows) = pending_user env.hash st.users cookie now st.verifications in
    (found, record st { verifications = rows })

totp_for :
    Environment
    → String
    → Option String
    → String
    → ℕ
    → Result Failure PendingChallenge × State
    → Result Failure Answer × State
unfolding verify_pending_totp verify_enrolment
totp_for env id session code now (ok ch, st) = verify_pending_totp env id ch code now st
totp_for env id none code now (err e, st) = (err unauthorized, st)
totp_for env id (some user_id) code now (err e, st) = verify_enrolment env user_id code now st

-- `handleVerifyTOTP`, for the cookie and the user of the session, if there is one
unfoldable pub handle_verify_totp :
    Environment
    → String
    → String
    → Option String
    → String
    → ℕ
    → State
    → Result Failure Answer × State
unfolding totp_for pending_in
handle_verify_totp env id cookie session code now st =
    totp_for env id session code now (pending_in env cookie now st)

with_challenge :
    (PendingChallenge → State → Result Failure Answer × State)
    → Result Failure PendingChallenge × State
    → Result Failure Answer × State
with_challenge next (ok ch, st) = next ch st
with_challenge next (err e, st) = (err e, st)

-- `handleVerifyOTP`
unfoldable pub handle_verify_otp :
    Environment → String → String → String → ℕ → State → Result Failure Answer × State
unfolding with_challenge pending_in verify_otp
handle_verify_otp env id cookie code now st =
    with_challenge (λ ch after. verify_otp env id ch code now after) (pending_in env cookie now st)

-- `handleVerifyBackupCode`
unfoldable pub handle_verify_backup_code :
    Environment → ℕ → String → String → String → ℕ → State → Result Failure Answer × State
unfolding with_challenge pending_in verify_backup_code
handle_verify_backup_code env nonce id cookie code now st =
    with_challenge (λ ch after. verify_backup_code env nonce id ch code now after)
      (pending_in env cookie now st)
