-- ===== src/TwoFactor.antt =====
-- plugins/twofactor/twofactor.go: the second factor of a sign-in.
-- The adapter's tables are lists of records (Storage.Contract). Parameters are the digest of tokens,
-- the generated ids, the clock in nanoseconds, the key ring's Encrypt and Decrypt with the binding of
-- the record, and the JSON text of a list of codes. Events and cookies are left out.
pub mod Counter
pub mod Pending
pub mod Handlers
pub mod Backup
pub mod Trust
use Prim.Native.String
use go_dev_auth.Prelude.{
  ℕ, zero, suc, ◌+◌, ◌-◌, ◌*◌, ◌^◌, String, Bool, true, false, ◌&&◌, Option, none, some, List, [],
  ◌∷◌, ◌++◌, ltb, length, ◌==◌, str_eq, if◌then◌else◌, ℤ, pos, negsuc, int_leb,
}
use go_dev_auth.Prelude.Result.{Result, ok, err}
use go_dev_auth.Prelude.Decimal.{itoa, atoi, cut}
use go_dev_auth.Storage.Error.{AdapterError}
use go_dev_auth.Storage.Value.{
  Value, null, text, boolean, integer, time, str, IntKind, int, int32, int64,
}
use go_dev_auth.Storage.Filter.{Record, field, w}
use go_dev_auth.Storage.Contract.{first, update_many}
use go_dev_auth.Token.{Table, lookup_token, consume_token, store_token_value}

-- The answers that are errors.
pub data Failure : Type 0 where
  unauthorized invalid_code too_many_attempts invalid_otp not_enabled : Failure
  secret_unreadable unreadable_codes not_sealed retry no_user : Failure

-- `recordInt`
unfoldable pub record_int : Value → ℤ
record_int (integer int64 n) = n
record_int (integer int n) = n
record_int (integer int32 n) = pos 0
record_int null = pos 0
record_int (text s) = pos 0
record_int (boolean b) = pos 0
record_int (time t) = pos 0

-- `claimCounter`: whether the counter was claimed, and the table that the claim leaves.
unfoldable pub claim_counter : Record → ℤ → Table → Bool × Table
unfolding record_int update_many field
claim_counter rec counter rows =
    let last = record_int (field rec "lastCounter") in
    let (n, rows') =
      update_many (w "id" (field rec "id") ∷ w "lastCounter" (integer int64 last) ∷ [])
        (("lastCounter", integer int64 counter) ∷ []) rows in
    if int_leb counter last then (false, rows) else (n == 1, rows')

abbrev pub kind_pending : String
kind_pending = "two-factor-pending"

abbrev pub kind_otp : String
kind_otp = "two-factor-otp"

-- `pendingTTL`, ten minutes in nanoseconds
abbrev pub pending_ttl : ℕ
pending_ttl = 600 * 10 ^ 9

abbrev pub max_verify_attempts : ℤ
max_verify_attempts = pos 5

-- `parsePendingValue`
unfoldable pub parse_pending_value : String → String × ℤ
unfolding cut atoi
parse_pending_value value = elim (cut b'|' value) [
  | none ↦ (value, pos 0)
  | some (id, rest) ↦ (id, atoi rest)
]

-- `attempts + 1` on an int
unfoldable pub next_attempt : ℤ → ℤ
next_attempt (pos n) = if n == 2 ^ 63 - 1 then negsuc (2 ^ 63 - 1) else pos (suc n)
next_attempt (negsuc zero) = pos 0
next_attempt (negsuc (suc n)) = negsuc n

-- `pendingChallenge`, with the id of its user
pub record PendingChallenge : Type 0 where
  pub user_id : String
  pub token : String
  pub attempts : ℤ

-- `ch.user.ID + "|" + strconv.Itoa(attempts)`
abbrev pub pending_value : String → ℤ → String
pending_value user_id attempts = String.◌++◌ user_id (String.◌∷◌ "|" (itoa attempts))

-- `pendingUser`, for the value of the cookie, which is empty if there is none
unfoldable pub pending_user :
    (String → String) → Table → String → ℕ → Table → Result Failure PendingChallenge × Table
unfolding lookup_token parse_pending_value first field str
pending_user hash users cookie now rows =
    let (found, rows') = lookup_token hash kind_pending cookie now rows in
    if str_eq cookie "" then (err unauthorized, rows) else elim found [
      | err e ↦ (err unauthorized, rows')
      | ok v ↦
          let (user_id, attempts) = parse_pending_value v.value in
          elim (first (w "id" (text user_id) ∷ []) users) [
            | none ↦ (err unauthorized, rows')
            | some user ↦ (
              ok (record { user_id = str (field user "id"); token = cookie; attempts = attempts }),
              rows',
            )
          ]
    ]

-- What `failAttempt` does behind its claim of the attempt.
unfoldable pub record_failure :
    (String → String)
    → String
    → PendingChallenge
    → ℕ
    → Result AdapterError String × Table
    → Failure × Table
unfolding store_token_value parse_pending_value next_attempt itoa
record_failure hash id ch now (err e, rows) = (unauthorized, rows)
record_failure hash id ch now (ok value, rows) =
    let attempts = next_attempt (parse_pending_value value).1 in
    if int_leb max_verify_attempts attempts then (too_many_attempts, rows) else (
      invalid_code,
      store_token_value hash id kind_pending ch.token (pending_value ch.user_id attempts)
          pending_ttl now rows,
    )

-- `failAttempt`, for the id that is generated for the record of the challenge: the attempt is
-- claimed by consuming the challenge.
unfoldable pub fail_attempt :
    (String → String) → String → PendingChallenge → ℕ → Table → Failure × Table
unfolding consume_token record_failure
fail_attempt hash id ch now rows =
    record_failure hash id ch now (consume_token hash kind_pending ch.token now rows)

-- The claim of the challenge in `completePending`; whose session is next.
unfoldable pub complete_pending :
    (String → String) → PendingChallenge → ℕ → Table → Result Failure String × Table
unfolding consume_token
complete_pending hash ch now rows =
    let (value, rows') = consume_token hash kind_pending ch.token now rows in
    (elim value [ err e ↦ err unauthorized | ok v ↦ ok ch.user_id ], rows')
