-- ===== src/Token.antt =====
-- token.go and the verification part of store.go: one-time tokens.
-- The adapter's table of verifications is the list of its records, on which each call does what the
-- interface promises (Storage.Contract); the clock, the generated ids and tokens, and the digest
-- `crypto.HashToken` are arguments.
pub mod SingleUse
pub mod Replace
use Prim.Native.String
use go_dev_auth.Prelude.{
  ℕ, suc, ◌+◌, String, Bool, true, false, not, ◌&&◌, Option, none, some, List, [], ◌∷◌, ◌++◌, ltb,
  length, ◌==◌, str_eq, if◌then◌else◌,
}
use go_dev_auth.Prelude.Result.{Result, ok, err, ◌>>=◌}
use go_dev_auth.Storage.Error.{AdapterError, not_found}
use go_dev_auth.Storage.Value.{Value, text, time, null, boolean, integer, one, op_lte, str}
use go_dev_auth.Storage.Filter.{Record, Where, field, w, connector_default, matches}
use go_dev_auth.Storage.Contract.{select, reject}
use go_dev_auth.Memory.Operations.{SortBy, sort_records}

-- The table of verifications.
abbrev pub Table : Type 0
Table = List Record

-- `storage.Verification`
pub record Verification : Type 0 where
  pub id : String
  pub identifier : String
  pub value : String
  pub expires_at : ℕ
  pub created_at : ℕ
  pub updated_at : ℕ

-- `VerificationToMap`
unfoldable pub to_map : Verification → Record
to_map v =
    ("id", text v.id)
    ∷ ("identifier", text v.identifier)
    ∷ ("value", text v.value)
    ∷ ("expiresAt", time v.expires_at)
    ∷ ("createdAt", time v.created_at)
    ∷ ("updatedAt", time v.updated_at)
    ∷ []

-- `timeVal` of a value that the adapter keeps as it was written.
unfoldable pub time_val : Value → ℕ
time_val (time t) = t
time_val null = 0
time_val (text s) = 0
time_val (boolean b) = 0
time_val (integer k n) = 0

-- `VerificationFromMap`
unfoldable pub from_map : Record → Verification
unfolding str time_val field
from_map r = record {
  id = str (field r "id");
  identifier = str (field r "identifier");
  value = str (field r "value");
  expires_at = time_val (field r "expiresAt");
  created_at = time_val (field r "createdAt");
  updated_at = time_val (field r "updatedAt");
}

-- `tokenIdentifier`, for the digest of a token
abbrev pub token_identifier : (String → String) → String → String → String
token_identifier hash kind token = String.◌++◌ kind (String.◌++◌ ":" (hash token))

-- `CreateVerification`
unfoldable pub create_verification : String → String → String → ℕ → ℕ → Table → Verification × Table
unfolding to_map
create_verification id identifier value expires_in now rows =
    let v : Verification = record {
      id = id;
      identifier = identifier;
      value = value;
      expires_at = now + expires_in;
      created_at = now;
      updated_at = now;
    } in
    (v, rows ++ to_map v ∷ [])

-- `DeleteVerificationsByIdentifier`
unfoldable pub delete_by_identifier : String → Table → Table
unfolding reject
delete_by_identifier identifier rows = reject (w "identifier" (text identifier) ∷ []) rows

-- The loop of `FindVerification`: the first record that has not expired.
unfoldable pub first_live : ℕ → List Record → Option Verification
unfolding from_map
first_live now [] = none
first_live now (r ∷ rs) =
    if ltb now (from_map r).expires_at then some (from_map r) else first_live now rs

newest_first : SortBy
newest_first = record { name = "createdAt"; descending = true }

abbrev pub expired : String → ℕ → List Where
expired identifier now =
    w "identifier" (text identifier)
    ∷ record {
      name = "expiresAt";
      operator = op_lte;
      value = one (time now);
      connector = connector_default;
    }
    ∷ []

-- `FindVerification`: the newest live record; if there is none, the expired ones are removed.
unfoldable pub find_verification : String → ℕ → Table → Result AdapterError Verification × Table
unfolding select reject sort_records newest_first first_live
find_verification identifier now rows =
    elim (first_live now
      (sort_records newest_first (select (w "identifier" (text identifier) ∷ []) rows))) [
        | some v ↦ (ok v, rows)
        | none ↦ (err not_found, reject (expired identifier now) rows)
      ]

-- `StoreToken`, for the generated id and token
unfoldable pub store_token :
    (String → String) → String → String → String → String → ℕ → ℕ → Table → Table
unfolding create_verification
store_token hash id token kind value ttl now rows =
    (create_verification id (token_identifier hash kind token) value ttl now rows).1

-- `StoreTokenValue`: any previous record of the token is removed first.
unfoldable pub store_token_value :
    (String → String) → String → String → String → String → ℕ → ℕ → Table → Table
unfolding create_verification delete_by_identifier
store_token_value hash id kind token value ttl now rows =
    (create_verification id (token_identifier hash kind token) value ttl now
      (delete_by_identifier (token_identifier hash kind token) rows)).1

-- `LookupToken`
unfoldable pub lookup_token :
    (String → String) → String → String → ℕ → Table → Result AdapterError Verification × Table
unfolding find_verification
lookup_token hash kind token now rows =
    if str_eq token ""
    then (err not_found, rows)
    else find_verification (token_identifier hash kind token) now rows

-- The claim of `ConsumeToken`: the delete by id, which must have removed one record.
unfoldable pub claim : Verification → Table → Result AdapterError String × Table
unfolding select reject
claim v rows =
    let by_id = w "id" (text v.id) ∷ [] in
    (if length (select by_id rows) == 1 then ok v.value else err not_found, reject by_id rows)

claimed : Result AdapterError Verification × Table → Result AdapterError String × Table
unfolding claim
claimed (err e, rows) = (err e, rows)
claimed (ok v, rows) = claim v rows

-- `ConsumeToken`, with nothing in between the lookup and the claim
unfoldable pub consume_token :
    (String → String) → String → String → ℕ → Table → Result AdapterError String × Table
unfolding lookup_token claimed
consume_token hash kind token now rows = claimed (lookup_token hash kind token now rows)

abbrev pub expired_at : ℕ → List Where
expired_at now =
    record {
      name = "expiresAt";
      operator = op_lte;
      value = one (time now);
      connector = connector_default;
    }
    ∷ []

-- `CleanupExpired` on the verifications and the sessions.
unfoldable pub cleanup_expired : ℕ → Table → List Record → ℕ × Table × List Record
unfolding select reject
cleanup_expired now rows sessions = (
  length (select (expired_at now) rows) + length (select (expired_at now) sessions),
  reject (expired_at now) rows,
  reject (expired_at now) sessions,
)
