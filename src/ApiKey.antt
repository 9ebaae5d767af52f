-- ===== src/ApiKey.antt =====
-- plugins/apikey/apikey.go: requests that are authenticated by an API key.
-- The digest of a key, the clock in nanoseconds and the session guards are parameters, and so is what
-- other requests do to the table of keys: `world k` happens between two calls of the request.

pub mod Units
pub mod Verified
use Prim.Native.String
use go_dev_auth.Prelude.{
  ℕ, zero, suc, ◌+◌, ◌-◌, ◌*◌, String, Bool, true, false, not, ◌&&◌, ◌||◌, Option, none, some, List,
  [], ◌∷◌, map, ltb, leb, ◌==◌, str_eq, if◌then◌else◌, ℤ, pos, negsuc, int_leb, ◌-ℤ◌, ◌+ℤ◌,
}
use go_dev_auth.Prelude.Assoc.{lookup, insert}
use go_dev_auth.Prelude.Result.{Result, ok, err}
use go_dev_auth.Prelude.Text.{codes, has_prefix, fields}
use go_dev_auth.Storage.Value.{
  Value, null, text, boolean, integer, time, str, IntKind, int, int32, int64,
}
use go_dev_auth.Storage.Filter.{Record, field, w}
use go_dev_auth.Storage.Contract.{first, update_many}

pub data KeyError : Type 0 where
  no_key disabled expired no_user refused : KeyError
  exhausted malformed contended : KeyError

-- What the field `remaining` says.
pub data Quota : Type 0 where
  unlimited malformed_quota : Quota
  units : ℤ → Quota

unfoldable pub quota_of : Value → Quota
quota_of null = unlimited
quota_of (integer int64 n) = units n
quota_of (integer int n) = malformed_quota
quota_of (integer int32 n) = malformed_quota
quota_of (text s) = malformed_quota
quota_of (boolean b) = malformed_quota
quota_of (time t) = malformed_quota

-- One compare-and-set of the loop.
unfoldable pub attempt : String → ℤ → List Record → Bool × List Record
unfolding update_many ◌-ℤ◌
attempt id rem rows =
    let (n, rows') =
      update_many (w "id" (text id) ∷ w "remaining" (integer int64 rem) ∷ [])
        (("remaining", integer int64 (rem -ℤ pos 1)) ∷ []) rows in
    (n == 1, rows')

-- The loop of `spendQuota`, with so many attempts left: whether the quota has been spent or removed,
-- what then stands in the request's copy of the record, and the table.
unfoldable pub spend_loop :
    (ℕ → List Record → List Record)
    → String
    → ℕ
    → ℤ
    → List Record
    → Result KeyError Quota × List Record
unfolding attempt first quota_of field
spend_loop world id zero rem rows = (err contended, rows)
spend_loop world id (suc left) rem rows = elim (int_leb rem (pos 0)) [
  | true ↦ (err exhausted, rows)
  | false ↦
      let (won, rows') = attempt id rem (world (2 * left + 1) rows) in
      elim won [
        | true ↦ (ok (units (rem -ℤ pos 1)), rows')
        | false ↦
            let seen = world (2 * left) rows' in
            elim (first (w "id" (text id) ∷ []) seen) [
              | none ↦ (err no_key, seen)
              | some fresh ↦ elim (quota_of (field fresh "remaining")) [
                | unlimited ↦ (ok unlimited, seen)
                | malformed_quota ↦ (err malformed, seen)
                | units now_left ↦ spend_loop world id left now_left seen
              ]
            ]
      ]
]

-- The request's copy of the record behind the loop.
unfoldable pub copied : Record → Result KeyError Quota → Result KeyError Record
unfolding insert
copied rec (err e) = err e
copied rec (ok unlimited) = ok rec
copied rec (ok malformed_quota) = ok rec
copied rec (ok (units left)) = ok (insert "remaining" (integer int64 left) rec)

-- `spendQuota`
unfoldable pub spend_quota :
    (ℕ → List Record → List Record) → Record → List Record → Result KeyError Record × List Record
unfolding quota_of field str spend_loop copied
spend_quota world rec rows = elim (quota_of (field rec "remaining")) [
  | unlimited ↦ (ok rec, rows)
  | malformed_quota ↦ (err malformed, rows)
  | units rem ↦
      let (out, rows') = spend_loop world (str (field rec "id")) 5 rem rows in
      (copied rec out, rows')
]

-- An explicit true.
unfoldable pub is_enabled : Value → Bool
is_enabled (boolean b) = b
is_enabled null = false
is_enabled (text s) = false
is_enabled (integer k n) = false
is_enabled (time t) = false

unfoldable pub has_expired : Value → ℕ → Bool
has_expired (time t) now = not (t == 0) && ltb t now
has_expired null now = false
has_expired (text s) now = false
has_expired (integer k n) now = false
has_expired (boolean b) now = false

-- The end of `verifyKey`: the user of the key, and the session guards.
unfoldable pub key_user : (Record → Bool) → List Record → Record → Result KeyError Record
unfolding first field str
key_user guards users rec = elim (first (w "id" (text (str (field rec "userId"))) ∷ []) users) [
  | none ↦ err no_user
  | some user ↦ if guards user then ok user else err refused
]

unfoldable pub with_user :
    (Record → Bool)
    → List Record
    → Result KeyError Record × List Record
    → Result KeyError (Record × Record) × List Record
unfolding key_user
with_user guards users (err e, rows) = (err e, rows)
with_user guards users (ok rec, rows) =
    (elim (key_user guards users rec) [ err e ↦ err e | ok user ↦ ok (rec, user) ], rows)

-- `verifyKey`: the record of the key and its user.
unfoldable pub verify_key :
    (String → String)
    → (ℕ → List Record → List Record)
    → (Record → Bool)
    → List Record
    → String
    → ℕ
    → List Record
    → Result KeyError (Record × Record) × List Record
unfolding first field is_enabled has_expired spend_quota with_user
verify_key hash world guards users key now rows =
    elim (first (w "key" (text (hash key)) ∷ []) rows) [
      | none ↦ (err no_key, rows)
      | some rec ↦
          if not (is_enabled (field rec "enabled"))
          then (err disabled, rows)
          else if has_expired (field rec "expiresAt") now
          then (err expired, rows)
          else with_user guards users (spend_quota world rec rows)
    ]

-- `deniedByDefault` and `deniedPrefixes`
abbrev pub denied_by_default : List String
denied_by_default = "/set-password" ∷ "/delete-user" ∷ "/change-password" ∷ "/change-email" ∷ []

abbrev pub denied_prefixes : List String
denied_prefixes = "/admin/" ∷ "/api-key/" ∷ "/two-factor/" ∷ []

unfoldable pub is_one_of : String → List String → Bool
is_one_of path [] = false
is_one_of path (d ∷ ds) = let rest = is_one_of path ds in if str_eq path d then true else rest

unfoldable pub starts_with_one_of : List ℕ → List (List ℕ) → Bool
unfolding has_prefix
starts_with_one_of path [] = false
starts_with_one_of path (p ∷ ps) =
    let rest = starts_with_one_of path ps in if has_prefix path p then true else rest

-- `keyPermitsPath`; that a path equals a scope is a case of having it as a prefix.
unfoldable pub key_permits_path : Bool → Record → String → Bool
unfolding is_one_of starts_with_one_of field str fields
key_permits_path allow_sensitive rec path =
    let scopes = fields (codes (str (field rec "scopes"))) in
    if not allow_sensitive
      && (is_one_of path denied_by_default
          || starts_with_one_of (codes path) (map codes denied_prefixes))
    then false
    else elim scopes [ [] ↦ true | sc ∷ scs ↦ starts_with_one_of (codes path) (sc ∷ scs) ]

-- `recordUsage`, for the interval between writes, which is -1 where usage is not recorded
unfoldable pub record_usage : ℤ → String → Record → ℕ → List Record → List Record
unfolding field update_many ◌+ℤ◌
record_usage (negsuc n) id rec now rows = rows
record_usage (pos interval) id rec now rows =
    if recent (field rec "lastRequest")
    then rows
    else (update_many (w "id" (text id) ∷ [])
        (("lastRequest", time now)
          ∷ ("requestCount", integer int64 (count_of (field rec "requestCount") +ℤ pos 1))
          ∷ ("updatedAt", time now)
          ∷ [])
        rows).1
  where
    recent : Value → Bool
    recent (time t) = not (t == 0) && ltb now (t + interval)
    recent null = false
    recent (text s) = false
    recent (integer k n) = false
    recent (boolean b) = false

    count_of : Value → ℤ
    count_of (integer int64 n) = n
    count_of (integer int n) = pos 0
    count_of (integer int32 n) = pos 0
    count_of null = pos 0
    count_of (text s) = pos 0
    count_of (boolean b) = pos 0
    count_of (time t) = pos 0

-- `publicKeyView`
unfoldable pub public_key_view : Record → Record
public_key_view [] = []
public_key_view ((k, v) ∷ rec) =
    let rest = public_key_view rec in if str_eq k "key" then rest else (k, v) ∷ rest

-- `userKey`: the key with an id, if it is the user's own.
unfoldable pub user_key : String → String → List Record → Option Record
unfolding first
user_key user_id id rows = first (w "id" (text id) ∷ w "userId" (text user_id) ∷ []) rows

-- How a request with the header is treated: as one without a session, as one over the limit of its
-- key, or as one of a key's user.
pub data Resolution : Type 0 where
  anonymous limited : Resolution
  as_user : Record → String → Resolution

-- `BeforeRequest` behind `verifyKey`: the limit of the key, and its usage.
unfoldable pub admit :
    (String → Bool)
    → Bool
    → ℤ
    → String
    → ℕ
    → Result KeyError (Record × Record) × List Record
    → Resolution × List Record
unfolding key_permits_path record_usage field str
admit within allow_sensitive interval path now (err e, rows) = (anonymous, rows)
admit within allow_sensitive interval path now (ok (rec, user), rows) =
    let id = str (field rec "id") in
    if not (key_permits_path allow_sensitive rec path)
    then (anonymous, rows)
    else if not (within (String.◌++◌ "apikey:" id))
    then (limited, rows)
    else (as_user user id, record_usage interval id rec now rows)

-- `BeforeRequest`, for the value of the header; `within` is the answer of the limiter.
unfoldable pub before_request :
    (String → String)
    → (ℕ → List Record → List Record)
    → (Record → Bool)
    → (String → Bool)
    → Bool
    → Bool
    → ℤ
    → List Record
    → String
    → String
    → ℕ
    → List Record
    → Resolution × List Record
unfolding verify_key admit
before_request hash world guards within disabled_sessions allow_sensitive interval users key path
      now rows =
    if disabled_sessions
    then (anonymous, rows)
    else if str_eq key ""
    then (anonymous, rows)
    else admit within allow_sensitive interval path now
        (verify_key hash world guards users key now rows)
