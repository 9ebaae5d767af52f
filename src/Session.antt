-- ===== src/Session.antt =====
-- session.go, and the sessions of store.go and storage/model.go.
-- The tables of sessions and users are lists of records (Storage.Contract). Times and durations are in
-- nanoseconds; hooks, cookies and events are left out, and so is the cookie cache. A plugin is its id
-- and its two guards, which are parameters.

pub mod Model
pub mod Lifetime
pub mod Guards
use go_dev_auth.Prelude.{
  ℕ, ◌+◌, ◌^◌, String, Bool, true, false, not, ◌&&◌, ◌||◌, Option, none, some, List, [], ◌∷◌, ◌++◌,
  ltb, leb, ◌==◌, str_eq, if◌then◌else◌, ℤ, pos, negsuc,
}
use go_dev_auth.Prelude.Assoc.{merge}
use go_dev_auth.Prelude.Result.{Result, ok, err}
use go_dev_auth.Storage.Value.{
  Value, null, text, boolean, integer, time, str, IntKind, int, int32, int64,
}
use go_dev_auth.Storage.Filter.{Record, Where, field, w}
use go_dev_auth.Storage.Contract.{first, reject, select, remove_first, update_first}
use go_dev_auth.Memory.Operations.{SortBy, sort_records}
use go_dev_auth.Token.{time_val}

-- The `switch` on the fields of a model: whether a key is one of them, and the keys that are not.
unfoldable pub is_core : String → List String → Bool
is_core k [] = false
is_core k (c ∷ cs) = let rest = is_core k cs in if str_eq c k then true else rest

unfoldable pub extra_of : List String → Record → Record
unfolding is_core
extra_of core [] = []
extra_of core ((k, v) ∷ rec) =
    let rest = extra_of core rec in if is_core k core then rest else (k, v) ∷ rest

-- `boolean`
unfoldable pub bool_val : Value → Bool
bool_val (boolean b) = b
bool_val (integer int64 (pos n)) = not (n == 0)
bool_val (integer int (pos n)) = not (n == 0)
bool_val (integer int64 (negsuc n)) = true
bool_val (integer int (negsuc n)) = true
bool_val (integer int32 n) = false
bool_val null = false
bool_val (text s) = false
bool_val (time t) = false

-- `storage.User`
pub record User : Type 0 where
  pub id : String
  pub name : String
  pub email : String
  pub email_verified : Bool
  pub image : String
  pub created_at : ℕ
  pub updated_at : ℕ
  pub extra : Record

-- `storage.Session`
pub record Session : Type 0 where
  pub id : String
  pub user_id : String
  pub token : String
  pub expires_at : ℕ
  pub ip_address : String
  pub user_agent : String
  pub created_at : ℕ
  pub updated_at : ℕ
  pub extra : Record

abbrev pub user_fields : List String
user_fields = "id" ∷ "name" ∷ "email" ∷ "emailVerified" ∷ "image" ∷ "createdAt" ∷ "updatedAt" ∷ []

abbrev pub session_fields : List String
session_fields =
    "id" ∷ "userId" ∷ "token" ∷ "expiresAt" ∷ "ipAddress" ∷ "userAgent" ∷ "createdAt" ∷ "updatedAt"
    ∷ []

-- `UserToMap` and `UserFromMap`
unfoldable pub user_to_map : User → Record
unfolding merge
user_to_map u = merge u.extra (
    ("id", text u.id)
    ∷ ("name", text u.name)
    ∷ ("email", text u.email)
    ∷ ("emailVerified", boolean u.email_verified)
    ∷ ("image", text u.image)
    ∷ ("createdAt", time u.created_at)
    ∷ ("updatedAt", time u.updated_at)
    ∷ [])

unfoldable pub user_from_map : Record → User
unfolding field str bool_val time_val extra_of
user_from_map r = record {
  id = str (field r "id");
  name = str (field r "name");
  email = str (field r "email");
  email_verified = bool_val (field r "emailVerified");
  image = str (field r "image");
  created_at = time_val (field r "createdAt");
  updated_at = time_val (field r "updatedAt");
  extra = extra_of user_fields r;
}

-- `SessionToMap` and `SessionFromMap`
unfoldable pub session_to_map : Session → Record
unfolding merge
session_to_map s = merge s.extra (
    ("id", text s.id)
    ∷ ("userId", text s.user_id)
    ∷ ("token", text s.token)
    ∷ ("expiresAt", time s.expires_at)
    ∷ ("ipAddress", text s.ip_address)
    ∷ ("userAgent", text s.user_agent)
    ∷ ("createdAt", time s.created_at)
    ∷ ("updatedAt", time s.updated_at)
    ∷ [])

unfoldable pub session_from_map : Record → Session
unfolding field str time_val extra_of
session_from_map r = record {
  id = str (field r "id");
  user_id = str (field r "userId");
  token = str (field r "token");
  expires_at = time_val (field r "expiresAt");
  ip_address = str (field r "ipAddress");
  user_agent = str (field r "userAgent");
  created_at = time_val (field r "createdAt");
  updated_at = time_val (field r "updatedAt");
  extra = extra_of session_fields r;
}

pub data SessionError : Type 0 where
  no_session invalid_token : SessionError
  rejected : String → SessionError

-- A plugin: its id, its `BeforeSignIn` and its `CheckSession`, if it has them. The first tells
-- whether it has taken over the sign-in.
pub record Plugin : Type 0 where
  pub id : String
  pub before_sign_in : Option (User → Result SessionError Bool)
  pub check_session : Option (Session → User → Option SessionError)

pub record Config : Type 0 where
  pub expires_in : ℕ
  pub update_age : ℕ
  pub fresh_age : ℕ
  pub disable_refresh : Bool
  pub plugins : List Plugin

-- The guards of `SignInUser`, in the order of the plugins.
unfoldable pub run_sign_in_guards : List Plugin → User → Result SessionError Bool
run_sign_in_guards [] user = ok false
run_sign_in_guards (p ∷ ps) user = elim p.before_sign_in [
  | none ↦ run_sign_in_guards ps user
  | some guard ↦ elim (guard user) [
    | err e ↦ err e
    | ok true ↦ ok true
    | ok false ↦ run_sign_in_guards ps user
  ]
]

-- `RunSignInGuardsAfter`: the loop until the plugin is seen, and behind it.
unfoldable pub run_sign_in_guards_after : List Plugin → User → String → Result SessionError Bool
unfolding run_sign_in_guards
run_sign_in_guards_after [] user after = ok false
run_sign_in_guards_after (p ∷ ps) user after =
    let rest = run_sign_in_guards_after ps user after in
    if str_eq p.id after then run_sign_in_guards ps user else rest

-- `runSessionGuards`: the first rejection, if there is one.
unfoldable pub run_session_guards : List Plugin → Session → User → Option SessionError
run_session_guards [] s user = none
run_session_guards (p ∷ ps) s user = elim p.check_session [
  | none ↦ run_session_guards ps s user
  | some guard ↦ elim (guard s user) [ some e ↦ some e | none ↦ run_session_guards ps s user ]
]

abbrev pub by_token : String → List Where
by_token token = w "token" (text token) ∷ []

-- `CreateSession` of the store, with the expiry that `createSessionWithDuration` computes; a duration
-- of 0 stands for the configured one.
unfoldable pub create_session :
    Config
    → String
    → String
    → String
    → String
    → String
    → Record
    → ℕ
    → ℕ
    → List Record
    → Session × List Record
unfolding session_to_map
create_session config id token user_id ip agent extra duration now rows =
    let s : Session = record {
      id = id;
      user_id = user_id;
      token = token;
      expires_at = now + (if duration == 0 then config.expires_in else duration);
      ip_address = ip;
      user_agent = agent;
      created_at = now;
      updated_at = now;
      extra = extra;
    } in
    (s, rows ++ session_to_map s ∷ [])

-- `sessionRefreshable`: a second less than the configured lifetime is tolerated.
unfoldable pub session_refreshable : Config → Session → Bool
session_refreshable config s =
    not (s.created_at == 0) && leb (s.created_at + config.expires_in) (s.expires_at + 10 ^ 9)

-- The test before a refresh.
unfoldable pub refresh_due : Config → Session → ℕ → Bool
unfolding session_refreshable
refresh_due config s now =
    not config.disable_refresh
    && session_refreshable config s
    && ltb (s.expires_at + config.update_age) (now + config.expires_in)

-- What `UpdateSession` writes for a refresh.
unfoldable pub refresh : Config → ℕ → Record
refresh config now = ("expiresAt", time (now + config.expires_in)) ∷ ("updatedAt", time now) ∷ []

-- The sliding expiration: the session, and the table of sessions.
unfoldable pub slide : Config → String → ℕ → Record → List Record → Session × List Record
unfolding session_from_map refresh_due refresh merge update_first
slide config token now r sessions =
    if refresh_due config (session_from_map r) now
    then (
      session_from_map (merge (refresh config now) r),
      update_first (by_token token) (refresh config now) sessions,
    )
    else (session_from_map r, sessions)

guarded : Config → User → Session × List Record → Result SessionError (Session × User) × List Record
unfolding run_session_guards
guarded config user (s, sessions) = (
  elim (run_session_guards config.plugins s user) [ none ↦ ok (s, user) | some e ↦ err e ],
  sessions,
)

-- `GetSessionFromToken`
unfoldable pub get_session_from_token :
    Config
    → List Record
    → String
    → ℕ
    → List Record
    → Result SessionError (Session × User) × List Record
unfolding first session_from_map user_from_map remove_first slide guarded
get_session_from_token config users token now sessions = elim (first (by_token token) sessions) [
  | none ↦ (err no_session, sessions)
  | some r ↦
      if not (ltb now (session_from_map r).expires_at)
      then (err no_session, remove_first (by_token token) sessions)
      else elim (first (w "id" (text (session_from_map r).user_id) ∷ []) users) [
        | none ↦ (err no_session, sessions)
        | some u ↦ guarded config (user_from_map u) (slide config token now r sessions)
      ]
]

-- `IsFresh`
unfoldable pub is_fresh : Config → Session → ℕ → Bool
is_fresh config s now = config.fresh_age == 0 || ltb now (s.created_at + config.fresh_age)

-- `RevokeSession`, `RevokeUserSessions` and `revokeOtherSessions`
unfoldable pub revoke_session : String → List Record → List Record
unfolding remove_first
revoke_session token sessions = remove_first (by_token token) sessions

unfoldable pub revoke_user_sessions : String → List Record → List Record
unfolding reject
revoke_user_sessions user_id sessions = reject (w "userId" (text user_id) ∷ []) sessions

unfoldable pub revoke_each : String → List Record → List Record → List Record
unfolding session_from_map revoke_session
revoke_each keep [] sessions = sessions
revoke_each keep (r ∷ rs) sessions =
    let token = (session_from_map r).token in
    revoke_each keep rs
      (if not (str_eq token keep) then revoke_session token sessions else sessions)

unfoldable pub revoke_other_sessions : String → String → List Record → List Record
unfolding revoke_each select sort_records
revoke_other_sessions user_id keep sessions =
    revoke_each keep
      (sort_records (record { name = "createdAt"; descending = true })
        (select (w "userId" (text user_id) ∷ []) sessions))
      sessions

-- The target of `handleRevokeSession`, which must be a session of the user.
unfoldable pub handle_revoke_session :
    String → String → String → List Record → Result SessionError Bool × List Record
unfolding first session_from_map remove_first
handle_revoke_session user_id session_id token sessions = elim (target session_id token) [
  | none ↦ (err invalid_token, sessions)
  | some r ↦
      if not (str_eq (session_from_map r).user_id user_id)
      then (err invalid_token, sessions)
      else (ok true, remove_first (by_id (session_from_map r).id) sessions)
]
  where
    by_id : String → List Where
    by_id id = w "id" (text id) ∷ []

    target : String → String → Option Record
    target id given =
        if not (str_eq id "")
        then first (by_id id) sessions
        else if not (str_eq given "")
        then first (by_token given) sessions
        else none
