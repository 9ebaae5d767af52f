-- ===== src/Admin/Handlers.antt =====
-- plugins/admin/admin.go: the handlers on users and sessions.
-- The body of a request is the argument of its handler; the id and token of a new session are
-- arguments too, and so is the session that `RequireSession` answers with.
use go_dev_auth.Prelude.{
  ℕ, zero, suc, ◌+◌, ◌-◌, ◌*◌, ◌%◌, ◌^◌, String, true, not, ◌&&◌, Option, none, some, List, [], ◌∷◌,
  map, ltb, str_eq, if◌then◌else◌, ℤ, pos, negsuc,
}
use go_dev_auth.Prelude.Result.{Result, ok, err}
use go_dev_auth.Storage.Value.{text, boolean, time}
use go_dev_auth.Storage.Filter.{Record, w}
use go_dev_auth.Storage.Schema.{Table}
use go_dev_auth.Storage.Contract.{first, select, remove_first}
use go_dev_auth.Memory.Operations.{sort_records}
use go_dev_auth.Session.{
  Config, Session, SessionError, User, user_from_map, session_from_map, create_session,
  revoke_session, revoke_user_sessions,
}
use go_dev_auth.Admin.Listing.{Query, list_users}
use go_dev_auth.Admin.{
  Options, AdminError, unauthenticated, user_not_found, invalid_body, cannot_ban_yourself,
  cannot_impersonate_admin, not_impersonating, by_id, update_user, unban, is_admin, impersonator,
  require_admin, validate_role, validate_user_data, map_user_write_error,
}

-- The plugin, the schema of the users, and the configuration of sessions.
pub record Instance : Type 0 where
  pub options : Options
  pub users : Option Table
  pub config : Config

pub record State : Type 0 where
  pub users : List Record
  pub sessions : List Record

pub data Outcome : Type 0 where
  user_of : User → Outcome
  session_of : Session → User → Outcome
  listed : List Session → Outcome
  users_of : List User → ℕ → Outcome
  done : Outcome

abbrev pub Requester : Type 0
Requester = Result SessionError (Session × User)

-- The start of a handler: `requireAdmin`, and an early return.
unfoldable pub as_admin :
    Options
    → Requester
    → (Session × User → State → Result AdminError Outcome × State)
    → State
    → Result AdminError Outcome × State
unfolding require_admin
as_admin opts sd act st = elim (require_admin opts sd) [
  | err e ↦ (err e, st)
  | ok admin ↦ act admin st
]

-- `UpdateUserRecord` of a handler, with its error.
unfoldable pub write : Instance → ℕ → String → Record → State → Result AdminError Outcome × State
unfolding update_user map_user_write_error
write i now id update st =
    let (r, users) = update_user i.users now id update st.users in
    (
      elim r [ err e ↦ err (map_user_write_error e) | ok u ↦ ok (user_of u) ],
      record st { users = users },
    )

-- `handleSetRole`, behind its `requireAdmin`; so the handlers below.
unfoldable pub set_role :
    Instance → ℕ → String → String → Session × User → State → Result AdminError Outcome × State
unfolding validate_role write
set_role i now id role admin st = elim (validate_role i.options role) [
  | err e ↦ (err e, st)
  | ok valid ↦ write i now id (("role", text role) ∷ []) st
]

-- `delete(m, k)`
unfoldable pub without_key : String → Record → Record
without_key k [] = []
without_key k ((j, v) ∷ r) =
    let rest = without_key k r in if str_eq j k then rest else (j, v) ∷ rest

-- `handleUpdateUser`
unfoldable pub change_user :
    Instance → ℕ → String → Record → Session × User → State → Result AdminError Outcome × State
unfolding validate_user_data write without_key
change_user i now id [] admin st = (err invalid_body, st)
change_user i now id (e ∷ data') admin st =
    let update = without_key "id" (e ∷ data') in
    elim (validate_user_data i.options update) [
      | err x ↦ (err x, st)
      | ok valid ↦ write i now id update st
    ]

-- A product in an int64.
abbrev pub wrap : ℕ → ℤ
wrap n = let r = n % 2 ^ 64 in if ltb r (2 ^ 63) then pos r else negsuc (2 ^ 64 - r - 1)

-- `Time.Add`; the zero time is more than 2 ^ 63 nanoseconds before any time that a clock shows.
abbrev pub add_duration : ℕ → ℤ → ℕ
add_duration now (pos d) = now + d
add_duration now (negsuc d) = now - suc d

-- When a ban of so many seconds ends, if it ends.
unfoldable pub ban_expiry : Options → ℕ → Option ℤ → Option ℕ
ban_expiry opts now (some (pos (suc n))) = some (add_duration now (wrap (suc n * 10 ^ 9)))
ban_expiry opts now (some (pos zero)) =
    if ltb 0 opts.default_ban_expires_in then some (now + opts.default_ban_expires_in) else none
ban_expiry opts now (some (negsuc n)) =
    if ltb 0 opts.default_ban_expires_in then some (now + opts.default_ban_expires_in) else none
ban_expiry opts now none =
    if ltb 0 opts.default_ban_expires_in then some (now + opts.default_ban_expires_in) else none

unfoldable pub ban_of : Options → ℕ → String → Option ℤ → Record
unfolding ban_expiry
ban_of opts now reason seconds =
    ("banned", boolean true)
    ∷ ("banReason", text (if str_eq reason "" then opts.default_ban_reason else reason))
    ∷ elim (ban_expiry opts now seconds) [ none ↦ [] | some t ↦ ("banExpires", time t) ∷ [] ]

unfoldable pub revoked :
    String → Result AdminError Outcome × State → Result AdminError Outcome × State
unfolding revoke_user_sessions
revoked id (err e, st) = (err e, st)
revoked id (ok out, st) = (ok out, record st { sessions = revoke_user_sessions id st.sessions })

-- `handleBanUser`
unfoldable pub ban_user :
    Instance
    → ℕ
    → String
    → String
    → Option ℤ
    → Session × User
    → State
    → Result AdminError Outcome × State
unfolding ban_of write revoked
ban_user i now id reason seconds (s, admin) st =
    if str_eq id admin.id
    then (err cannot_ban_yourself, st)
    else revoked id (write i now id (ban_of i.options now reason seconds) st)

-- `handleUnbanUser`
unfoldable pub unban_user :
    Instance → ℕ → String → Session × User → State → Result AdminError Outcome × State
unfolding write
unban_user i now id admin st = write i now id unban st

-- What a request brings for a new session: id, token, address and agent.
pub record Ticket : Type 0 where
  pub id : String
  pub token : String
  pub ip_address : String
  pub user_agent : String

-- `CreateSessionWith` and `CreateSessionFor`
unfoldable pub open_session :
    Instance → Ticket → User → Record → ℕ → ℕ → State → Result AdminError Outcome × State
unfolding create_session
open_session i t user extra duration now st =
    let (s, sessions) =
      create_session i.config t.id t.token user.id t.ip_address t.user_agent extra duration now
        st.sessions in
    (ok (session_of s user), record st { sessions = sessions })

-- `handleImpersonate`
unfoldable pub impersonate :
    Instance → ℕ → String → Ticket → Session × User → State → Result AdminError Outcome × State
unfolding first user_from_map is_admin open_session
impersonate i now id t (s, admin) st = elim (first (by_id id) st.users) [
  | none ↦ (err user_not_found, st)
  | some r ↦
      if is_admin i.options (user_from_map r) && not i.options.allow_impersonating_admins
      then (err cannot_impersonate_admin, st)
      else open_session i t (user_from_map r) (("impersonatedBy", text admin.id) ∷ [])
          i.options.impersonation_duration now st
]

-- `handleStopImpersonating`
unfoldable pub stop_impersonating :
    Instance → ℕ → Ticket → Requester → State → Result AdminError Outcome × State
unfolding first user_from_map revoke_session open_session
stop_impersonating i now t (err e) st = (err (unauthenticated e), st)
stop_impersonating i now t (ok (s, user)) st =
    if str_eq (impersonator s) ""
    then (err not_impersonating, st)
    else elim (first (by_id (impersonator s)) st.users) [
      | none ↦ (err user_not_found, st)
      | some r ↦
          open_session i t (user_from_map r) [] 0 now
            (record st { sessions = revoke_session s.token st.sessions })
    ]

-- `handleListUserSessions`
unfoldable pub list_user_sessions :
    String → Session × User → State → Result AdminError Outcome × State
unfolding sort_records select session_from_map
list_user_sessions id admin st = (
  ok (
      listed (
        map session_from_map (
          sort_records (record { name = "createdAt"; descending = true })
            (select (w "userId" (text id) ∷ []) st.sessions)))),
  st,
)

-- `handleRevokeUserSession`, by id or by token
unfoldable pub revoke_user_session :
    String → String → Session × User → State → Result AdminError Outcome × State
unfolding remove_first revoke_session
revoke_user_session token id admin st =
    if not (str_eq id "")
    then (ok done, record st { sessions = remove_first (by_id id) st.sessions })
    else if not (str_eq token "")
    then (ok done, record st { sessions = revoke_session token st.sessions })
    else (err invalid_body, st)

-- `handleRevokeUserSessions`
unfoldable pub revoke_sessions : String → Session × User → State → Result AdminError Outcome × State
unfolding revoke_user_sessions
revoke_sessions id admin st =
    (ok done, record st { sessions = revoke_user_sessions id st.sessions })

-- The handlers: each asks `requireAdmin` itself, but the end of an impersonation, which asks for a
-- session.
abbrev pub Reply : Type 0
Reply = Result AdminError Outcome × State

unfoldable pub handle_set_role : Instance → ℕ → String → String → Requester → State → Reply
unfolding as_admin set_role
handle_set_role i now id role sd st = as_admin i.options sd (set_role i now id role) st

unfoldable pub handle_update_user : Instance → ℕ → String → Record → Requester → State → Reply
unfolding as_admin change_user
handle_update_user i now id data' sd st = as_admin i.options sd (change_user i now id data') st

unfoldable pub handle_ban_user :
    Instance → ℕ → String → String → Option ℤ → Requester → State → Reply
unfolding as_admin ban_user
handle_ban_user i now id reason seconds sd st =
    as_admin i.options sd (ban_user i now id reason seconds) st

unfoldable pub handle_unban_user : Instance → ℕ → String → Requester → State → Reply
unfolding as_admin unban_user
handle_unban_user i now id sd st = as_admin i.options sd (unban_user i now id) st

unfoldable pub handle_impersonate : Instance → ℕ → String → Ticket → Requester → State → Reply
unfolding as_admin impersonate
handle_impersonate i now id t sd st = as_admin i.options sd (impersonate i now id t) st

unfoldable pub handle_list_user_sessions : Instance → String → Requester → State → Reply
unfolding as_admin list_user_sessions
handle_list_user_sessions i id sd st = as_admin i.options sd (list_user_sessions id) st

unfoldable pub handle_revoke_user_session : Instance → String → String → Requester → State → Reply
unfolding as_admin revoke_user_session
handle_revoke_user_session i token id sd st =
    as_admin i.options sd (revoke_user_session token id) st

unfoldable pub handle_revoke_user_sessions : Instance → String → Requester → State → Reply
unfolding as_admin revoke_sessions
handle_revoke_user_sessions i id sd st = as_admin i.options sd (revoke_sessions id) st

counted : Result AdminError (List User × ℕ) → Result AdminError Outcome
counted (err e) = err e
counted (ok (users, total)) = ok (users_of users total)

unfoldable pub list_stored : Instance → Query → Session × User → State → Reply
unfolding list_users counted
list_stored i q admin st = (counted (list_users i.users q st.users), st)

unfoldable pub handle_list_users : Instance → Query → Requester → State → Reply
unfolding as_admin list_stored
handle_list_users i q sd st = as_admin i.options sd (list_stored i q) st

-- The requests to these routes, with their bodies; those that create or remove a user or set a
-- password are not among them.
pub data Action : Type 0 where
  role_set : String → String → Action
  user_changed : String → Record → Action
  user_banned : String → String → Option ℤ → Action
  user_unbanned : String → Action
  impersonated : String → Ticket → Action
  impersonation_stopped : Ticket → Action
  users_listed : Query → Action
  sessions_listed : String → Action
  session_revoked : String → String → Action
  sessions_revoked : String → Action

-- `Routes`
unfoldable pub perform : Instance → ℕ → Requester → Action → State → Reply
unfolding handle_set_role handle_update_user handle_ban_user handle_unban_user handle_impersonate
    stop_impersonating handle_list_users handle_list_user_sessions handle_revoke_user_session
    handle_revoke_user_sessions
perform i now sd (role_set id role) st = handle_set_role i now id role sd st
perform i now sd (user_changed id data') st = handle_update_user i now id data' sd st
perform i now sd (user_banned id reason seconds) st = handle_ban_user i now id reason seconds sd st
perform i now sd (user_unbanned id) st = handle_unban_user i now id sd st
perform i now sd (impersonated id t) st = handle_impersonate i now id t sd st
perform i now sd (impersonation_stopped t) st = stop_impersonating i now t sd st
perform i now sd (users_listed q) st = handle_list_users i q sd st
perform i now sd (sessions_listed id) st = handle_list_user_sessions i id sd st
perform i now sd (session_revoked token id) st = handle_revoke_user_session i token id sd st
perform i now sd (sessions_revoked id) st = handle_revoke_user_sessions i id sd st
