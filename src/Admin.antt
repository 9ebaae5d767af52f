-- ===== src/Admin.antt =====
-- plugins/admin/admin.go: who is banned, who is an administrator, and what a role may be.
-- The tables of users and sessions are lists of records; an update of a user does what the interface
-- promises under the table's schema. Events are left out.
pub mod Handlers
pub mod Listing
pub mod Authority
pub mod Impersonation
pub mod Bans
use go_dev_auth.Prelude.{
  ℕ, ◌*◌, ◌^◌, ◌==◌, String, Bool, true, false, not, ◌&&◌, ◌||◌, Option, none, some, List, [], ◌∷◌,
  ltb, leb, length, str_eq, if◌then◌else◌, append-nil, ◌++◌,
}
use go_dev_auth.Prelude.Assoc.{lookup, insert}
use go_dev_auth.Prelude.Result.{Result, ok, err, ◌>>=◌}
use go_dev_auth.Prelude.Text.{codes, codes_eq, trim_space, contains}
use go_dev_auth.Prelude.Split.{split}
use go_dev_auth.Storage.Error.{AdapterError, not_found, unique_violation}
use go_dev_auth.Storage.Value.{Value, null, text, boolean, time, integer, str}
use go_dev_auth.Storage.Filter.{Record, Where, field, w}
use go_dev_auth.Storage.Schema.{Table}
use go_dev_auth.Memory.Updates.{update_spec}
use go_dev_auth.Session.{User, Session, SessionError, rejected, Plugin, user_from_map}

-- `Options`; a duration of 0 stands for none.
pub record Options : Type 0 where
  pub default_role : String
  pub admin_roles : List String
  pub roles : List String
  pub admin_user_ids : List String
  pub impersonation_duration : ℕ
  pub default_ban_reason : String
  pub default_ban_expires_in : ℕ
  pub banned_user_message : String
  pub allow_impersonating_admins : Bool

or_else : String → String → String
or_else s default = if str_eq s "" then default else s

-- `New`
unfoldable pub new : Options → Options
unfolding or_else
new o = record o {
  default_role = or_else o.default_role "user";
  admin_roles = elim o.admin_roles [ [] ↦ "admin" ∷ [] | r ∷ rs ↦ r ∷ rs ];
  impersonation_duration =
      if o.impersonation_duration == 0 then 3600 * 10 ^ 9 else o.impersonation_duration;
  default_ban_reason = or_else o.default_ban_reason "No reason";
  banned_user_message =
      or_else o.banned_user_message
        "You have been banned from this application. Please contact support if you believe this is an error.";
}

-- The test on `banExpires`: a time other than the zero time, before now.
unfoldable pub ban_over : Option Value → ℕ → Bool
ban_over (some (time t)) now = not (t == 0) && ltb t now
ban_over (some null) now = false
ban_over (some (text s)) now = false
ban_over (some (boolean b)) now = false
ban_over (some (integer k n)) now = false
ban_over none now = false

-- The flag `banned`: absent or null is no ban, and what is no flag is one.
unfoldable pub ban_flag : Option Value → Bool
ban_flag none = false
ban_flag (some null) = false
ban_flag (some (boolean b)) = b
ban_flag (some (text s)) = true
ban_flag (some (integer k n)) = true
ban_flag (some (time t)) = true

unfoldable pub is_flag : Option Value → Bool
is_flag (some (boolean b)) = true
is_flag (some null) = false
is_flag (some (text s)) = false
is_flag (some (integer k n)) = false
is_flag (some (time t)) = false
is_flag none = false

-- Whether `isBanned` finds a ban that is over, which it lifts.
unfoldable pub ban_lifted : User → ℕ → Bool
unfolding lookup ban_flag ban_over is_flag
ban_lifted user now =
    is_flag (lookup "banned" user.extra)
    && ban_flag (lookup "banned" user.extra)
    && ban_over (lookup "banExpires" user.extra) now

-- `isBanned`: its answer.
unfoldable pub is_banned : User → ℕ → Bool
unfolding lookup ban_flag ban_lifted
is_banned user now = ban_flag (lookup "banned" user.extra) && not (ban_lifted user now)

abbrev pub by_id : String → List Where
by_id id = w "id" (text id) ∷ []

-- `UpdateUserRecord`, with its time of the update.
unfoldable pub update_user :
    Option Table → ℕ → String → Record → List Record → Result AdapterError User × List Record
unfolding insert user_from_map update_spec
update_user t now id update users =
    let (r, users') = update_spec t (by_id id) (insert "updatedAt" (time now) update) users in
    (elim r [ err e ↦ err e | ok rec ↦ ok (user_from_map rec) ], users')

abbrev pub unban : Record
unban = ("banned", boolean false) ∷ ("banReason", text "") ∷ ("banExpires", time 0) ∷ []

-- `isBanned`: the users that it leaves.
unfoldable pub lift_ban : Option Table → User → ℕ → List Record → List Record
unfolding ban_lifted update_user
lift_ban t user now users =
    if ban_lifted user now then (update_user t now user.id unban users).1 else users

-- `BeforeSignIn` and `CheckSession`, as the guards of a plugin.
unfoldable pub before_sign_in : Options → ℕ → User → Result SessionError Bool
unfolding is_banned
before_sign_in opts now user =
    if is_banned user now then err (rejected opts.banned_user_message) else ok false

unfoldable pub check_session : Options → ℕ → Session → User → Option SessionError
unfolding is_banned
check_session opts now s user =
    if is_banned user now then some (rejected opts.banned_user_message) else none

abbrev pub plugin : Options → ℕ → Plugin
plugin opts now = record {
  id = "admin";
  before_sign_in = some (before_sign_in opts now);
  check_session = some (check_session opts now);
}

unfoldable pub member : String → List String → Bool
member s [] = false
member s (t ∷ ts) = str_eq t s || member s ts

-- Whether one part of a role, trimmed, is a role of an administrator.
names_admin : List ℕ → List String → Bool
unfolding codes_eq
names_admin r [] = false
names_admin r (a ∷ admins) = codes_eq r (codes a) || names_admin r admins

any_admin : List String → List String → Bool
unfolding names_admin trim_space
any_admin [] admins = false
any_admin (r ∷ rs) admins = names_admin (trim_space (codes r)) admins || any_admin rs admins

-- `IsAdmin`
unfoldable pub is_admin : Options → User → Bool
unfolding member str field split any_admin
is_admin opts user =
    member user.id opts.admin_user_ids
    || any_admin (split b',' (str (field user.extra "role"))) opts.admin_roles

pub data AdminError : Type 0 where
  unauthenticated : SessionError → AdminError
  not_allowed not_allowed_while_impersonating invalid_role invalid_email : AdminError
  invalid_body user_not_found user_already_exists : AdminError
  cannot_ban_yourself cannot_remove_yourself cannot_impersonate_admin not_impersonating : AdminError
  password_too_short password_too_long search_too_long invalid_filter_field no_hash : AdminError
  storage_failed : AdapterError → AdminError

-- `sd.Session.Extra["impersonatedBy"]`, "" where it is no text.
abbrev pub impersonator : Session → String
impersonator s = str (field s.extra "impersonatedBy")

-- `requireAdmin`, on what `RequireSession` answers.
unfoldable pub require_admin :
    Options → Result SessionError (Session × User) → Result AdminError (Session × User)
unfolding is_admin str field
require_admin opts (err e) = err (unauthenticated e)
require_admin opts (ok (s, user)) =
    if not (is_admin opts user)
    then err not_allowed
    else if not (str_eq (impersonator s) "")
    then err not_allowed_while_impersonating
    else ok (s, user)

-- `validateRole`
unfoldable pub validate_role : Options → String → Result AdminError Bool
unfolding member
validate_role opts role = elim opts.roles [
  | [] ↦ ok true
  | r ∷ rs ↦
      if str_eq role opts.default_role || member role opts.admin_roles || member role (r ∷ rs)
      then ok true
      else err invalid_role
]

-- `mapUserWriteError`
unfoldable pub map_user_write_error : AdapterError → AdminError
map_user_write_error not_found = user_not_found
map_user_write_error unique_violation = user_already_exists
map_user_write_error e = storage_failed e

-- `strings.LastIndex`: what stands in front of the last such code, and behind it.
last_cut : ℕ → List ℕ → Option (List ℕ × List ℕ)
last_cut sep [] = none
last_cut sep (c ∷ s) = elim (last_cut sep s) [
  | some (front, back) ↦ some (c ∷ front, back)
  | none ↦ if c == sep then some ([], s) else none
]

blank : List ℕ → Bool
blank [] = false
blank (c ∷ s) = c == 32 || c == 9 || c == 13 || c == 10 || blank s

valid_parts : List ℕ × List ℕ → Bool
unfolding contains codes_eq
valid_parts (front, domain) =
    not (length front == 0)
    && not (length domain == 0)
    && (contains domain (b'.' ∷ []) || codes_eq domain (codes "localhost"))

-- `validateEmail`
unfoldable pub validate_email : String → Result AdminError Bool
unfolding trim_space last_cut blank valid_parts
validate_email email =
    let s = trim_space (codes email) in
    elim (last_cut b'@' s) [
      | none ↦ err invalid_email
      | some parts ↦
          if ltb (length s) 3 || ltb 254 (length s) || blank s || not (valid_parts parts)
          then err invalid_email
          else ok true
    ]

checked_text :
    (String → Result AdminError Bool) → AdminError → Option Value → Result AdminError Bool
checked_text check e none = ok true
checked_text check e (some (text s)) = check s
checked_text check e (some null) = err e
checked_text check e (some (boolean b)) = err e
checked_text check e (some (integer k n)) = err e
checked_text check e (some (time t)) = err e

-- `validateUserData`
unfoldable pub validate_user_data : Options → Record → Result AdminError Bool
unfolding checked_text lookup validate_email validate_role
validate_user_data opts data' =
    checked_text validate_email invalid_email (lookup "email" data') >>= λ done.
    checked_text (validate_role opts) invalid_role (lookup "role" data')
