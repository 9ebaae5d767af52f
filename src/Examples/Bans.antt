-- ===== src/Examples/Bans.antt =====
-- Bans and impersonations on small tables.
use go_dev_auth.Prelude.{
  ℕ, length, ◌≤◌, ◌+◌, ◌*◌, ◌^◌, ◌≡◌, ◌≢◌, ◌⊎◌, refl, false, true, none, some, List, [], ◌∷◌, pos,
}
use go_dev_auth.Prelude.Assoc.{lookup, insert, merge, ne_of_str_eq}
use go_dev_auth.Prelude.Result.{Result, ok}
use go_dev_auth.Prelude.Split.{split}
use go_dev_auth.Prelude.Text.{codes_eq, trim_space}
use go_dev_auth.Storage.Value.{text, boolean, time, equal, str}
use go_dev_auth.Storage.Filter.{Record, field, matches, match_one}
use go_dev_auth.Storage.Contract.{first, update_first}
use go_dev_auth.Memory.Operations.{filterable, writable}
use go_dev_auth.Memory.Index.{skipped, unique_of, key, violates_composite}
use go_dev_auth.Memory.Refines.{refused}
use go_dev_auth.Memory.Updates.{update_spec}
use go_dev_auth.Session.{
  User, Session, Config, user_from_map, session_from_map, get_session_from_token, create_session,
  refresh_due,
}
use go_dev_auth.Admin.{
  by_id, Options, AdminError, new, is_admin, is_banned, ban_over, member, update_user,
  check_session, plugin,
}
use go_dev_auth.Admin.Handlers.{
  Instance, State, Outcome, Ticket, role_set, impersonation_stopped, perform, ban_user, impersonate,
  write, revoked, ban_of, ban_expiry, open_session,
}
use go_dev_auth.Admin.Authority.{IsRefused, IsOwn, IsEnd, perform-IsAuthorized}
use go_dev_auth.Admin.Impersonation.{lifetime, impersonate-IsConfined}
use go_dev_auth.Admin.Listing.{Query, list_users, list_users-length}
use go_dev_auth.Admin.Bans.{ban_end, ban_user-IsOut}

-- The plugin with every option left out.
abbrev options : Options
options = new (record {
  default_role = "";
  admin_roles = [];
  roles = [];
  admin_user_ids = [];
  impersonation_duration = 0;
  default_ban_reason = "";
  default_ban_expires_in = 0;
  banned_user_message = "";
  allow_impersonating_admins = false;
})

abbrev second : Config
second = record {
  expires_in = 7 * 86400 * 10 ^ 9;
  update_age = 86400 * 10 ^ 9;
  fresh_age = 0;
  disable_refresh = false;
  plugins = plugin options (10 ^ 20 + 1) ∷ [];
}

abbrev instance_of : Instance
instance_of = record { options = options; users = none; config = second }

-- An administrator, and a user whose ban has ended.
abbrev root : Record
root = ("id", text "r") ∷ ("role", text "user, admin") ∷ []

abbrev ban_over_user : Record
ban_over_user = ("id", text "u") ∷ ("banned", boolean true) ∷ ("banExpires", time (10 ^ 19)) ∷ []

abbrev mine : Session
mine = session_from_map (("id", text "s") ∷ ("userId", text "r") ∷ [])

abbrev tables : State
tables = record { users = root ∷ ban_over_user ∷ []; sessions = [] }

perform-IsAuthorized_example :
    IsRefused tables
      (perform instance_of (10 ^ 20) (ok (mine, user_from_map root)) (role_set "u" "admin") tables)
    ⊎ (IsOwn options (ok (mine, user_from_map root))
        ⊎ IsEnd (ok (mine, user_from_map root)) (role_set "u" "admin"))
perform-IsAuthorized_example =
    perform-IsAuthorized instance_of (10 ^ 20) (ok (mine, user_from_map root))
      (role_set "u" "admin") tables

-- The users behind an hour's ban, with the answer.
abbrev hour : Result AdminError Outcome × State
hour = ban_user instance_of (10 ^ 20) "u" "" (some (pos 3600)) (mine, user_from_map root) tables

hour-ok : (out : Outcome) × (hour.0 ≡ ok out)
unfolding ban_user revoked write ban_of ban_expiry update_user update_spec filterable writable
    refused first update_first matches match_one equal field lookup merge insert user_from_map str
    new skipped unique_of key violates_composite
hour-ok = (_, refl)

-- A session of the administrator.
abbrev held : Record
held =
    ("id", text "s")
    ∷ ("userId", text "r")
    ∷ ("token", text "k")
    ∷ ("expiresAt", time (2 * 10 ^ 20))
    ∷ []

held-resolved :
    (get_session_from_token second hour.1.users "k" (10 ^ 20 + 1) (held ∷ [])).0
    ≡ ok (session_from_map held, user_from_map root)
unfolding get_session_from_token ban_user revoked write ban_of ban_expiry update_user update_spec
    filterable writable refused first update_first matches match_one equal field lookup merge insert
    user_from_map session_from_map str new check_session is_banned skipped unique_of key
    violates_composite
held-resolved = refl

ban_user-IsOut_example : (user_from_map root).id ≢ "u"
ban_user-IsOut_example =
    ban_user-IsOut instance_of (10 ^ 20) (10 ^ 20 + 1) "u" "" (some (pos 3600))
      (mine, user_from_map root) tables hour-ok.0 ban_over_user second [] [] "k" (held ∷ [])
      (session_from_map held) (user_from_map root) hour-ok.1
      (unfold first matches match_one equal in refl) (unfold ban_end ban_expiry ban_over in refl)
      refl held-resolved

-- Without a duration of its own, a ban of a user whose last ban has run out ends at once.
banned_again :
    is_banned (user_from_map (merge (ban_of options (10 ^ 20) "" none) ban_over_user)) (10 ^ 20 + 1)
    ≡ false
unfolding is_banned ban_of ban_expiry merge insert user_from_map lookup new
banned_again = refl

-- A ban of more seconds than fit into a duration ends before it begins.
banned_long :
    is_banned
      (user_from_map (merge (ban_of options (10 ^ 20) "" (some (pos (10 ^ 10)))) root))
      (10 ^ 20 + 1)
    ≡ false
unfolding is_banned ban_of ban_expiry merge insert user_from_map lookup new
banned_long = refl

abbrev ticket : Ticket
ticket = record { id = "i"; token = "j"; ip_address = ""; user_agent = "" }

abbrev seen : Result AdminError Outcome × State
seen = impersonate instance_of (10 ^ 20) "u" ticket (mine, user_from_map root) tables

abbrev borrowed : Session
borrowed =
    (create_session second "i" "j" "u" "" "" (("impersonatedBy", text "r") ∷ []) (3600 * 10 ^ 9)
      (10 ^ 20) []).0

impersonate-IsConfined_example :
    ((r : Record) × (first (by_id "u") tables.users ≡ some r)
      × (user_from_map ban_over_user ≡ user_from_map r))
    × ((is_admin options (user_from_map ban_over_user) ≡ false)
        ⊎ (options.allow_impersonating_admins ≡ true))
    × (borrowed.user_id ≡ (user_from_map ban_over_user).id)
    × (borrowed.expires_at ≡ 10 ^ 20 + lifetime instance_of)
    × ((refresh_due second borrowed (10 ^ 20 + 10) ≡ false)
        ⊎ (second.expires_in ≤ lifetime instance_of + 10 ^ 9))
    × (IsRefused tables (
          perform instance_of
            (10 ^ 20 + 10)
            (ok (borrowed, user_from_map ban_over_user))
            (role_set "u" "admin")
            tables)
        ⊎ ((t : Ticket) × (role_set "u" "admin" ≡ impersonation_stopped t)))
impersonate-IsConfined_example =
    impersonate-IsConfined instance_of (10 ^ 20) (10 ^ 20 + 10) "u" ticket mine (user_from_map root)
      tables tables borrowed (user_from_map ban_over_user) (role_set "u" "admin")
      (unfold impersonate open_session create_session first matches match_one equal is_admin
          user_from_map new split trim_space codes_eq member in
        refl)
      (unfold user_from_map field lookup str in ne_of_str_eq "r" "" refl)

-- A query that states nothing.
abbrev unstated : Query
unstated = record {
  limit = "";
  offset = "";
  sort_by = "";
  sort_direction = "";
  search_value = "";
  search_field = "";
  search_operator = "";
  filter_value = "";
  filter_field = "";
}

listed_users :
    (out : List User) × ((total : ℕ) × (list_users none unstated tables.users ≡ ok (out, total)))
unfolding list_users
listed_users = (_, (_, refl))

list_users-length_example : length listed_users.0 ≤ 500
list_users-length_example =
    list_users-length none unstated tables.users listed_users.0 listed_users.1.0 listed_users.1.1
