-- ===== src/Examples/Sessions.antt =====
-- Sessions on small tables.
use go_dev_auth.Prelude.{
  ◌+◌, ◌*◌, ◌^◌, ◌≡◌, refl, Bool, true, false, Option, none, some, List, [], ◌∷◌, All, arith,
}
use go_dev_auth.Prelude.Assoc.{lookup, insert}
use go_dev_auth.Prelude.Result.{Result, ok, err}
use go_dev_auth.Storage.Value.{text, boolean, equal}
use go_dev_auth.Storage.Filter.{Record, matches, match_one}
use go_dev_auth.Storage.Contract.{select, first}
use go_dev_auth.Session.{
  User, Session, SessionError, no_session, Plugin, Config, user_fields, session_fields, is_core,
  user_to_map, user_from_map, session_to_map, session_from_map, get_session_from_token,
  revoke_session, run_sign_in_guards, run_sign_in_guards_after,
}
use go_dev_auth.Session.Model.{IsExtra, from_map-to_map}
use go_dev_auth.Session.Lifetime.{
  IsResolved, get_session_from_token-IsResolved, get_session_from_token-revoked,
}
use go_dev_auth.Session.Guards.{IsCleared, run_sign_in_guards_after-IsCleared}

abbrev ada : User
ada = record {
  id = "u";
  name = "Ada";
  email = "ada@example.org";
  email_verified = true;
  image = "";
  created_at = 10;
  updated_at = 20;
  extra = ("role", text "admin") ∷ ("banned", boolean false) ∷ [];
}

-- A session of ten seconds, made at time 10.
abbrev visit : Session
visit = record {
  id = "s";
  user_id = "u";
  token = "t";
  expires_at = 10 * 10 ^ 9 + 10;
  ip_address = "";
  user_agent = "";
  created_at = 10;
  updated_at = 10;
  extra = ("impersonatedBy", text "") ∷ [];
}

ada-IsExtra : IsExtra user_fields ada.extra
unfolding is_core lookup
ada-IsExtra = (refl, refl, (refl, refl, tt))

visit-IsExtra : IsExtra session_fields visit.extra
unfolding is_core lookup
visit-IsExtra = (refl, refl, tt)

from_map-to_map_example :
    (user_from_map (user_to_map ada) ≡ ada) × (session_from_map (session_to_map visit) ≡ visit)
from_map-to_map_example = from_map-to_map ada visit ada-IsExtra visit-IsExtra

abbrev allows : Session → User → Option SessionError
allows s user = none

abbrev passes : User → Result SessionError Bool
passes user = ok false

abbrev challenges : User → Result SessionError Bool
challenges user = ok true

abbrev factor : Plugin
factor = record { id = "two-factor"; before_sign_in = some challenges; check_session = none }

abbrev admin : Plugin
admin = record { id = "admin"; before_sign_in = some passes; check_session = some allows }

abbrev device : Plugin
device = record { id = "device"; before_sign_in = some passes; check_session = none }

abbrev config : Config
config = record {
  expires_in = 10 * 10 ^ 9;
  update_age = 10 ^ 9;
  fresh_age = 0;
  disable_refresh = false;
  plugins = admin ∷ factor ∷ device ∷ [];
}

abbrev users : List Record
users = user_to_map ada ∷ []

abbrev sessions : List Record
sessions = session_to_map visit ∷ []

run_sign_in_guards_after-IsCleared_example : All (IsCleared ada) (admin ∷ device ∷ [])
run_sign_in_guards_after-IsCleared_example =
    run_sign_in_guards_after-IsCleared (admin ∷ []) (device ∷ []) factor ada (refl, tt)
      (unfold run_sign_in_guards in refl) (unfold run_sign_in_guards_after in refl)

-- Two seconds after it was made, the session is extended.
abbrev extended : Session
extended = record visit { expires_at = 12 * 10 ^ 9 + 10; updated_at = 2 * 10 ^ 9 + 10 }

get_session_from_token-IsResolved_example :
    IsResolved config users "t" (2 * 10 ^ 9 + 10) sessions (extended, ada)
get_session_from_token-IsResolved_example =
    get_session_from_token-IsResolved config users "t" (2 * 10 ^ 9 + 10) sessions extended ada (
      unfold get_session_from_token insert session_to_map user_to_map first matches match_one
        equal in
      refl)

get_session_from_token-revoked_example :
    (get_session_from_token config users "t" (11 * 10 ^ 9) sessions
      ≡ (err no_session, revoke_session "t" sessions))
    × (get_session_from_token config users "t" (12 * 10 ^ 9) (revoke_session "t" sessions)
        ≡ (err no_session, revoke_session "t" sessions))
get_session_from_token-revoked_example =
    get_session_from_token-revoked config users "t" (11 * 10 ^ 9) (12 * 10 ^ 9) sessions
      (session_to_map visit) (unfold select matches match_one equal insert session_to_map in refl)
      (unfold session_from_map insert session_to_map in omega arith)
