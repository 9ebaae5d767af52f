-- ===== src/Organization.antt =====
-- plugins/organization/: who may change the members of an organization.
-- The table of members is the list of its records, on which each adapter call does what the
-- interface promises; the calls report no failure of the database. The lookup of a user by address
-- is an argument. A handler returns its answer and the table that it leaves.
pub mod Lookup
pub mod Authority
pub mod Owners
use go_dev_auth.Prelude.{
  ℕ, String, Bool, true, false, not, ◌&&◌, ◌||◌, Option, none, some, List, [], ◌∷◌, ltb, leb,
  length, str_eq, if◌then◌else◌,
}
use go_dev_auth.Prelude.Result.{Result, ok, err, ◌>>=◌}
use go_dev_auth.Prelude.Assoc.{merge}
use go_dev_auth.Storage.Value.{Value, text, str}
use go_dev_auth.Storage.Filter.{Record, Where, field, w}
use go_dev_auth.Storage.Contract.{first, select, remove_first, update_first}

abbrev pub Members : Type 0
Members = List Record

abbrev pub role_owner : String
role_owner = "owner"

abbrev pub role_admin : String
role_admin = "admin"

abbrev pub role_member : String
role_member = "member"

pub data Refusal : Type 0 where
  not_a_member insufficient_permission no_active_organization member_not_found : Refusal
  cannot_remove_owner cannot_remove_yourself invalid_role only_owner not_found : Refusal

-- `Member`, without its time of creation
pub record Member : Type 0 where
  pub id : String
  pub organization_id : String
  pub user_id : String
  pub role : String

-- `memberFromMap`
abbrev pub member_from_map : Record → Member
unfolding str field
member_from_map r = record {
  id = str (field r "id");
  organization_id = str (field r "organizationId");
  user_id = str (field r "userId");
  role = str (field r "role");
}

-- What the handlers read of a session: its user, and the active organization.
pub record Session : Type 0 where
  pub user_id : String
  pub active_organization : Option String

abbrev pub in_organization : String → String → String → List Where
in_organization org name value = w "organizationId" (text org) ∷ w name (text value) ∷ []

abbrev pub with_id : String → List Where
with_id id = w "id" (text id) ∷ []

-- `Membership`
unfoldable pub membership : String → String → Members → Option Record
unfolding first
membership org user rows = first (in_organization org "userId" user) rows

-- `activeOrg`
unfoldable pub active_org : Session → String → String
active_org s explicit =
    if str_eq explicit "" then elim s.active_organization [ none ↦ "" | some v ↦ v ] else explicit

has_role : String → List String → Bool
has_role role [] = false
has_role role (r ∷ rs) = str_eq role r || has_role role rs

allowed_role : List String → Member → Result Refusal Member
unfolding has_role
allowed_role [] m = ok m
allowed_role (r ∷ rs) m = if has_role m.role (r ∷ rs) then ok m else err insufficient_permission

-- `requireRole`
unfoldable pub require_role : String → Session → List String → Members → Result Refusal Member
unfolding membership allowed_role
require_role org s roles rows = elim (membership org s.user_id rows) [
  | none ↦ err not_a_member
  | some r ↦ allowed_role roles (member_from_map r)
]

-- `findMember`: by id, or by the address of a user.
unfoldable pub find_member :
    (String → Option String) → String → String → Members → Result Refusal Member
unfolding first membership
find_member user_of org key rows = elim (first (in_organization org "id" key) rows) [
  | some r ↦ ok (member_from_map r)
  | none ↦ elim (user_of key) [
    | none ↦ err member_not_found
    | some user ↦ elim (membership org user rows) [
      | none ↦ err member_not_found
      | some r ↦ ok (member_from_map r)
    ]
  ]
]

managers : List String
managers = role_owner ∷ role_admin ∷ []

-- The checks of `handleRemoveMember` on the member to be removed.
removable : Session → Member → Member → Result Refusal Member
removable s actor target =
    if str_eq target.role role_owner && not (str_eq actor.role role_owner)
    then err cannot_remove_owner
    else if str_eq target.user_id s.user_id
    then err cannot_remove_yourself
    else ok target

-- The checks of `handleRemoveMember`, up to the delete.
unfoldable pub member_to_remove :
    (String → Option String) → Session → String → String → Members → Result Refusal Member
unfolding active_org require_role find_member removable managers
member_to_remove user_of s body_org key rows =
    let org = active_org s body_org in
    if str_eq org ""
    then err no_active_organization
    else require_role org s managers rows
      >>= (λ actor. find_member user_of org key rows >>= (λ target. removable s actor target))

-- `handleRemoveMember`
unfoldable pub remove_member :
    (String → Option String) → Session → String → String → Members → Result Refusal Member × Members
unfolding member_to_remove remove_first
remove_member user_of s body_org key rows = elim (member_to_remove user_of s body_org key rows) [
  | err e ↦ (err e, rows)
  | ok target ↦ (ok target, remove_first (with_id target.id) rows)
]

unfoldable pub known_role : String → Bool
known_role role = str_eq role role_owner || (str_eq role role_admin || str_eq role role_member)

unfoldable pub member_with_id : String → String → Members → Result Refusal Member
unfolding first
member_with_id org id rows = elim (first (in_organization org "id" id) rows) [
  | none ↦ err member_not_found
  | some r ↦ ok (member_from_map r)
]

changeable : String → Member → Member → Result Refusal Member
changeable role actor target =
    if (str_eq target.role role_owner || str_eq role role_owner)
      && not (str_eq actor.role role_owner)
    then err insufficient_permission
    else ok target

-- The checks of `handleUpdateMemberRole`, up to the update.
unfoldable pub member_to_change :
    Session → String → String → String → Members → Result Refusal Member
unfolding known_role active_org require_role member_with_id changeable managers
member_to_change s body_org id role rows =
    let org = active_org s body_org in
    if not (known_role role)
    then err invalid_role
    else if str_eq org ""
    then err no_active_organization
    else require_role org s managers rows
      >>= (λ actor. member_with_id org id rows >>= (λ target. changeable role actor target))

-- The update of one record, with the record that it leaves.
set_role : String → String → Members → Result Refusal Member × Members
unfolding first update_first merge
set_role id role rows = elim (first (with_id id) rows) [
  | none ↦ (err not_found, rows)
  | some r ↦ (
    ok (member_from_map (merge (("role", text role) ∷ []) r)),
    update_first (with_id id) (("role", text role) ∷ []) rows,
  )
]

-- `handleUpdateMemberRole`
unfoldable pub update_member_role :
    Session → String → String → String → Members → Result Refusal Member × Members
unfolding member_to_change set_role
update_member_role s body_org id role rows = elim (member_to_change s body_org id role rows) [
  | err e ↦ (err e, rows)
  | ok target ↦ set_role target.id role rows
]

-- How many owners an organization has.
abbrev pub owners : String → Members → ℕ
owners org rows = length (select (in_organization org "role" role_owner) rows)

may_leave : String → Member → Members → Result Refusal Member
unfolding select
may_leave org m rows =
    if str_eq m.role role_owner && leb (owners org rows) 1 then err only_owner else ok m

member_of : Option Record → Result Refusal Member
member_of none = err not_a_member
member_of (some r) = ok (member_from_map r)

-- `setActiveOrganization`, on the session that the request reads
abbrev set_active_organization : Session → String → Session
set_active_organization s org = record s { active_organization = some org }

-- `handleLeave`: the answer, the table, and the session, which has no active organization then.
unfoldable pub leave : Session → String → Members → Result Refusal Member × Members × Session
unfolding active_org membership may_leave member_of remove_first
leave s body_org rows =
    let org = active_org s body_org in
    if str_eq org ""
    then (err no_active_organization, rows, s)
    else elim (member_of (membership org s.user_id rows) >>= (λ m. may_leave org m rows)) [
      | err e ↦ (err e, rows, s)
      | ok m ↦ (ok m, remove_first (with_id m.id) rows, set_active_organization s "")
    ]
