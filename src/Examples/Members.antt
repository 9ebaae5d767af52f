-- ===== src/Examples/Members.antt =====
-- The members of an organization.
use go_dev_auth.Prelude.{◌≡◌, refl, ◌≢◌, ◌⊎◌, ◌<◌, ◌≤◌, String, none, some, [], ◌∷◌, arith}
use go_dev_auth.Prelude.Assoc.{lookup}
use go_dev_auth.Prelude.Result.{ok}
use go_dev_auth.Storage.Value.{text, equal}
use go_dev_auth.Storage.Filter.{Record, matches, match_one}
use go_dev_auth.Storage.Contract.{remove_first, select}
use go_dev_auth.Organization.{
  Members, Member, Session, role_owner, remove_member, leave, active_org, with_id, owners,
}
use go_dev_auth.Organization.Lookup.{IsNamed}
use go_dev_auth.Organization.Authority.{IsManager, remove_member_authority}
use go_dev_auth.Organization.Owners.{HasIds, holders, leave-owners}

abbrev membership_of : String → String → String → Record
membership_of id user role =
    ("id", text id)
    ∷ ("organizationId", text "o")
    ∷ ("userId", text user)
    ∷ ("role", text role)
    ∷ []

abbrev team : Members
team =
    membership_of "1" "ann" "owner"
    ∷ membership_of "2" "ben" "member"
    ∷ membership_of "3" "cid" "owner"
    ∷ []

abbrev ann : Session
ann = record { user_id = "ann"; active_organization = some "o" }

abbrev ben_member : Member
ben_member = record { id = "2"; organization_id = "o"; user_id = "ben"; role = "member" }

abbrev ann_member : Member
ann_member = record { id = "1"; organization_id = "o"; user_id = "ann"; role = "owner" }

removed : (remove_member (λ s. none) ann "" "2" team).0 ≡ ok ben_member
unfolding remove_member matches match_one equal
removed = refl

remove_member_authority_example :
    (actor : Member) × IsManager "o" ann team actor
    × IsNamed (λ s. none) "o" "2" ben_member
    × (ben_member.user_id ≢ ann.user_id)
    × ((ben_member.role ≢ role_owner) ⊎ (actor.role ≡ role_owner))
    × ((remove_member (λ s. none) ann "" "2" team).1 ≡ remove_first (with_id "2") team)
unfolding active_org
remove_member_authority_example =
    remove_member_authority (λ s. none) ann "" "2" team ben_member removed

left : (leave ann "" team).0 ≡ ok ann_member
unfolding leave matches match_one equal
left = refl

team-HasIds : HasIds team
unfolding lookup
team-HasIds = (("1", refl), (("2", refl), (("3", refl), tt)))

one_ann : holders "1" team ≤ 1
unfolding select matches match_one equal
one_ann = omega arith

two_owners : 0 < owners (active_org ann "") team
unfolding select active_org matches match_one equal
two_owners = omega arith

leave-owners_example : 0 < owners (active_org ann "") (leave ann "" team).1
leave-owners_example = leave-owners ann "" team ann_member team-HasIds one_ann two_owners left
