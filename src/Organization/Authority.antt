-- ===== src/Organization/Authority.antt =====
-- Who may remove a member or change a role.
use go_dev_auth.Prelude.{
  ◌≡◌, ◌≢◌, ◌⊎◌, inl, inr, String, Option, some, arith, eq_iff, str_eq, Bool-cases, Option-cases,
  ap, sym, subst, ◌∙◌,
}
use go_dev_auth.Prelude.Result.{ok, >>=-eq-ok, Result-cases}
use go_dev_auth.Storage.Contract.{remove_first}
use go_dev_auth.Storage.Filter.{Record}
use go_dev_auth.Organization.Lookup.{IsNamed, membership-found, find_member-IsNamed}
use go_dev_auth.Organization.{
  Members, Member, Session, role_owner, role_admin, membership, member_from_map, active_org,
  require_role, allowed_role, managers, find_member, removable, member_to_remove, remove_member,
  with_id,
}

-- The session's user is a member of the organization with this membership, as owner or admin.
pub record IsManager (org : String) (s : Session) (rows : Members) (actor : Member) : Type 0 where
  pub row : Record
  pub found : membership org s.user_id rows ≡ some row
  pub same : actor ≡ member_from_map row
  pub inside : actor.organization_id ≡ org
  pub own : actor.user_id ≡ s.user_id
  pub manages : (actor.role ≡ role_owner) ⊎ (actor.role ≡ role_admin)

allowed_role_lem :
    (m actor : Member)
    → allowed_role managers m ≡ ok actor
    → (actor ≡ m) × ((actor.role ≡ role_owner) ⊎ (actor.role ≡ role_admin))
unfolding allowed_role managers
allowed_role_lem m actor h = elim (Bool-cases (str_eq m.role role_owner)) [
  | inl e ↦
      let same : actor ≡ m = ground arith in
      (same, inl (ap (λ (x : Member). x.role) same ∙ (eq_iff m.role role_owner).0 e))
  | inr e ↦ elim (Bool-cases (str_eq m.role role_admin)) [
    | inl f ↦
        let same : actor ≡ m = ground arith in
        (same, inr (ap (λ (x : Member). x.role) same ∙ (eq_iff m.role role_admin).0 f))
    | inr f ↦ absurd (ground arith)
  ]
]

require_role-IsManager :
    (org : String) (s : Session) (rows : Members) (actor : Member)
    → require_role org s managers rows ≡ ok actor
    → IsManager org s rows actor
unfolding require_role
require_role-IsManager org s rows actor h = elim (Option-cases (membership org s.user_id rows)) [
  | inl e ↦ absurd (ground arith)
  | inr (r, e) ↦
      let (same, manages) =
        allowed_role_lem (member_from_map r) actor (rw (e, require_role) at h) in
      let (inside, own) = membership-found org s.user_id rows r e in
      record {
        row = r;
        found = e;
        same = same;
        inside = ap (λ (m : Member). m.organization_id) same ∙ inside;
        own = ap (λ (m : Member). m.user_id) same ∙ own;
        manages = manages;
      }
]

removable_lem :
    (s : Session) (actor target out : Member)
    → removable s actor target ≡ ok out
    → (out ≡ target)
      × (target.user_id ≢ s.user_id)
      × ((target.role ≢ role_owner) ⊎ (actor.role ≡ role_owner))
unfolding removable
removable_lem s actor target out h = (
  ground arith,
  ground (arith, eq_iff target.user_id s.user_id),
  ground (arith, eq_iff target.role role_owner, eq_iff actor.role role_owner),
)

member_to_remove_lem :
    (user_of : String → Option String) (s : Session) (body_org key : String) (rows : Members)
    (out : Member)
    → member_to_remove user_of s body_org key rows ≡ ok out
    → (actor : Member) × IsManager (active_org s body_org) s rows actor
      × IsNamed user_of (active_org s body_org) key out
      × (out.user_id ≢ s.user_id)
      × ((out.role ≢ role_owner) ⊎ (actor.role ≡ role_owner))
unfolding member_to_remove
member_to_remove_lem user_of s body_org key rows out h =
    elim (Bool-cases (str_eq (active_org s body_org) "")) [
      | inl e ↦ absurd (ground arith)
      | inr e ↦
          let (actor, a, rest) =
            >>=-eq-ok (require_role (active_org s body_org) s managers rows) _
              (rw (e, member_to_remove) at h) in
          let (target, b, last) =
            >>=-eq-ok (find_member user_of (active_org s body_org) key rows) _ rest in
          let (same, other, owner) = removable_lem s actor target out last in
          (
            actor,
            require_role-IsManager (active_org s body_org) s rows actor a,
            subst (IsNamed user_of (active_org s body_org) key) (sym same)
                (find_member-IsNamed user_of (active_org s body_org) key rows target b),
            rw same other,
            rw same owner,
          )
    ]

-- A removal that succeeds was asked for by an owner or admin of the organization that the request is
-- about, whose membership in it is that of the session's user. The removed member belongs to the same
-- organization, and has the id that was given or is the user with the address that was given; it is
-- somebody else, and an owner only if an owner asks. Exactly the first record with its id is gone.
pub remove_member_authority :
    (user_of : String → Option String) (s : Session) (body_org key : String) (rows : Members)
    (target : Member)
    → (remove_member user_of s body_org key rows).0 ≡ ok target
    → (actor : Member) × IsManager (active_org s body_org) s rows actor
      × IsNamed user_of (active_org s body_org) key target
      × (target.user_id ≢ s.user_id)
      × ((target.role ≢ role_owner) ⊎ (actor.role ≡ role_owner))
      × ((remove_member user_of s body_org key rows).1 ≡ remove_first (with_id target.id) rows)
unfolding remove_member
remove_member_authority user_of s body_org key rows target h =
    elim (Result-cases (member_to_remove user_of s body_org key rows)) [
      | inr (e, f) ↦ absurd (ground arith)
      | inl (m, f) ↦
          let same : m ≡ target = ground arith in
          let (actor, manager, named, other, owner) =
            member_to_remove_lem user_of s body_org key rows target (f ∙ ap ok same) in
          (actor, manager, named, other, owner, ground (arith, same, f))
    ]
