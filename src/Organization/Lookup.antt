-- ===== src/Organization/Lookup.antt =====
-- What the lookups within an organization find.
use go_dev_auth.Prelude.{
  ◌≡◌, ◌⊎◌, inl, inr, String, Option, some, [], ◌∷◌, arith, Bool-cases, Option-cases, ap, sym,
  subst, ◌∙◌,
}
use go_dev_auth.Prelude.Result.{Result, ok}
use go_dev_auth.Storage.Contract.{first}
use go_dev_auth.Storage.Value.{text, str}
use go_dev_auth.Storage.Value.Laws.{equal-text_iff}
use go_dev_auth.Storage.Filter.{Record, field, matches}
use go_dev_auth.Storage.Filter.Laws.{matches-pair}
use go_dev_auth.Organization.{
  Members, Member, Refusal, in_organization, membership, member_from_map, find_member,
}

some_inj : {q r : Record} → some q ≡ some r → q ≡ r
some_inj e = cc

ok_inj : {a b : Member} → ◌≡◌ {A = Result Refusal Member} (ok a) (ok b) → a ≡ b
ok_inj e = cc

-- What is found within an organization belongs to it, and holds the value that was looked for.
first-in_organization :
    (org name value : String) (rows : Members) (r : Record)
    → first (in_organization org name value) rows ≡ some r
    → (str (field r "organizationId") ≡ org) × (str (field r name) ≡ value)
unfolding first str
first-in_organization org name value [] r h = absurd (cc)
first-in_organization org name value (q ∷ rows) r h =
    elim (Bool-cases (matches q (in_organization org name value))) [
      | inr e ↦ first-in_organization org name value rows r (rw e at h)
      | inl e ↦
          let same : q ≡ r = some_inj (rw e at h) in
          let both = sym (matches-pair q "organizationId" name (text org) (text value)) ∙ e in
          let org_held : field q "organizationId" ≡ text org =
            (equal-text_iff (field q "organizationId") org).0 (ground (arith, both)) in
          let held : field q name ≡ text value =
            (equal-text_iff (field q name) value).0 (ground (arith, both)) in
          subst (λ x. (str (field x "organizationId") ≡ org) × (str (field x name) ≡ value)) same
            (ap str org_held, ap str held)
    ]

pub membership-found :
    (org user : String) (rows : Members) (r : Record)
    → membership org user rows ≡ some r
    → ((member_from_map r).organization_id ≡ org) × ((member_from_map r).user_id ≡ user)
unfolding membership member_from_map str
membership-found org user rows r h = first-in_organization org "userId" user rows r h

-- The member with the id, or the membership of the user with the address, within the organization.
abbrev pub IsNamed : (String → Option String) → String → String → Member → Type 0
IsNamed user_of org key m =
    (m.organization_id ≡ org)
    × ((m.id ≡ key) ⊎ ((user : String) × (user_of key ≡ some user) × (m.user_id ≡ user)))

pub find_member-IsNamed :
    (user_of : String → Option String) (org key : String) (rows : Members) (out : Member)
    → find_member user_of org key rows ≡ ok out
    → IsNamed user_of org key out
unfolding find_member member_from_map str
find_member-IsNamed user_of org key rows out h =
    elim (Option-cases (first (in_organization org "id" key) rows)) [
      | inr (r, e) ↦
          let same : member_from_map r ≡ out = ok_inj (rw (e, find_member) at h) in
          let (inside, named) = first-in_organization org "id" key rows r e in
          subst (IsNamed user_of org key) same (inside, inl named)
      | inl e ↦ elim (Option-cases (user_of key)) [
        | inl f ↦ absurd (cc (rw (e, f, find_member) at h))
        | inr (user, f) ↦ elim (Option-cases (membership org user rows)) [
          | inl g ↦ absurd (cc (rw (e, f, g, find_member) at h))
          | inr (r, g) ↦
              let same : member_from_map r ≡ out = ok_inj (rw (e, f, g, find_member) at h) in
              let (inside, named) = membership-found org user rows r g in
              subst (IsNamed user_of org key) same (inside, inr (user, f, named))
        ]
      ]
    ]
