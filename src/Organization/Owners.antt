-- ===== src/Organization/Owners.antt =====
-- An organization is not left without an owner.
use go_dev_auth.Prelude.{
  ℕ, ◌+◌, ◌≤◌, ◌<◌, ◌≡◌, refl, ◌≢◌, ◌⊎◌, inl, inr, String, true, false, some, List, [], ◌∷◌, arith,
  eq_iff, str_eq, Bool-cases, Option-cases, ap, sym, ◌∙◌, All, length, subst,
}
use go_dev_auth.Prelude.Assoc.{lookup}
use go_dev_auth.Prelude.Result.{ok, Result-cases}
use go_dev_auth.Storage.Contract.{first, select, remove_first}
use go_dev_auth.Storage.Value.{text, str, equal}
use go_dev_auth.Storage.Value.Laws.{equal-text_iff}
use go_dev_auth.Storage.Filter.{Record, Where, matches, field}
use go_dev_auth.Storage.Filter.Laws.{matches-w_text, matches-pair}
use go_dev_auth.Organization.{
  Members, Member, Session, role_owner, membership, member_from_map, active_org, with_id, owners,
  may_leave, member_of, leave, in_organization,
}

-- Each membership has an id, which no other has.
abbrev pub HasIds : Members → Type 0
HasIds = All (λ r. (i : String) × (lookup "id" r ≡ some (text i)))

abbrev pub holders : String → Members → ℕ
holders i rows = length (select (with_id i) rows)

holders-pos :
    (cs : List Where) (rows : Members) (r : Record) (i : String)
    → first cs rows ≡ some r
    → matches r (with_id i) ≡ true
    → 0 < holders i rows
unfolding first select
holders-pos cs [] r i h m = absurd (cc)
holders-pos cs (q ∷ rows) r i h m = ground (arith, holders-pos cs rows r i)

-- A record that some filter finds is also the one found by its id.
first-with_id :
    (cs : List Where) (rows : Members) (r : Record) (i : String)
    → first cs rows ≡ some r
    → matches r (with_id i) ≡ true
    → holders i rows ≤ 1
    → first (with_id i) rows ≡ some r
unfolding first select
first-with_id cs [] r i h m one = absurd (cc)
first-with_id cs (q ∷ rows) r i h m one =
    ground (arith, holders-pos cs rows r i, first-with_id cs rows r i)

-- A removal takes away at most one owner, and none if the record is no owner's.
owners-remove_first :
    (cs ds : List Where) (rows : Members)
    → length (select cs rows) ≤ length (select cs (remove_first ds rows)) + 1
unfolding select remove_first
owners-remove_first cs ds [] = omega arith
owners-remove_first cs ds (q ∷ rows) = ground (arith, owners-remove_first cs ds rows)

owners-remove_other :
    (cs ds : List Where) (rows : Members) (r : Record)
    → first ds rows ≡ some r
    → matches r cs ≡ false
    → length (select cs (remove_first ds rows)) ≡ length (select cs rows)
unfolding select first remove_first
owners-remove_other cs ds [] r h m = refl
owners-remove_other cs ds (q ∷ rows) r h m = ground (arith, owners-remove_other cs ds rows r)

field_text : (r : Record) (f i : String) → lookup f r ≡ some (text i) → str (field r f) ≡ i
unfolding field str
field_text r f i e = rw (e, field, str)

has_id :
    (r : Record) (i : String)
    → lookup "id" r ≡ some (text i)
    → matches r (with_id (str (field r "id"))) ≡ true
has_id r i e =
    let same : str (field r "id") ≡ i = field_text r "id" i e in
    (matches-w_text r "id" (str (field r "id"))).1 (e ∙ ap (λ t. some (text t)) (sym same))

id_of :
    (cs : List Where) (rows : Members) (r : Record)
    → HasIds rows
    → first cs rows ≡ some r
    → matches r (with_id (str (field r "id"))) ≡ true
unfolding first
id_of cs [] r ids h = absurd (cc)
id_of cs (q ∷ rows) r ((i, e), ids) h = elim (Bool-cases (matches q cs)) [
  | inl m ↦
      let same : q ≡ r = ground arith in
      has_id r i (subst (λ (x : Record). lookup "id" x ≡ some (text i)) same e)
  | inr m ↦ id_of cs rows r ids (ground arith)
]

not_owner :
    (org : String) (r : Record)
    → str (field r "role") ≢ role_owner
    → matches r (in_organization org "role" role_owner) ≡ false
unfolding str
not_owner org r h = elim (Bool-cases (equal (field r "role") (text role_owner))) [
  | inl e ↦ absurd (h (ap str ((equal-text_iff (field r "role") role_owner).0 e)))
  | inr e ↦ ground (arith, matches-pair r "organizationId" "role" (text org) (text role_owner))
]

may_leave_lem :
    (org : String) (m out : Member) (rows : Members)
    → may_leave org m rows ≡ ok out
    → (out ≡ m) × ((m.role ≢ role_owner) ⊎ (1 < owners org rows))
unfolding may_leave
may_leave_lem org m out rows h = (ground arith, ground (arith, eq_iff m.role role_owner))

-- What a leave that succeeds has found.
leave_lem :
    (s : Session) (body_org : String) (rows : Members) (m : Member)
    → (leave s body_org rows).0 ≡ ok m
    → (r : Record) × (membership (active_org s body_org) s.user_id rows ≡ some r)
      × (m ≡ member_from_map r)
      × ((m.role ≢ role_owner) ⊎ (1 < owners (active_org s body_org) rows))
      × ((leave s body_org rows).1 ≡ remove_first (with_id m.id) rows)
unfolding leave may_leave member_of
leave_lem s body_org rows m h = elim (Bool-cases (str_eq (active_org s body_org) "")) [
  | inl e ↦ absurd (ground arith)
  | inr e ↦ elim (Option-cases (membership (active_org s body_org) s.user_id rows)) [
    | inl f ↦ absurd (ground (arith, rw (e, f, leave) at h))
    | inr (r, f) ↦
        elim (Result-cases (may_leave (active_org s body_org) (member_from_map r) rows)) [
          | inr (x, g) ↦ absurd (ground (arith, rw (e, f, g, leave) at h))
          | inl (out, g) ↦
              let (kept, owner) =
                may_leave_lem (active_org s body_org) (member_from_map r) out rows g in
              let same : out ≡ m = ground (arith, rw (e, f, g, leave) at h) in
              let member : m ≡ member_from_map r = sym same ∙ kept in
              (
                r,
                f,
                member,
                rw member owner,
                rw (e, f, g, leave) (ap (λ (x : Member). remove_first (with_id x.id) rows) same),
              )
        ]
  ]
]

member-first :
    (cs : List Where) (rows : Members) (r : Record)
    → HasIds rows
    → holders (str (field r "id")) rows ≤ 1
    → first cs rows ≡ some r
    → first (with_id (str (field r "id"))) rows ≡ some r
member-first cs rows r ids one h =
    first-with_id cs rows r (str (field r "id")) h (id_of cs rows r ids h) one

-- The organization that a member leaves keeps an owner, if it had one: where the member is an owner,
-- another one stays. The memberships have ids of their own.
pub leave-owners :
    (s : Session) (body_org : String) (rows : Members) (m : Member)
    → HasIds rows
    → holders m.id rows ≤ 1
    → 0 < owners (active_org s body_org) rows
    → (leave s body_org rows).0 ≡ ok m
    → 0 < owners (active_org s body_org) (leave s body_org rows).1
unfolding membership member_from_map
leave-owners s body_org rows m ids one some_owner h =
    let (r, found, same, owner, rest) = leave_lem s body_org rows m h in
    let cs = in_organization (active_org s body_org) "role" role_owner in
    subst (λ (t : Members). 0 < owners (active_org s body_org) t) (sym rest)
      (elim owner [
        | inr two ↦ ground (arith, owners-remove_first cs (with_id m.id) rows)
        | inl other ↦
            let has : first (with_id m.id) rows ≡ some r = rw same (
              member-first (in_organization (active_org s body_org) "userId" s.user_id) rows r ids
                (subst (λ (x : Member). holders x.id rows ≤ 1) same one) found) in
            let outside : matches r cs ≡ false =
              not_owner (active_org s body_org) r
                (λ e. other (ap (λ (x : Member). x.role) same ∙ e)) in
            ground (arith, owners-remove_other cs (with_id m.id) rows r has outside)
      ])
