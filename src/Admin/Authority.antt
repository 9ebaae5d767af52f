-- ===== src/Admin/Authority.antt =====
-- plugins/admin/admin.go: who may act.
use go_dev_auth.Prelude.{
  ℕ, ◌≡◌, ◌≢◌, ◌⊎◌, refl, sym, String, true, List, [], ◌∷◌, arith, str_eq, eq_iff, Bool-cases, inl,
  inr,
}
use go_dev_auth.Prelude.Result.{ok, err}
use go_dev_auth.Prelude.Split.{split}
use go_dev_auth.Prelude.Text.{codes, codes_eq, codes_eq-eq, trim_space}
use go_dev_auth.Storage.Value.{str}
use go_dev_auth.Storage.Filter.{field}
use go_dev_auth.Session.{User, Session}
use go_dev_auth.Admin.{
  Options, AdminError, unauthenticated, not_allowed, not_allowed_while_impersonating,
  not_impersonating, is_admin, any_admin, names_admin, member, impersonator, require_admin,
}
use go_dev_auth.Admin.Handlers.{
  Instance, State, Requester, Reply, Ticket, Action, perform, as_admin, stop_impersonating,
  set_role, change_user, ban_user, unban_user, impersonate, list_stored, list_user_sessions,
  revoke_user_session, revoke_sessions, role_set, user_changed, user_banned, user_unbanned,
  impersonated, impersonation_stopped, users_listed, sessions_listed, session_revoked,
  sessions_revoked, handle_set_role, handle_update_user, handle_ban_user, handle_unban_user,
  handle_impersonate, handle_list_users, handle_list_user_sessions, handle_revoke_user_session,
  handle_revoke_user_sessions,
}

abbrev pub IsOneOf : String → List String → Type 0
IsOneOf s [] = ⊥
IsOneOf s (t ∷ ts) = (s ≡ t) ⊎ IsOneOf s ts

-- The user is listed by id, or one of the roles between commas, without space around it, is an
-- administrator's.
abbrev pub IsAdministrator : Options → User → Type 0
IsAdministrator opts user =
    IsOneOf user.id opts.admin_user_ids
    ⊎ ((part : String) × IsOneOf part (split b',' (str (field user.extra "role")))
        × ((role : String) × IsOneOf role opts.admin_roles
            × (trim_space (codes part) ≡ codes role)))

member-IsOneOf : (s : String) (ts : List String) → member s ts ≡ true → IsOneOf s ts
unfolding member
member-IsOneOf s [] h = cc
member-IsOneOf s (t ∷ ts) h = elim (Bool-cases (str_eq t s)) [
  | inl e ↦ inl (sym ((eq_iff t s).0 e))
  | inr e ↦ inr (member-IsOneOf s ts (rw (e, member) at h))
]

names_admin-IsOneOf :
    (r : List ℕ) (admins : List String)
    → names_admin r admins ≡ true
    → (role : String) × IsOneOf role admins × (r ≡ codes role)
unfolding names_admin
names_admin-IsOneOf r [] h = absurd (cc)
names_admin-IsOneOf r (a ∷ admins) h = elim (Bool-cases (codes_eq r (codes a))) [
  | inl e ↦ (a, inl refl, codes_eq-eq r (codes a) e)
  | inr e ↦
      let (role, one, same) = names_admin-IsOneOf r admins (ground arith) in (role, inr one, same)
]

any_admin-IsOneOf :
    (parts admins : List String)
    → any_admin parts admins ≡ true
    → (part : String) × IsOneOf part parts
      × ((role : String) × IsOneOf role admins × (trim_space (codes part) ≡ codes role))
unfolding any_admin
any_admin-IsOneOf [] admins h = absurd (cc)
any_admin-IsOneOf (p ∷ parts) admins h =
    elim (Bool-cases (names_admin (trim_space (codes p)) admins)) [
      | inl e ↦ (p, inl refl, names_admin-IsOneOf (trim_space (codes p)) admins e)
      | inr e ↦
          let (part, one, role) = any_admin-IsOneOf parts admins (ground arith) in
          (part, inr one, role)
    ]

is_admin-IsAdministrator :
    (opts : Options) (user : User) → is_admin opts user ≡ true → IsAdministrator opts user
unfolding is_admin
is_admin-IsAdministrator opts user h = elim (Bool-cases (member user.id opts.admin_user_ids)) [
  | inl e ↦ inl (member-IsOneOf user.id opts.admin_user_ids e)
  | inr e ↦ inr (any_admin-IsOneOf _ opts.admin_roles (ground arith))
]

-- The requester is an administrator, in a session that is not an impersonation.
abbrev pub IsOwn : Options → Requester → Type 0
IsOwn opts sd =
    (s : Session) × (user : User) × (sd ≡ ok (s, user))
    × IsAdministrator opts user
    × (impersonator s ≡ "")

abbrev pub IsRefused : State → Reply → Type 0
IsRefused st reply = (e : AdminError) × (reply ≡ (err e, st))

as_admin-IsAuthorized :
    (opts : Options) (sd : Requester) (act : Session × User → State → Reply) (st : State)
    → IsRefused st (as_admin opts sd act st) ⊎ IsOwn opts sd
unfolding as_admin require_admin
as_admin-IsAuthorized opts (err e) act st = inl (unauthenticated e, refl)
as_admin-IsAuthorized opts (ok (s, user)) act st = elim (Bool-cases (is_admin opts user)) [
  | inr e ↦
      let d : require_admin opts (ok (s, user)) ≡ err not_allowed = rw (require_admin, e) refl in
      inl (not_allowed, rw (as_admin, d) refl)
  | inl e ↦ elim (Bool-cases (str_eq (impersonator s) "")) [
    | inr f ↦
        let d : require_admin opts (ok (s, user)) ≡ err not_allowed_while_impersonating =
          rw (require_admin, e, f) refl in
        inl (not_allowed_while_impersonating, rw (as_admin, d) refl)
    | inl f ↦
        inr (s, user, refl, is_admin-IsAdministrator opts user e, (eq_iff (impersonator s) "").0 f)
  ]
]

stop-IsAuthorized :
    (i : Instance) (now : ℕ) (t : Ticket) (sd : Requester) (st : State)
    → IsRefused st (stop_impersonating i now t sd st)
      ⊎ ((s : Session) × (user : User) × (sd ≡ ok (s, user)) × (impersonator s ≢ ""))
unfolding stop_impersonating
stop-IsAuthorized i now t (err e) st = inl (unauthenticated e, refl)
stop-IsAuthorized i now t (ok (s, user)) st = elim (Bool-cases (str_eq (impersonator s) "")) [
  | inl e ↦ inl (not_impersonating, rw (e, stop_impersonating) refl)
  | inr e ↦ inr (s, user, refl, ground (arith, e, eq_iff (impersonator s) ""))
]

-- A request that ends an impersonation, from an impersonated session.
abbrev pub IsEnd : Requester → Action → Type 0
IsEnd sd action =
    (t : Ticket) × (s : Session) × (user : User) × (action ≡ impersonation_stopped t)
    × (sd ≡ ok (s, user))
    × (impersonator s ≢ "")

guarded : {A B : Type 0} (C : Type 0) → A ⊎ B → A ⊎ (B ⊎ C)
guarded C (inl a) = inl a
guarded C (inr b) = inr (inl b)

-- Each request that sets a role, changes, bans, unbans or impersonates a user, lists the users, or
-- lists or revokes sessions, and each that ends an impersonation, is refused without a change, or
-- is one of these: the requester is an administrator, by id or by one of the roles between the
-- commas, in a session that is not an impersonation; or an impersonated session asks for the end of
-- its impersonation.
pub perform-IsAuthorized :
    (i : Instance) (now : ℕ) (sd : Requester) (action : Action) (st : State)
    → IsRefused st (perform i now sd action st) ⊎ (IsOwn i.options sd ⊎ IsEnd sd action)
unfolding perform handle_set_role handle_update_user handle_ban_user handle_unban_user
    handle_impersonate handle_list_users handle_list_user_sessions handle_revoke_user_session
    handle_revoke_user_sessions
perform-IsAuthorized i now sd (role_set id role) st =
    guarded (IsEnd sd (role_set id role))
      (as_admin-IsAuthorized i.options sd (set_role i now id role) st)
perform-IsAuthorized i now sd (user_changed id data') st =
    guarded (IsEnd sd (user_changed id data'))
      (as_admin-IsAuthorized i.options sd (change_user i now id data') st)
perform-IsAuthorized i now sd (user_banned id reason seconds) st =
    guarded (IsEnd sd (user_banned id reason seconds))
      (as_admin-IsAuthorized i.options sd (ban_user i now id reason seconds) st)
perform-IsAuthorized i now sd (user_unbanned id) st =
    guarded (IsEnd sd (user_unbanned id))
      (as_admin-IsAuthorized i.options sd (unban_user i now id) st)
perform-IsAuthorized i now sd (impersonated id t) st =
    guarded (IsEnd sd (impersonated id t))
      (as_admin-IsAuthorized i.options sd (impersonate i now id t) st)
perform-IsAuthorized i now sd (users_listed q) st =
    guarded (IsEnd sd (users_listed q)) (as_admin-IsAuthorized i.options sd (list_stored i q) st)
perform-IsAuthorized i now sd (sessions_listed id) st =
    guarded (IsEnd sd (sessions_listed id))
      (as_admin-IsAuthorized i.options sd (list_user_sessions id) st)
perform-IsAuthorized i now sd (session_revoked token id) st =
    guarded (IsEnd sd (session_revoked token id))
      (as_admin-IsAuthorized i.options sd (revoke_user_session token id) st)
perform-IsAuthorized i now sd (sessions_revoked id) st =
    guarded (IsEnd sd (sessions_revoked id))
      (as_admin-IsAuthorized i.options sd (revoke_sessions id) st)
perform-IsAuthorized i now sd (impersonation_stopped t) st =
    elim (stop-IsAuthorized i now t sd st) [
      | inl refused ↦ inl refused
      | inr (s, user, e, h) ↦ inr (inr (t, s, user, refl, e, h))
    ]
