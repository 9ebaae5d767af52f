-- ===== src/Admin/Impersonation.antt =====
-- plugins/admin/admin.go: what an impersonated session is good for.
use go_dev_auth.Prelude.{
  ℕ, ◌+◌, ◌^◌, ◌≡◌, ◌≢◌, ◌⊎◌, ap, sym, ◌∙◌, String, true, false, not, ◌&&◌, some, [], ◌∷◌, arith,
  leb, ◌≤◌, ◌==◌, if◌then◌else◌, Bool-cases, Option-cases, inl, inr,
}
use go_dev_auth.Prelude.Assoc.{lookup}
use go_dev_auth.Prelude.Result.{Result, ok}
use go_dev_auth.Storage.Value.{text, str}
use go_dev_auth.Storage.Filter.{Record, field}
use go_dev_auth.Storage.Contract.{first}
use go_dev_auth.Session.{
  User, Session, SessionError, user_from_map, create_session, refresh_due, session_refreshable,
}
use go_dev_auth.Admin.{AdminError, by_id, is_admin, impersonator}
use go_dev_auth.Admin.Authority.{IsRefused, perform-IsAuthorized}
use go_dev_auth.Admin.Handlers.{
  Instance, State, Outcome, session_of, Ticket, Action, perform, impersonation_stopped, impersonate,
  open_session,
}

ok_inj : {A : Type 0} {a b : A} → ◌≡◌ {A = Result SessionError A} (ok a) (ok b) → a ≡ b
ok_inj e = cc

session_of_inj :
    {s s' : Session} {u u' : User}
    → ◌≡◌ {A = Result AdminError Outcome} (ok (session_of s u)) (ok (session_of s' u'))
    → (s ≡ s') × (u ≡ u')
session_of_inj e = (cc, cc)

-- A session that is someone's impersonation does nothing but end.
perform-impersonated :
    (i : Instance) (now : ℕ) (s : Session) (user : User) (action : Action) (st : State)
    → impersonator s ≢ ""
    → IsRefused st (perform i now (ok (s, user)) action st)
      ⊎ ((t : Ticket) × (action ≡ impersonation_stopped t))
perform-impersonated i now s user action st h =
    elim (perform-IsAuthorized i now (ok (s, user)) action st) [
      | inl refused ↦ inl refused
      | inr (inl (s', user', e, _, mine)) ↦
          absurd (h (ap impersonator (ap (λ x. x.0) (ok_inj e)) ∙ mine))
      | inr (inr (t, _, _, e, _, _)) ↦ inr (t, e)
    ]

-- How long an impersonation lasts; a duration of 0 stands for that of any session.
abbrev pub lifetime : Instance → ℕ
lifetime i =
    if i.options.impersonation_duration == 0
    then i.config.expires_in
    else i.options.impersonation_duration

impersonate-ok :
    (i : Instance) (now : ℕ) (id : String) (t : Ticket) (mine : Session) (admin : User) (st : State)
    (s : Session) (target : User)
    → (impersonate i now id t (mine, admin) st).0 ≡ ok (session_of s target)
    → (r : Record) × (first (by_id id) st.users ≡ some r)
      × (target ≡ user_from_map r)
      × ((is_admin i.options target && not i.options.allow_impersonating_admins) ≡ false)
      × (s
          ≡ (create_session i.config t.id t.token target.id t.ip_address t.user_agent
              (("impersonatedBy", text admin.id) ∷ [])
              i.options.impersonation_duration
              now
              st.sessions).0)
unfolding impersonate open_session
impersonate-ok i now id t mine admin st s target h =
    let made = λ (u : User).
      create_session i.config t.id t.token u.id t.ip_address t.user_agent
        (("impersonatedBy", text admin.id) ∷ []) i.options.impersonation_duration now st.sessions in
    elim (Option-cases (first (by_id id) st.users)) [
      | inl n ↦ absurd (cc (rw (impersonate, n) at h))
      | inr (r, f) ↦
          elim (Bool-cases
            (is_admin i.options (user_from_map r) && not i.options.allow_impersonating_admins)) [
              | inl e ↦ absurd (cc (rw (impersonate, f, e) at h))
              | inr e ↦
                  let (same, is_target) = session_of_inj (rw (impersonate, f, e) at h) in
                  (
                    r,
                    f,
                    sym is_target,
                    ap (λ u. is_admin i.options u && not i.options.allow_impersonating_admins)
                          (sym is_target)
                        ∙ e,
                    sym same ∙ ap (λ u. (made u).0) is_target,
                  )
            ]
    ]

-- An impersonation that starts is that of a stored user, the first with the id, who is no administrator
-- unless the plugin allows that. Its session is that user's, and ends when the plugin's duration has
-- passed, or that of any session if it is 0; no later request extends it, unless that duration is at
-- most a second shorter than a session's. Of the requests that set a role, change, ban, unban or
-- impersonate a user, list the users, list or revoke sessions, or end an impersonation, all but the
-- last are refused without a change at any time, whatever role its user has. The administrator's id
-- is not empty.
pub impersonate-IsConfined :
    (i : Instance) (now later : ℕ) (id : String) (t : Ticket) (mine : Session) (admin : User)
    (st st' : State) (s : Session) (target : User) (action : Action)
    → (impersonate i now id t (mine, admin) st).0 ≡ ok (session_of s target)
    → admin.id ≢ ""
    → ((r : Record) × (first (by_id id) st.users ≡ some r) × (target ≡ user_from_map r))
      × ((is_admin i.options target ≡ false) ⊎ (i.options.allow_impersonating_admins ≡ true))
      × (s.user_id ≡ target.id)
      × (s.expires_at ≡ now + lifetime i)
      × ((refresh_due i.config s later ≡ false) ⊎ (i.config.expires_in ≤ lifetime i + 10 ^ 9))
      × (IsRefused st' (perform i later (ok (s, target)) action st')
          ⊎ ((t' : Ticket) × (action ≡ impersonation_stopped t')))
unfolding create_session refresh_due session_refreshable field lookup str
impersonate-IsConfined i now later id t mine admin st st' s target action h named =
    let (r, found, is_target, allowed, made) = impersonate-ok i now id t mine admin st s target h in
    let ends : s.expires_at ≡ now + lifetime i = ap (λ x. x.expires_at) made in
    let begins : s.created_at ≡ now = ap (λ x. x.created_at) made in
    (
      (r, found, is_target),
      elim (Bool-cases (is_admin i.options target)) [ inr e ↦ inl e | inl e ↦ inr (ground arith) ],
      ap (λ x. x.user_id) made,
      ends,
      elim (Bool-cases (leb i.config.expires_in (lifetime i + 10 ^ 9))) [
        | inl e ↦ inr (ground (arith, e))
        | inr e ↦ inl (ground (arith, e, ends, begins))
      ],
      perform-impersonated i later s target action st'
          (λ e. named (sym (ap impersonator made) ∙ e)),
    )
