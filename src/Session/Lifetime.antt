-- ===== src/Session/Lifetime.antt =====
-- Which sessions are resolved, and until when they live.
use go_dev_auth.Prelude.{
  ℕ, ◌+◌, ◌^◌, ◌<◌, ◌≤◌, ◌≡◌, ◌⊎◌, inl, inr, refl, ap, sym, subst, ◌∙◌, String, false, Option, none,
  some, List, [], ◌∷◌, All, arith, ltb, ltb→lt, Bool-cases, Option-cases,
}
use mathlib.Core.Option.{some_inj}
use go_dev_auth.Prelude.Assoc.{insert, merge, lookup-insert}
use go_dev_auth.Prelude.Result.{Result, ok, err}
use go_dev_auth.Storage.Value.{null, text, time}
use go_dev_auth.Storage.Filter.{Record, Where, field, w, matches}
use go_dev_auth.Storage.Contract.{first, select, remove_first}
use go_dev_auth.Storage.Swap.{first-select-none}
use go_dev_auth.Token.{time_val}
use go_dev_auth.Session.{
  User, Session, SessionError, no_session, Plugin, Config, by_token, session_from_map,
  user_from_map, run_session_guards, session_refreshable, refresh_due, refresh, slide, guarded,
  get_session_from_token, revoke_session,
}

-- The plugin's session guard, if it has one, lets the session pass.
abbrev pub IsAccepted : Session → User → Plugin → Type 0
IsAccepted s user p =
    (guard : Session → User → Option SessionError)
    → p.check_session ≡ some guard
    → guard s user ≡ none

guards-IsAccepted :
    (ps : List Plugin) (s : Session) (user : User)
    → run_session_guards ps s user ≡ none
    → All (IsAccepted s user) ps
unfolding run_session_guards
guards-IsAccepted [] s user h = tt
guards-IsAccepted (p ∷ ps) s user h = elim (Option-cases p.check_session) [
  | inl e ↦ (
    λ guard f. absurd (cc (sym e ∙ f)),
    guards-IsAccepted ps s user (rw (e, run_session_guards) at h),
  )
  | inr (g, e) ↦ elim (Option-cases (g s user)) [
    | inr (x, f) ↦ absurd (cc (rw (e, f, run_session_guards) at h))
    | inl f ↦ (
      λ guard k. subst (λ q. q s user ≡ none) (same g guard (sym e ∙ k)) f,
      guards-IsAccepted ps s user (rw (e, f, run_session_guards) at h),
    )
  ]
]
  where
    same :
        (g guard : Session → User → Option SessionError)
        → ◌≡◌ {A = Option (Session → User → Option SessionError)} (some g) (some guard)
        → g ≡ guard
    same g guard k = some_inj.0 k

-- A session is as it was stored, or it has been extended: its lifetime was the configured one, to a
-- second, it now ends when that lifetime has passed from now, and that is later than before.
abbrev pub IsSlid : Config → ℕ → Session → Session → Type 0
IsSlid config now old s =
    (s ≡ old)
    ⊎ ((s.expires_at ≡ now + config.expires_in)
        × (old.expires_at < s.expires_at)
        × (old.created_at + config.expires_in ≤ old.expires_at + 10 ^ 9))

refresh-expires :
    (config : Config) (now : ℕ) (r : Record)
    → (session_from_map (merge (refresh config now) r)).expires_at ≡ now + config.expires_in
unfolding session_from_map refresh merge field time_val
refresh-expires config now r =
    ap (λ o. time_val (elim o [ none ↦ null | some v ↦ v ]))
      (lookup-insert "updatedAt" "expiresAt" (time now)
          (insert "expiresAt" (time (now + config.expires_in)) r)
        ∙ lookup-insert "expiresAt" "expiresAt" (time (now + config.expires_in)) r)

slide-IsSlid :
    (config : Config) (token : String) (now : ℕ) (r : Record) (sessions : List Record)
    → IsSlid config now (session_from_map r) (slide config token now r sessions).0
unfolding slide refresh_due session_refreshable
slide-IsSlid config token now r sessions =
    elim (Bool-cases (refresh_due config (session_from_map r) now)) [
      | inr e ↦ rw (e, slide) (inl refl)
      | inl e ↦
          let f = refresh-expires config now r in
          rw (e, slide) (inr (f, ground arith, ground arith))
    ]

-- What a resolved session stands for: a record of the token that has not expired, its user, who is
-- stored, and the acceptance of all session guards.
abbrev pub IsResolved : Config → List Record → String → ℕ → List Record → Session × User → Type 0
IsResolved config users token now sessions (s, user) =
    (r : Record) × (first (by_token token) sessions ≡ some r)
    × (now < (session_from_map r).expires_at)
    × IsSlid config now (session_from_map r) s
    × ((u : Record) × (first (w "id" (text (session_from_map r).user_id) ∷ []) users ≡ some u)
        × (user ≡ user_from_map u))
    × All (IsAccepted s user) config.plugins

guarded-ok :
    (config : Config) (user : User) (got : Session × List Record) (s : Session) (other : User)
    → (guarded config user got).0 ≡ ok (s, other)
    → (got.0 ≡ s) × (other ≡ user) × (run_session_guards config.plugins s other ≡ none)
unfolding guarded
guarded-ok config user (t, sessions) s other h =
    elim (Option-cases (run_session_guards config.plugins t user)) [
      | inr (x, e) ↦ absurd (cc (rw (e, guarded) at h))
      | inl e ↦
          let same : (t, user) ≡ (s, other) = pair_inj (rw (e, guarded) at h) in
          (
            ap (λ p. p.0) same,
            sym (ap (λ p. p.1) same),
            ap (λ p. run_session_guards config.plugins p.0 p.1) (sym same) ∙ e,
          )
    ]
  where
    pair_inj :
        {a b : Session × User}
        → ◌≡◌ {A = Result SessionError (Session × User)} (ok a) (ok b)
        → a ≡ b
    pair_inj k = cc

-- A session that is resolved has a stored record that has not expired; its user is stored, and the
-- session guard of every plugin accepts it. Its end is as it was stored, or the session had the
-- configured lifetime, to a second, and its end has moved to a later time, one lifetime from now. So a
-- session that was made for a shorter time is never extended, and no resolution shortens one.
pub get_session_from_token-IsResolved :
    (config : Config) (users : List Record) (token : String) (now : ℕ) (sessions : List Record)
    (s : Session) (user : User)
    → (get_session_from_token config users token now sessions).0 ≡ ok (s, user)
    → IsResolved config users token now sessions (s, user)
unfolding get_session_from_token
get_session_from_token-IsResolved config users token now sessions s user h =
    elim (Option-cases (first (by_token token) sessions)) [
      | inl e ↦ absurd (cc (rw (e, get_session_from_token) at h))
      | inr (r, e) ↦ elim (Bool-cases (ltb now (session_from_map r).expires_at)) [
        | inr f ↦ absurd (cc (rw (e, f, get_session_from_token) at h))
        | inl f ↦
            elim (Option-cases (first (w "id" (text (session_from_map r).user_id) ∷ []) users)) [
              | inl g ↦ absurd (cc (rw (e, f, g, get_session_from_token) at h))
              | inr (u, g) ↦
                  let slid = slide config token now r sessions in
                  let (same, owner, passed) =
                    guarded-ok config (user_from_map u) slid s user
                      (rw (e, f, g, get_session_from_token) at h) in
                  (
                    r,
                    e,
                    ltb→lt now (session_from_map r).expires_at f,
                    subst (IsSlid config now (session_from_map r)) same
                        (slide-IsSlid config token now r sessions),
                    (u, g, owner),
                    guards-IsAccepted config.plugins s user passed,
                  )
            ]
      ]
    ]

first-remove_first :
    (cs : List Where) (rows : List Record) (r : Record)
    → select cs rows ≡ r ∷ []
    → (first cs rows ≡ some r) × (first cs (remove_first cs rows) ≡ none)
unfolding select first remove_first
first-remove_first cs [] r h = absurd (cc)
first-remove_first cs (q ∷ rows) r h = elim (Bool-cases (matches q cs)) [
  | inl e ↦ ground (arith, e, first-select-none cs rows)
  | inr e ↦ ground (arith, e, first-remove_first cs rows r)
]

unknown :
    (config : Config) (users : List Record) (token : String) (now : ℕ) (sessions : List Record)
    → first (by_token token) sessions ≡ none
    → get_session_from_token config users token now sessions ≡ (err no_session, sessions)
unfolding get_session_from_token
unknown config users token now sessions h = rw (get_session_from_token, h) refl

-- Let one record have the token. Once the session has expired, resolving it answers that there is no
-- session and removes the record, as a revocation does; after either of them no later request
-- resolves the token.
pub get_session_from_token-revoked :
    (config : Config) (users : List Record) (token : String) (now later : ℕ)
    (sessions : List Record) (r : Record)
    → select (by_token token) sessions ≡ r ∷ []
    → (session_from_map r).expires_at ≤ now
    → (get_session_from_token config users token now sessions
        ≡ (err no_session, revoke_session token sessions))
      × (get_session_from_token config users token later (revoke_session token sessions)
          ≡ (err no_session, revoke_session token sessions))
unfolding get_session_from_token revoke_session
get_session_from_token-revoked config users token now later sessions r one over =
    let (found, gone) = first-remove_first (by_token token) sessions r one in
    let f : ltb now (session_from_map r).expires_at ≡ false = ground arith in
    (
      rw (get_session_from_token, found, f) refl,
      unknown config users token later (remove_first (by_token token) sessions) gone,
    )
