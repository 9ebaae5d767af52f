-- ===== src/Session/Guards.antt =====
-- The guards of a sign-in that a plugin has taken over and completes later.
use mathlib.Core.Option.{some_inj}
use go_dev_auth.Prelude.{
  ◌≡◌, refl, sym, subst, ◌∙◌, inl, inr, Bool, true, false, some, List, [], ◌∷◌, ◌++◌, All, str_eq,
  eq_refl, Option-cases,
}
use go_dev_auth.Prelude.Result.{Result, ok, Result-cases}
use go_dev_auth.Session.{User, SessionError, Plugin, run_sign_in_guards, run_sign_in_guards_after}

-- The plugin's sign-in guard, if it has one, lets the user pass.
abbrev pub IsCleared : User → Plugin → Type 0
IsCleared user p =
    (guard : User → Result SessionError Bool)
    → p.before_sign_in ≡ some guard
    → guard user ≡ ok false

guards-IsCleared :
    (ps : List Plugin) (user : User)
    → run_sign_in_guards ps user ≡ ok false
    → All (IsCleared user) ps
unfolding run_sign_in_guards
guards-IsCleared [] user h = tt
guards-IsCleared (p ∷ ps) user h = elim (Option-cases p.before_sign_in) [
  | inl e ↦ (
    λ guard f. absurd (cc (sym e ∙ f)),
    guards-IsCleared ps user (rw (e, run_sign_in_guards) at h),
  )
  | inr (g, e) ↦ elim (Result-cases (g user)) [
    | inr (x, f) ↦ absurd (cc (rw (e, f, run_sign_in_guards) at h))
    | inl (true, f) ↦ absurd (cc (rw (e, f, run_sign_in_guards) at h))
    | inl (false, f) ↦ (
      λ guard k. subst (λ q. q user ≡ ok false) (some_inj.0 (sym e ∙ k)) f,
      guards-IsCleared ps user (rw (e, f, run_sign_in_guards) at h),
    )
  ]
]

-- The guards behind a plugin are those that stand after the first plugin with its id.
after-append :
    (before after : List Plugin) (p : Plugin) (user : User)
    → All (λ q. str_eq q.id p.id ≡ false) before
    → run_sign_in_guards_after (before ++ p ∷ after) user p.id ≡ run_sign_in_guards after user
unfolding run_sign_in_guards_after
after-append [] after p user h = rw (eq_refl p.id) refl
after-append (q ∷ before) after p user (e, h) = rw e (after-append before after p user h)

All-append : (P : Plugin → Type 0) (ps qs : List Plugin) → All P ps → All P qs → All P (ps ++ qs)
All-append P [] qs hp hq = hq
All-append P (p ∷ ps) qs (e, hp) hq = (e, All-append P ps qs hp hq)

-- A plugin takes a sign-in over when the guards before it have let the user pass, and completes it
-- when the guards after it do. Then the guard of every other plugin has let the user pass, if no
-- plugin before it has its id.
pub run_sign_in_guards_after-IsCleared :
    (before after : List Plugin) (p : Plugin) (user : User)
    → All (λ q. str_eq q.id p.id ≡ false) before
    → run_sign_in_guards before user ≡ ok false
    → run_sign_in_guards_after (before ++ p ∷ after) user p.id ≡ ok false
    → All (IsCleared user) (before ++ after)
run_sign_in_guards_after-IsCleared before after p user apart first then_after =
    All-append (IsCleared user) before after (guards-IsCleared before user first)
      (guards-IsCleared after user (sym (after-append before after p user apart) ∙ then_after))
