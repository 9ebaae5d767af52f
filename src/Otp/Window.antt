-- ===== src/Otp/Window.antt =====
-- Which time steps a code is accepted for.
use go_dev_auth.Prelude.{
  ℕ, zero, suc, ◌+◌, ◌-◌, ◌*◌, ◌<◌, ◌≤◌, ◌≡◌, ◌≢◌, ◌⊎◌, inl, inr, ap, sym, ◌∙◌, String, Option,
  none, some, arith, ltb, str_eq, Bool-cases, Option-cases, eq_iff, false,
}
use go_dev_auth.Otp.{search, verify_totp_counter, counter_at}

-- A step of a window, counted from its start, whose code is the given one.
abbrev IsHit : (ℕ → Option String) → String → ℕ → ℕ → ℕ → ℕ → Type 0
IsHit codes_of code skew left at c =
    (at ≤ c + skew) × (c + skew < at + left) × (codes_of c ≡ some code)

-- The first step of a window that matches, or none.
abbrev IsFirst : (ℕ → Option String) → String → ℕ → ℕ → ℕ → Option ℕ → Type 0
IsFirst codes_of code skew left at none = (c : ℕ) → IsHit codes_of code skew left at c → ⊥
IsFirst codes_of code skew left at (some c) =
    IsHit codes_of code skew left at c × ((d : ℕ) → d < c → IsHit codes_of code skew left at d → ⊥)

module _ (codes_of : ℕ → Option String) (code : String) (skew : ℕ) where
  skip :
      (left at : ℕ) (out : Option ℕ)
      → ((c : ℕ) → c + skew ≡ at → codes_of c ≡ some code → ⊥)
      → IsFirst codes_of code skew left (suc at) out
      → IsFirst codes_of code skew (suc left) at out
  skip left at none other first = λ c (low, high, e). elim (Bool-cases (ltb at (c + skew))) [
    | inl f ↦ first c (ground arith, omega arith, e)
    | inr f ↦ other c (ground arith) e
  ]
  skip left at (some c) other ((low, high, e), least) = (
    (omega arith, omega arith, e),
    λ d less (l, h, f). elim (Bool-cases (ltb at (d + skew))) [
      | inl g ↦ least d less (ground arith, omega arith, f)
      | inr g ↦ other d (ground arith) f
    ],
  )

  other :
      {at : ℕ} (want : String)
      → ltb at skew ≡ false
      → codes_of (at - skew) ≡ some want
      → str_eq want code ≡ false
      → (c : ℕ) → c + skew ≡ at
      → codes_of c ≡ some code
      → ⊥
  other {at} want e f g c same h =
      let same_step : c ≡ at - skew = omega arith in
      let held : some want ≡ some code = sym f ∙ ap codes_of (sym same_step) ∙ h in
      ground (arith, held, eq_iff want code)

  search-IsFirst :
      (left at : ℕ)
      → ((c : ℕ) → codes_of c ≢ none)
      → IsFirst codes_of code skew left at (search codes_of code skew left at)
  unfolding search
  search-IsFirst zero at total = λ c (low, high, e). omega arith
  search-IsFirst (suc left) at total = elim (Bool-cases (ltb at skew)) [
    | inl e ↦ rw e (skip left at _ (λ c f g. ground arith) (search-IsFirst left (suc at) total))
    | inr e ↦ elim (Option-cases (codes_of (at - skew))) [
      | inl f ↦ absurd (total (at - skew) f)
      | inr (want, f) ↦ elim (Bool-cases (str_eq want code)) [
        | inl g ↦
            rw (e, f, g)
              (
                (ground arith, ground arith, f ∙ ap some ((eq_iff want code).0 g)),
                λ d less (low, high, h). ground arith,
              )
        | inr g ↦
            rw (e, f, g) (skip left at _ (other want e f g) (search-IsFirst left (suc at) total))
      ]
    ]
  ]

-- A step of the window around a counter: at most `skew` steps away from it, and its code is given.
abbrev pub IsMatch : (ℕ → Option String) → String → ℕ → ℕ → ℕ → Type 0
IsMatch codes_of code skew counter c =
    (counter ≤ c + skew) × (c ≤ counter + skew) × (codes_of c ≡ some code)

-- If no step's code fails to compute, a code is accepted exactly if it is the code of a step at most
-- `skew` steps before or after the current one, and the step that is returned is the first of these.
pub verify_totp_counter-IsMatch :
    (codes_of : ℕ → Option String) (period skew now : ℕ) (code : String)
    → ((c : ℕ) → codes_of c ≢ none)
    → ((verify_totp_counter codes_of period skew now code ≡ none)
        × ((c : ℕ) → IsMatch codes_of code skew (counter_at period now) c → ⊥))
      ⊎ ((c : ℕ) × (verify_totp_counter codes_of period skew now code ≡ some c)
          × IsMatch codes_of code skew (counter_at period now) c
          × ((d : ℕ) → d < c → IsMatch codes_of code skew (counter_at period now) d → ⊥))
unfolding verify_totp_counter
verify_totp_counter-IsMatch codes_of period skew now code total =
    let n = counter_at period now in
    let first = search-IsFirst codes_of code skew (2 * skew + 1) n total in
    elim (Option-cases (search codes_of code skew (2 * skew + 1) n)) [
      | inl e ↦ inl (e, λ c (low, high, f). (rw e at first) c (low, omega arith, f))
      | inr (c, e) ↦
          let ((low, high, f), least) = rw e at first in
          inr (c, e, (low, omega arith, f), λ d less (l, h, g). least d less (l, omega arith, g))
    ]
