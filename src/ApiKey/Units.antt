-- ===== src/ApiKey/Units.antt =====
-- The quota of a key: each unit is spent once.
use go_dev_auth.Prelude.{
  ℕ, zero, suc, ◌+◌, ◌*◌, ◌^◌, ◌<◌, ◌≤◌, ◌≡◌, ◌⊎◌, inl, inr, refl, sym, subst, String, Bool, true,
  false, List, [], ◌∷◌, All, if◌then◌else◌, arith, pos, Bool-cases, ◌==◌, int_leb, ◌-ℤ◌,
}
use go_dev_auth.Prelude.Assoc.{merge}
use go_dev_auth.Prelude.Result.{Result, ok, err}
use go_dev_auth.Storage.Value.{integer, int64, equal}
use go_dev_auth.Storage.Value.Laws.{equal-integer_small}
use go_dev_auth.Storage.Filter.{Record, field}
use go_dev_auth.Storage.Contract.{select, update_many}
use go_dev_auth.Storage.Swap.{
  holds, set, by_id, update_many-holds, update_many-holds_none, field-set, first-select,
  first-select-none,
}
use go_dev_auth.ApiKey.{attempt, Quota, quota_of, units, KeyError, no_key, spend_loop}

-- What requests do to the table of keys, call by call: an attempt is made for the quota that its
-- request read before, which may be out of date; any other call is what it does to the table.
pub data Call : Type 0 where
  attempt_of : ℕ → Call
  other : (List Record → List Record) → Call

-- How many attempts succeed on the key with an id.
pub count_paid : String → List Call → List Record → ℕ
unfolding attempt
count_paid i [] rows = 0
count_paid i (attempt_of rem ∷ calls) rows =
    let (won, rows') = attempt i (pos rem) rows in
    let rest = count_paid i calls rows' in if won then suc rest else rest
count_paid i (other change ∷ calls) rows = count_paid i calls (change rows)

-- The key with an id has so many units left, or has been removed.
abbrev pub IsAt : String → ℕ → List Record → Type 0
IsAt i m rows =
    (select (by_id i) rows ≡ [])
    ⊎ ((r : Record) × (select (by_id i) rows ≡ r ∷ [])
        × (field r "remaining" ≡ integer int64 (pos m)))

-- An attempt is made for a quota above 0 and below 2 ^ 53; other calls leave the units alone, take
-- some, or remove the key.
abbrev pub IsFalling : String → (List Record → List Record) → Type 0
IsFalling i change =
    (m : ℕ) (rows : List Record) → IsAt i m rows → (k : ℕ) × (k ≤ m) × IsAt i k (change rows)

abbrev pub IsCall : String → Call → Type 0
IsCall i (attempt_of rem) = (0 < rem) × (rem < 2 ^ 53)
IsCall i (other change) = IsFalling i change

-- What an attempt on a key with `m` units leaves.
abbrev IsStep : String → ℕ → Bool × List Record → Type 0
IsStep i m (won, rows) =
    ((won ≡ false) × IsAt i m rows) ⊎ ((won ≡ true) × ((k : ℕ) × (suc k ≡ m) × IsAt i k rows))

one_less : (k : ℕ) → pos (suc k) -ℤ pos 1 ≡ pos k
unfolding ◌-ℤ◌
one_less k = ground arith

attempt_lem :
    (i : String) (k : ℕ) (rows : List Record)
    → attempt i (pos (suc k)) rows ≡ (
        let (n, rows') =
          update_many
            (holds i "remaining" (integer int64 (pos (suc k))))
            (set "remaining" (integer int64 (pos k)))
            rows in
        (n == 1, rows'))
unfolding attempt
attempt_lem i k rows = rw (attempt, one_less k) refl

swap-IsStep :
    (i : String) (k m : ℕ) (rows : List Record)
    → suc k < 2 ^ 53
    → m < 2 ^ 53
    → IsAt i m rows
    → let (n, rows') =
        update_many
          (holds i "remaining" (integer int64 (pos (suc k))))
          (set "remaining" (integer int64 (pos k)))
          rows in
      IsStep i m (n == 1, rows')
swap-IsStep i k m rows hk hm (inl gone) =
    let (count, left) =
      update_many-holds_none i "remaining" (integer int64 (pos (suc k))) (integer int64 (pos k))
        rows refl gone in
    inl (rw count refl, inl left)
swap-IsStep i k m rows hk hm (inr (r, one, h)) =
    let (count, left) =
      update_many-holds i "remaining" (integer int64 (pos (suc k))) (integer int64 (pos k)) rows
        refl r one in
    let same : equal (field r "remaining") (integer int64 (pos (suc k))) ≡ (m == suc k) =
      rw h (equal-integer_small int64 int64 m (suc k) hm hk) in
    elim (Bool-cases (m == suc k)) [
      | inl e ↦ inr (
        rw (count, same, e) refl,
        (
          k,
          ground arith,
          inr (
            merge (set "remaining" (integer int64 (pos k))) r,
            rw (left, same, e) refl,
            field-set r "remaining" "remaining" (integer int64 (pos k)),
          ),
        ),
      )
      | inr e ↦ inl (rw (count, same, e) refl, inr (r, rw (left, same, e) refl, h))
    ]

attempt-IsStep :
    (i : String) (rem m : ℕ) (rows : List Record)
    → 0 < rem
    → rem < 2 ^ 53
    → m < 2 ^ 53
    → IsAt i m rows
    → IsStep i m (attempt i (pos rem) rows)
attempt-IsStep i zero m rows positive small hm at = absurd (omega arith)
attempt-IsStep i (suc k) m rows positive small hm at =
    subst (IsStep i m) (sym (attempt_lem i k rows)) (swap-IsStep i k m rows small hm at)

-- A key with `m` units left pays for at most `m` requests, whatever quota each of their attempts had
-- read and however the calls of concurrent requests are ordered. Other calls never add units to the
-- key, and units are below 2 ^ 53.
pub count_paid-le :
    (i : String) (m : ℕ) (calls : List Call) (rows : List Record)
    → m < 2 ^ 53
    → All (IsCall i) calls
    → IsAt i m rows
    → count_paid i calls rows ≤ m
unfolding count_paid
count_paid-le i m [] rows hm ok_calls at = omega arith
count_paid-le i m (attempt_of rem ∷ calls) rows hm ((positive, small), hs) at =
    elim (attempt-IsStep i rem m rows positive small hm at) [
      | inl (lost, after) ↦
          rw lost (count_paid-le i m calls (attempt i (pos rem) rows).1 hm hs after)
      | inr (won, (k, e, after)) ↦ rw won (
          omega
            (arith, count_paid-le i k calls (attempt i (pos rem) rows).1 (omega arith) hs after))
    ]
count_paid-le i m (other change ∷ calls) rows hm (falls, hs) at =
    let (k, less, after) = falls m rows at in
    omega (arith, count_paid-le i k calls (change rows) (omega arith) hs after)

pub paid : Result KeyError Quota → ℕ
paid (ok q) = 1
paid (err e) = 0

-- What a request leaves of `m` units: one less if it is paid for.
abbrev IsServed : String → ℕ → Result KeyError Quota × List Record → Type 0
IsServed i m (out, rows) = (k : ℕ) × (paid out + k ≤ m) × IsAt i k rows

module _ (world : ℕ → List Record → List Record) (i : String)
    (falls : (n : ℕ) → IsFalling i (world n)) where
  -- What one round of the loop does on a key that is there, or gone.
  lost-gone :
      (left rem : ℕ) (rows : List Record)
      → let (won, rows') = attempt i (pos (suc rem)) (world (2 * left + 1) rows) in
        won ≡ false
        → select (by_id i) (world (2 * left) rows') ≡ []
        → spend_loop world i (suc left) (pos (suc rem)) rows ≡ (err no_key, world (2 * left) rows')
  unfolding spend_loop
  lost-gone left rem rows lost gone =
      let e : int_leb (pos (suc rem)) (pos 0) ≡ false = ground arith in
      rw (spend_loop, e, lost, first-select-none (by_id i) _ gone) refl

  lost-there :
      (left rem m : ℕ) (rows : List Record) (r : Record)
      → let (won, rows') = attempt i (pos (suc rem)) (world (2 * left + 1) rows) in
        won ≡ false
        → select (by_id i) (world (2 * left) rows') ≡ r ∷ []
        → field r "remaining" ≡ integer int64 (pos m)
        → spend_loop world i (suc left) (pos (suc rem)) rows
          ≡ spend_loop world i left (pos m) (world (2 * left) rows')
  unfolding spend_loop quota_of
  lost-there left rem m rows r lost there h =
      let e : int_leb (pos (suc rem)) (pos 0) ≡ false = ground arith in
      rw (spend_loop, e, lost, first-select (by_id i) _ r [] there, h) refl

  won_lem :
      (left rem : ℕ) (rows : List Record)
      → let (won, rows') = attempt i (pos (suc rem)) (world (2 * left + 1) rows) in
        won ≡ true
        → spend_loop world i (suc left) (pos (suc rem)) rows
          ≡ (ok (units (pos (suc rem) -ℤ pos 1)), rows')
  unfolding spend_loop
  won_lem left rem rows won =
      let e : int_leb (pos (suc rem)) (pos 0) ≡ false = ground arith in rw (spend_loop, e, won) refl

  spend_loop-IsServed :
      (left rem m : ℕ) (rows : List Record)
      → rem < 2 ^ 53
      → m < 2 ^ 53
      → IsAt i m rows
      → IsServed i m (spend_loop world i left (pos rem) rows)
  unfolding spend_loop paid
  spend_loop-IsServed zero rem m rows small hm at = (m, omega arith, at)
  spend_loop-IsServed (suc left) zero m rows small hm at = (m, omega arith, at)
  spend_loop-IsServed (suc left) (suc rem) m rows small hm at =
      let (m1, less, at1) = falls (2 * left + 1) m rows at in
      let tried = attempt i (pos (suc rem)) (world (2 * left + 1) rows) in
      elim (attempt-IsStep i (suc rem) m1 (world (2 * left + 1) rows) (omega arith) small
        (omega arith) at1) [
          | inr (won, (k, e, after)) ↦
              subst (IsServed i m) (sym (won_lem left rem rows won)) (k, omega arith, after)
          | inl (lost, after) ↦
              let (m2, less2, at2) = falls (2 * left) m1 tried.1 after in
              elim at2 [
                | inl gone ↦
                    subst (IsServed i m) (sym (lost-gone left rem rows lost gone))
                      (m2, omega arith, inl gone)
                | inr (r, there, h) ↦
                    let (k, total, end) =
                      spend_loop-IsServed left m2 m2 (world (2 * left) tried.1) (omega arith)
                        (omega arith) (inr (r, there, h)) in
                    subst (IsServed i m) (sym (lost-there left rem m2 rows r lost there h))
                      (k, omega arith, end)
              ]
        ]

-- A request that `spendQuota` accepts has taken a unit of the key, and one that it refuses has added
-- none, whatever quota it had read and whatever other requests do between its calls, as long as they
-- never add units to the key; units are below 2 ^ 53.
pub spend_loop-falls :
    (world : ℕ → List Record → List Record) (i : String) (left rem m : ℕ) (rows : List Record)
    → ((n : ℕ) → IsFalling i (world n))
    → rem < 2 ^ 53
    → m < 2 ^ 53
    → IsAt i m rows
    → (k : ℕ) × (paid (spend_loop world i left (pos rem) rows).0 + k ≤ m)
      × IsAt i k (spend_loop world i left (pos rem) rows).1
spend_loop-falls world i left rem m rows falls small hm at =
    spend_loop-IsServed world i falls left rem m rows small hm at
