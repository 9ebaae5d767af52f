-- ===== src/TwoFactor/Counter.antt =====
-- The codes that are accepted for one secret: their counters only grow.
use go_dev_auth.Prelude.{
  ℕ, ◌^◌, ◌<◌, ◌≤◌, ◌≡◌, ◌⊎◌, inl, inr, refl, sym, subst, String, Bool, true, false, List, [], ◌∷◌,
  All, if◌then◌else◌, arith, pos, Bool-cases, ◌==◌, int_leb, leb,
}
use go_dev_auth.Storage.Value.{integer, text, int64, equal}
use go_dev_auth.Storage.Value.Laws.{equal-integer_small}
use go_dev_auth.Storage.Filter.{Record, field}
use go_dev_auth.Storage.Contract.{select, update_many}
use go_dev_auth.Storage.Swap.{
  holds, set, by_id, update_many-holds, update_many-holds_none, field-set,
}
use go_dev_auth.Prelude.Assoc.{merge}
use go_dev_auth.Token.{Table}
use go_dev_auth.TwoFactor.{claim_counter, record_int}

-- What requests do to the table, call by call: a claim carries the record that its request read
-- before, which may be out of date; any other call is what it does to the table.
pub data Call : Type 0 where
  claim_of : Record → ℕ → Call
  other : (Table → Table) → Call

-- The counters of the claims that succeed, in the order in which they reach the adapter.
pub accepted : List Call → Table → List ℕ
unfolding claim_counter
accepted [] rows = []
accepted (claim_of rec counter ∷ calls) rows =
    let (won, rows') = claim_counter rec (pos counter) rows in
    let rest = accepted calls rows' in if won then counter ∷ rest else rest
accepted (other change ∷ calls) rows = accepted calls (change rows)

-- The record with an id is at a counter, or has been removed.
abbrev pub IsAt : String → ℕ → Table → Type 0
IsAt i m rows =
    (select (by_id i) rows ≡ [])
    ⊎ ((r : Record) × (select (by_id i) rows ≡ r ∷ [])
        × (field r "lastCounter" ≡ integer int64 (pos m)))

-- A claim is of the record with the id, and its counters are below 2 ^ 53; other calls leave the
-- counter of that record alone, or remove the record.
abbrev pub IsCall : String → Call → Type 0
IsCall i (claim_of rec counter) =
    (field rec "id" ≡ text i)
    × (counter < 2 ^ 53)
    × ((last : ℕ) × (last < 2 ^ 53) × (record_int (field rec "lastCounter") ≡ pos last))
IsCall i (other change) = (m : ℕ) (rows : Table) → IsAt i m rows → IsAt i m (change rows)

-- Each number of a list is above the one before it.
abbrev pub IsIncreasing : ℕ → List ℕ → Type 0
IsIncreasing m [] = Unit
IsIncreasing m (n ∷ ns) = (m < n) × IsIncreasing n ns

-- A compare-and-set of the counter, from `last`.
abbrev advance : String → ℕ → ℕ → Table → ℕ × Table
advance i last counter rows =
    update_many (holds i "lastCounter" (integer int64 (pos last)))
      (set "lastCounter" (integer int64 (pos counter))) rows

claim_old :
    (i : String) (rec : Record) (counter last : ℕ) (rows : Table)
    → record_int (field rec "lastCounter") ≡ pos last
    → counter ≤ last
    → claim_counter rec (pos counter) rows ≡ (false, rows)
unfolding claim_counter
claim_old i rec counter last rows f old =
    let e : int_leb (pos counter) (pos last) ≡ true = ground arith in rw (claim_counter, f, e) refl

claim_new :
    (i : String) (rec : Record) (counter last : ℕ) (rows : Table)
    → field rec "id" ≡ text i
    → record_int (field rec "lastCounter") ≡ pos last
    → last < counter
    → claim_counter rec (pos counter) rows
      ≡ ((advance i last counter rows).0 == 1, (advance i last counter rows).1)
unfolding claim_counter
claim_new i rec counter last rows e f new =
    let g : int_leb (pos counter) (pos last) ≡ false = ground arith in
    rw (claim_counter, e, f, g) refl

-- A claim fails and leaves the record at its counter, or its counter is new and the record is at it.
abbrev IsStep : String → ℕ → ℕ → Bool × Table → Type 0
IsStep i m counter (won, rows) =
    ((won ≡ false) × IsAt i m rows) ⊎ ((won ≡ true) × (m < counter) × IsAt i counter rows)

advance-IsStep :
    (i : String) (counter last m : ℕ) (rows : Table)
    → last < counter
    → last < 2 ^ 53
    → m < 2 ^ 53
    → IsAt i m rows
    → IsStep i m counter ((advance i last counter rows).0 == 1, (advance i last counter rows).1)
advance-IsStep i counter last m rows new hl hm (inl gone) =
    let (count, left) =
      update_many-holds_none i "lastCounter" (integer int64 (pos last))
        (integer int64 (pos counter)) rows refl gone in
    inl (rw count refl, inl left)
advance-IsStep i counter last m rows new hl hm (inr (r, one, h)) =
    let (count, left) =
      update_many-holds i "lastCounter" (integer int64 (pos last)) (integer int64 (pos counter))
        rows refl r one in
    let same : equal (field r "lastCounter") (integer int64 (pos last)) ≡ (m == last) =
      rw h (equal-integer_small int64 int64 m last hm hl) in
    elim (Bool-cases (m == last)) [
      | inl e ↦ inr (
        rw (count, same, e) refl,
        ground arith,
        inr (
          merge (set "lastCounter" (integer int64 (pos counter))) r,
          rw (left, same, e) refl,
          field-set r "lastCounter" "lastCounter" (integer int64 (pos counter)),
        ),
      )
      | inr e ↦ inl (rw (count, same, e) refl, inr (r, rw (left, same, e) refl, h))
    ]

claim-IsStep :
    (i : String) (rec : Record) (counter m : ℕ) (rows : Table)
    → IsCall i (claim_of rec counter)
    → m < 2 ^ 53
    → IsAt i m rows
    → IsStep i m counter (claim_counter rec (pos counter) rows)
claim-IsStep i rec counter m rows (e, hc, (last, hl, f)) hm at =
    elim (Bool-cases (leb counter last)) [
      | inl g ↦
          subst (IsStep i m counter) (sym (claim_old i rec counter last rows f (ground arith)))
            (inl (refl, at))
      | inr g ↦
          subst (IsStep i m counter) (sym (claim_new i rec counter last rows e f (ground arith)))
            (advance-IsStep i counter last m rows (ground arith) hl hm at)
    ]

-- Whatever records the claims of concurrent requests had read, and however the calls are ordered:
-- the counters that are accepted for the record with an id strictly increase, from the one that is
-- stored. So no two claims accept one time step, and none accepts a step older than an accepted one. A
-- code that is accepted without a claim, as at the enrolment, is not counted. The calls other than
-- claims leave the counter alone or remove the record, and counters are below 2 ^ 53.
pub accepted-IsIncreasing :
    (i : String) (m : ℕ) (calls : List Call) (rows : Table)
    → m < 2 ^ 53
    → All (IsCall i) calls
    → IsAt i m rows
    → IsIncreasing m (accepted calls rows)
unfolding accepted
accepted-IsIncreasing i m [] rows hm ok_calls at = tt
accepted-IsIncreasing i m (claim_of rec counter ∷ calls) rows hm ((e, hc, l), hs) at =
    elim (claim-IsStep i rec counter m rows (e, hc, l) hm at) [
      | inl (lost, after) ↦
          rw lost
            (accepted-IsIncreasing i m calls (claim_counter rec (pos counter) rows).1 hm hs after)
      | inr (won, more, after) ↦ rw won (
        more,
        accepted-IsIncreasing i counter calls (claim_counter rec (pos counter) rows).1 hc hs after,
      )
    ]
accepted-IsIncreasing i m (other change ∷ calls) rows hm (keeps, hs) at =
    accepted-IsIncreasing i m calls (change rows) hm hs (keeps m rows at)
