-- ===== src/Token/SingleUse.antt =====
-- A token is consumed once, however the requests interleave.
use go_dev_auth.Prelude.{
  ℕ, suc, ◌+◌, ◌≤◌, ◌≡◌, ◌≢◌, refl, sym, ap, subst, ◌∙◌, inl, inr, String, Bool, true, false, ◌&&◌,
  some, List, [], ◌∷◌, ◌++◌, length, str_eq, if◌then◌else◌, arith, Bool-cases, eq_iff,
}
use go_dev_auth.Prelude.Result.{Result, ok, err}
use go_dev_auth.Storage.Error.{AdapterError}
use go_dev_auth.Storage.Value.{text}
use go_dev_auth.Storage.Filter.{Record, Where, w, matches}
use go_dev_auth.Storage.Filter.Laws.{matches-w_text}
use go_dev_auth.Storage.Contract.{select, reject}
use go_dev_auth.Prelude.Assoc.{lookup}
use go_dev_auth.Token.{
  Table, Verification, create_verification, delete_by_identifier, claim, expired, to_map,
  expired_at,
}

-- What requests do to the table, call by call: requests of other tokens and the sweeper included.
pub data Call : Type 0 where
  create : (id identifier value : String) (expires_in now : ℕ) → Call
  remove_identifier : String → Call
  remove_expired : String → ℕ → Call
  sweep : ℕ → Call
  claim_of : Verification → Call

-- The table after a call, and whether the call claimed the record of an id.
abbrev pub claims : Result AdapterError String → Bool
claims (ok v) = true
claims (err e) = false

pub step : String → Call → Table → Bool × Table
step i (create id identifier value ttl now) rows =
    (false, (create_verification id identifier value ttl now rows).1)
step i (remove_identifier identifier) rows = (false, delete_by_identifier identifier rows)
step i (remove_expired identifier now) rows = (false, reject (expired identifier now) rows)
step i (sweep now) rows = (false, reject (expired_at now) rows)
step i (claim_of v) rows = (claims (claim v rows).0 && str_eq v.id i, (claim v rows).1)

-- How many of the calls, in the order in which they reach the adapter, claim the record of an id.
pub count_claims : String → List Call → Table → ℕ
unfolding step
count_claims i [] rows = 0
count_claims i (c ∷ cs) rows =
    let (won, rows') = step i c rows in
    let rest = count_claims i cs rows' in if won then suc rest else rest

-- No call gives a record the id: ids are generated at random.
abbrev pub IsFresh : String → List Call → Type 0
IsFresh i [] = Unit
IsFresh i (create id identifier value ttl now ∷ cs) = (id ≢ i) × IsFresh i cs
IsFresh i (_ ∷ cs) = IsFresh i cs

abbrev pub by_id : String → List Where
by_id i = w "id" (text i) ∷ []

abbrev pub holders : String → Table → ℕ
holders i rows = length (select (by_id i) rows)

select-append :
    (cs : List Where) (rows : Table) (r : Record)
    → length (select cs (rows ++ r ∷ []))
      ≡ length (select cs rows) + (if matches r cs then 1 else 0)
unfolding select
select-append cs [] r = ground arith
select-append cs (q ∷ rows) r = ground (arith, select-append cs rows r)

holders-reject :
    (i : String) (cs : List Where) (rows : Table) → holders i (reject cs rows) ≤ holders i rows
unfolding select reject
holders-reject i cs [] = omega arith
holders-reject i cs (r ∷ rows) = ground (arith, holders-reject i cs rows)

holders-reject_self : (i : String) (rows : Table) → holders i (reject (by_id i) rows) ≡ 0
unfolding select reject
holders-reject_self i [] = refl
holders-reject_self i (r ∷ rows) = ground (arith, holders-reject_self i rows)

pub matches-to_map_id :
    (v : Verification) (i : String) → matches (to_map v) (by_id i) ≡ str_eq v.id i
matches-to_map_id v i = elim (Bool-cases (str_eq v.id i)) [
  | inl e ↦
      (matches-w_text (to_map v) "id" i).1
        (unfold to_map lookup in ap (λ s. some (text s)) ((eq_iff v.id i).0 e))
      ∙ sym e
  | inr e ↦ elim (Bool-cases (matches (to_map v) (by_id i))) [
    | inr f ↦ f ∙ sym e
    | inl f ↦
        let held : some (text v.id) ≡ some (text i) =
          unfold to_map lookup in (matches-w_text (to_map v) "id" i).0 f in
        absurd (ground (arith, held, eq_iff v.id i))
  ]
]

-- The records that a call leaves with an id, and the claim that it makes of them, are no more than
-- the records there were.
step-holders :
    (i : String) (c : Call) (cs : List Call) (rows : Table)
    → IsFresh i (c ∷ cs)
    → (if (step i c rows).0 then 1 else 0) + holders i (step i c rows).1 ≤ holders i rows
unfolding step
step-holders i (create id identifier value ttl now) cs rows (fresh, h) =
    unfold create_verification in
    ground (
      arith,
      select-append (by_id i) rows
          (to_map (create_verification id identifier value ttl now rows).0),
      matches-to_map_id (create_verification id identifier value ttl now rows).0 i,
      eq_iff id i,
    )
step-holders i (remove_identifier identifier) cs rows h =
    unfold delete_by_identifier in
    omega (arith, holders-reject i (w "identifier" (text identifier) ∷ []) rows)
step-holders i (remove_expired identifier now) cs rows h =
    omega (arith, holders-reject i (expired identifier now) rows)
step-holders i (sweep now) cs rows h = omega (arith, holders-reject i (expired_at now) rows)
step-holders i (claim_of v) cs rows h = elim (Bool-cases (str_eq v.id i)) [
  | inr other ↦ unfold claim in ground (arith, holders-reject i (by_id v.id) rows)
  | inl same ↦
      subst
        (λ j.
          (if claims (claim v rows).0 && str_eq v.id j then 1 else 0) + holders j (claim v rows).1
          ≤ holders j rows)
        ((eq_iff v.id i).0 same) (unfold claim in ground (arith, holders-reject_self v.id rows))
]

IsFresh-tail : (i : String) (c : Call) (cs : List Call) → IsFresh i (c ∷ cs) → IsFresh i cs
IsFresh-tail i (create id identifier value ttl now) cs h = h.1
IsFresh-tail i (remove_identifier identifier) cs h = h
IsFresh-tail i (remove_expired identifier now) cs h = h
IsFresh-tail i (sweep now) cs h = h
IsFresh-tail i (claim_of v) cs h = h

count_claims-le :
    (i : String) (cs : List Call) (rows : Table)
    → IsFresh i cs
    → count_claims i cs rows ≤ holders i rows
unfolding count_claims
count_claims-le i [] rows h = omega arith
count_claims-le i (c ∷ cs) rows h = ground (
  arith,
  step-holders i c cs rows h,
  count_claims-le i cs (step i c rows).1 (IsFresh-tail i c cs h),
)

-- Let a table hold at most one record with an id. However the adapter calls of concurrent requests
-- and of the sweeper are ordered, at most one claim of that record succeeds, if no call creates a
-- record with the same id.
pub single_use :
    (i : String) (calls : List Call) (rows : Table)
    → holders i rows ≤ 1
    → IsFresh i calls
    → count_claims i calls rows ≤ 1
single_use i calls rows one fresh = omega (arith, count_claims-le i calls rows fresh)
