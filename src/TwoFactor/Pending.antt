-- ===== src/TwoFactor/Pending.antt =====
-- A pending challenge: its value, and how many wrong codes it takes.
use go_dev_auth.Prelude.{
  ℕ, zero, suc, ◌+◌, ◌^◌, ◌<◌, ◌≡◌, ◌≢◌, refl, ap, sym, subst, ◌∙◌, String, false, List, [], ◌∷◌,
  if◌then◌else◌, arith, pos, ltb, lt→ltb, ◌-◌,
}
use go_dev_auth.Prelude.Result.{ok}
use go_dev_auth.Prelude.Decimal.{itoa, has_code, atoi-itoa, cut-append}
use go_dev_auth.Storage.Contract.{select, reject}
use go_dev_auth.Token.{Table, token_identifier, consume_token, store_token_value}
use go_dev_auth.Token.SingleUse.{holders, by_id}
use go_dev_auth.Token.Replace.{by_identifier, consumed, gone, holders-reject_zero, consume-none}
use go_dev_auth.TwoFactor.{
  Failure, unauthorized, invalid_code, too_many_attempts, PendingChallenge, parse_pending_value,
  pending_value, next_attempt, record_failure, fail_attempt, kind_pending, pending_ttl,
}

-- The value that is written for a user and a number of attempts below 2 ^ 63 is read back, if the
-- user's id has no "|".
pub parse_pending_value-pending_value :
    (user_id : String) (attempts : ℕ)
    → has_code b'|' user_id ≡ false
    → attempts < 2 ^ 63
    → parse_pending_value (pending_value user_id (pos attempts)) ≡ (user_id, pos attempts)
unfolding parse_pending_value
parse_pending_value-pending_value user_id attempts h small =
    rw (parse_pending_value, cut-append "|" user_id (itoa (pos attempts)) h)
      (ap (λ n. (user_id, n)) (atoi-itoa attempts small))

-- Wrong codes for one challenge, one after the other: the id generated for the record that each
-- leaves, and the time. The challenge is the one that a request finds by the cookie.
pub guesses :
    (String → String) → PendingChallenge → List (String × ℕ) → Table → List Failure × Table
unfolding fail_attempt
guesses hash ch [] rows = ([], rows)
guesses hash ch ((id, now) ∷ later) rows =
    let (answer, rows') = fail_attempt hash id ch now rows in
    let (answers, rows'') = guesses hash ch later rows' in (answer ∷ answers, rows'')

-- The answers that are promised with so many wrong codes left.
pub promised : ℕ → List (String × ℕ) → List Failure
promised left [] = []
promised zero (g ∷ later) = unauthorized ∷ promised zero later
promised (suc zero) (g ∷ later) = too_many_attempts ∷ promised zero later
promised (suc (suc left)) (g ∷ later) = invalid_code ∷ promised (suc left) later

-- No generated id is in use, and each code comes before the record of the challenge expires.
abbrev pub IsTimely : (String → String) → PendingChallenge → ℕ → List (String × ℕ) → Table → Type 0
IsTimely hash ch before [] rows = Unit
IsTimely hash ch before ((id, now) ∷ later) rows =
    (holders id rows ≡ 0)
    × (now < before + pending_ttl)
    × IsTimely hash ch now later (fail_attempt hash id ch now rows).1

next_attempt_lem : (n : ℕ) → n < 2 ^ 63 - 1 → next_attempt (pos n) ≡ pos (suc n)
unfolding next_attempt
next_attempt_lem n h = ground arith

record_failure-ok :
    (hash : String → String) (id : String) (ch : PendingChallenge) (now n : ℕ) (value : String)
    (left : Table)
    → (parse_pending_value value).1 ≡ pos n
    → n < 5
    → record_failure hash id ch now (ok value, left) ≡ (
        if ltb (suc n) 5
        then (
          invalid_code,
          store_token_value hash id kind_pending ch.token
              (pending_value ch.user_id (pos (suc n)))
              pending_ttl
              now
              left,
        )
        else (too_many_attempts, left))
unfolding record_failure
record_failure-ok hash id ch now n value left read few =
    let next : next_attempt (parse_pending_value value).1 ≡ pos (suc n) =
      ap next_attempt read ∙ next_attempt_lem n (omega arith) in
    rw next (ground arith)

module _ (hash : String → String) (ch : PendingChallenge) (given : ch.token ≢ "")
    (bare : has_code b'|' ch.user_id ≡ false) where
  -- The record of the challenge is the only one of its token, and tells how many codes were wrong.
  abbrev IsLive : ℕ → ℕ → Table → Type 0
  IsLive n now rows =
      (id : String) × (value : String) × (rest : Table) × (holders id rest ≡ 0)
      × ((parse_pending_value value).1 ≡ pos n)
      × (rows ≡ store_token_value hash id kind_pending ch.token value pending_ttl now rest)

  abbrev IsGone : Table → Type 0
  IsGone rows = select (by_identifier (token_identifier hash kind_pending ch.token)) rows ≡ []

  fail_attempt_lem :
      (id : String) (now : ℕ) (rows : Table)
      → fail_attempt hash id ch now rows
        ≡ record_failure hash id ch now (consume_token hash kind_pending ch.token now rows)
  unfolding fail_attempt
  fail_attempt_lem id now rows = refl

  fail-IsGone :
      (id : String) (now : ℕ) (rows : Table)
      → IsGone rows
      → ((fail_attempt hash id ch now rows).0 ≡ unauthorized)
        × IsGone (fail_attempt hash id ch now rows).1
  unfolding record_failure
  fail-IsGone id now rows gone_now =
      let (e, after) = consume-none hash kind_pending ch.token now rows given gone_now in
      let f = fail_attempt_lem id now rows ∙ ap (record_failure hash id ch now) e in
      subst (λ out. (out.0 ≡ unauthorized) × IsGone out.1) (sym f) (refl, after)

  -- A claim of a live challenge gives its value, and removes its record.
  fail-live_lem :
      (id old value : String) (n before now : ℕ) (rest : Table)
      → now < before + pending_ttl
      → holders old rest ≡ 0
      → (parse_pending_value value).1 ≡ pos n
      → n < 5
      → fail_attempt hash id ch now
          (store_token_value hash old kind_pending ch.token value pending_ttl before rest)
        ≡ (let left =
              reject
                (by_id old)
                (store_token_value hash old kind_pending ch.token value pending_ttl before rest) in
            if ltb (suc n) 5
            then (
              invalid_code,
              store_token_value hash id kind_pending ch.token
                  (pending_value ch.user_id (pos (suc n)))
                  pending_ttl
                  now
                  left,
            )
            else (too_many_attempts, left))
  fail-live_lem id old value n before now rest timely unused read few =
      fail_attempt_lem id now _
      ∙ ap (record_failure hash id ch now) (
          consumed hash old kind_pending ch.token value pending_ttl before now rest given timely
            unused)
      ∙ record_failure-ok hash id ch now n value _ read few

  fail-IsLive :
      (id : String) (n before now : ℕ) (rows : Table)
      → holders id rows ≡ 0
      → now < before + pending_ttl
      → suc n < 5
      → IsLive n before rows
      → ((fail_attempt hash id ch now rows).0 ≡ invalid_code)
        × IsLive (suc n) now (fail_attempt hash id ch now rows).1
  fail-IsLive id n before now rows fresh timely few (old, value, rest, unused, read, e) =
      let kept_rows =
        store_token_value hash old kind_pending ch.token value pending_ttl before rest in
      let f =
        ap (fail_attempt hash id ch now) e
        ∙ fail-live_lem id old value n before now rest timely unused read (omega arith)
        ∙ rw (lt→ltb (suc n) 5 few) refl in
      subst (λ out. (out.0 ≡ invalid_code) × IsLive (suc n) now out.1) (sym f)
        (
          refl,
          (
            id,
            pending_value ch.user_id (pos (suc n)),
            reject (by_id old) kept_rows,
            holders-reject_zero id (by_id old) kept_rows (subst (λ t. holders id t ≡ 0) e fresh),
            ap (λ p. p.1) (parse_pending_value-pending_value ch.user_id (suc n) bare (omega arith)),
            refl,
          ),
        )

  fail-last :
      (id : String) (before now : ℕ) (rows : Table)
      → now < before + pending_ttl
      → IsLive 4 before rows
      → ((fail_attempt hash id ch now rows).0 ≡ too_many_attempts)
        × IsGone (fail_attempt hash id ch now rows).1
  fail-last id before now rows timely (old, value, rest, unused, read, e) =
      let f =
        ap (fail_attempt hash id ch now) e
        ∙ fail-live_lem id old value 4 before now rest timely unused read (omega arith) in
      subst (λ out. (out.0 ≡ too_many_attempts) × IsGone out.1) (sym f)
        (
          refl,
          gone hash old kind_pending ch.token value pending_ttl before now rest given timely unused,
        )

  guesses-IsGone :
      (gs : List (String × ℕ)) (rows : Table)
      → IsGone rows
      → ((guesses hash ch gs rows).0 ≡ promised 0 gs) × IsGone (guesses hash ch gs rows).1
  unfolding guesses promised
  guesses-IsGone [] rows h = (refl, h)
  guesses-IsGone ((id, now) ∷ gs) rows h =
      let (answer, after) = fail-IsGone id now rows h in
      let (answers, last) = guesses-IsGone gs (fail_attempt hash id ch now rows).1 after in
      (cc (answer, answers), last)

  -- The challenge has been used up, or it is live and has taken so many codes.
  guesses-live :
      (left n before : ℕ) (gs : List (String × ℕ)) (rows : Table)
      → n + suc left ≡ 5
      → IsTimely hash ch before gs rows
      → IsLive n before rows
      → (guesses hash ch gs rows).0 ≡ promised (suc left) gs
  unfolding guesses promised
  guesses-live left n before [] rows total timely live = refl
  guesses-live zero n before ((id, now) ∷ gs) rows total (fresh, soon, later) live =
      let four : n ≡ 4 = omega arith in
      let (answer, after) =
        fail-last id before now rows soon (subst (λ k. IsLive k before rows) four live) in
      let (answers, last) = guesses-IsGone gs (fail_attempt hash id ch now rows).1 after in
      cc (answer, answers)
  guesses-live (suc left) n before ((id, now) ∷ gs) rows total (fresh, soon, later) live =
      let (answer, after) = fail-IsLive id n before now rows fresh soon (omega arith) live in
      let answers =
        guesses-live left (suc n) now gs (fail_attempt hash id ch now rows).1 (omega arith) later
          after in
      cc (answer, answers)

-- A challenge is stored with a value that tells `n` wrong codes, less than five. However many wrong
-- codes follow, each before the challenge expires, the answers are: that the code is invalid until
-- the fifth wrong code, then that there were too many attempts, and from then on that there is no
-- challenge. The generated ids are not in use, the token is not empty and the user's id has no "|".
pub guesses-promised :
    (hash : String → String) (ch : PendingChallenge) (id value : String) (left n now : ℕ)
    (gs : List (String × ℕ)) (rows : Table)
    → ch.token ≢ ""
    → has_code b'|' ch.user_id ≡ false
    → holders id rows ≡ 0
    → (parse_pending_value value).1 ≡ pos n
    → n + suc left ≡ 5
    → IsTimely hash ch now gs
        (store_token_value hash id kind_pending ch.token value pending_ttl now rows)
    → (guesses hash ch gs
        (store_token_value hash id kind_pending ch.token value pending_ttl now rows)).0
      ≡ promised (suc left) gs
guesses-promised hash ch id value left n now gs rows given bare unused read total timely =
    guesses-live hash ch given bare left n now gs _ total timely
      (id, value, rows, unused, read, refl)
