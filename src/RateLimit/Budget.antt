-- ===== src/RateLimit/Budget.antt =====
-- The limit holds within a window.
use go_dev_auth.Prelude.{
  ℕ, suc, refl, ◌≢◌, ◌⊎◌, Option, ◌++◌, length, drop, Option-cases, ◌+◌, ◌-◌, ◌≤◌, ◌<◌, String, ◌≡◌,
  inl, inr, ◌&&◌, none, some, List, [], ◌∷◌, leb, str_eq, if◌then◌else◌, eq_iff, arith, Bool-cases,
  sym, ap, subst, eq_refl, ◌∙◌, str_eq,
}
use go_dev_auth.RateLimit.{Window, new_store, advance}
use go_dev_auth.RateLimit.Eviction.{
  Hit, Ledger, record_hit, ledger_answers, answers, IsTimed, answers-ledger,
}

-- How many of the answers to the hits of a key are within the limit.
abbrev pub allowed : String → ℕ → List Hit → List ℕ → ℕ
allowed key most [] ns = 0
allowed key most (h ∷ hits) [] = 0
allowed key most ((k, now) ∷ hits) (n ∷ ns) =
    let rest = allowed key most hits ns in if str_eq k key && leb n most then suc rest else rest

abbrev pub EndsBefore : ℕ → List Hit → Type 0
EndsBefore limit [] = Unit
EndsBefore limit ((k, now) ∷ hits) = (now < limit) × EndsBefore limit hits

-- Within its window a hit only counts.
advance_inside :
    (now window : ℕ) (w : Window)
    → 0 < window
    → now < w.start + window
    → advance now window (some w) ≡ record w { count = w.count + 1 }
unfolding advance
advance_inside now window w h k = ground arith

module _ (windows : String → ℕ) (key : String) (most : ℕ) (live : 0 < windows key) where
  hit_budget :
      (l : Ledger) (w : Window) (now : ℕ) (hits : List Hit)
      → l key ≡ some w
      → now < w.start + windows key
      → allowed key most hits (ledger_answers windows (record_hit key (windows key) now l).1 hits)
        ≤ most - (w.count + 1)
      → allowed key most ((key, now) ∷ hits) (ledger_answers windows l ((key, now) ∷ hits))
        ≤ most - w.count
  hit_budget l w now hits e inside ih =
      let n : (record_hit key (windows key) now l).0 ≡ w.count + 1 =
        ap (λ o. (advance now (windows key) o).count) e
        ∙ ap (λ (x : Window). x.count) (advance_inside now (windows key) w live inside) in
      ground (arith, eq_iff key key, n, ih)

  -- From a window with `count` hits, at most `most - count` more are allowed before it ends.
  ledger_budget :
      (l : Ledger) (w : Window) (hits : List Hit)
      → l key ≡ some w
      → EndsBefore (w.start + windows key) hits
      → allowed key most hits (ledger_answers windows l hits) ≤ most - w.count
  ledger_budget l w [] e ends = omega arith
  ledger_budget l w ((k, now) ∷ hits) e (inside, ends) = elim (Bool-cases (str_eq k key)) [
    | inr other ↦
        rw other (ledger_budget (record_hit k (windows k) now l).1 w hits (rw other e) ends)
    | inl same ↦
        let ih =
          ledger_budget (record_hit key (windows key) now l).1 (record w { count = w.count + 1 })
            hits
            (rw eq_refl (
              ap some (
                ap (advance now (windows key)) e ∙ advance_inside now (windows key) w live inside)))
            ends in
        subst
          (λ j.
            allowed key most ((j, now) ∷ hits) (ledger_answers windows l ((j, now) ∷ hits))
            ≤ most - w.count)
          (sym ((eq_iff k key).0 same)) (hit_budget l w now hits e inside ih)
  ]

-- No hit of the key stands within a window's length before that time.
abbrev pub IsOver : (String → ℕ) → String → ℕ → List Hit → Type 0
IsOver windows key now [] = Unit
IsOver windows key now ((k, t) ∷ hits) =
    ((k ≢ key) ⊎ (t + windows key ≤ now)) × IsOver windows key now hits

abbrev after : (String → ℕ) → Ledger → List Hit → Ledger
after windows l [] = l
after windows l ((k, t) ∷ hits) = after windows (record_hit k (windows k) t l).1 hits

ledger_answers-after :
    (windows : String → ℕ) (l : Ledger) (earlier hits : List Hit)
    → drop (length earlier) (ledger_answers windows l (earlier ++ hits))
      ≡ ledger_answers windows (after windows l earlier) hits
ledger_answers-after windows l [] hits = refl
ledger_answers-after windows l ((k, t) ∷ earlier) hits =
    ledger_answers-after windows (record_hit k (windows k) t l).1 earlier hits

module _ (windows : String → ℕ) (key : String) (now : ℕ) where
  -- The window of the key, if there is one, is over.
  abbrev IsReset : Option Window → Type 0
  IsReset o = (w : Window) → o ≡ some w → w.start + windows key ≤ now

  advance-IsReset :
      (t : ℕ) (o : Option Window)
      → IsReset o
      → t + windows key ≤ now
      → IsReset (some (advance t (windows key) o))
  unfolding advance
  advance-IsReset t o h le w e = elim (Option-cases o) [
    | inl n ↦ ground (arith, n)
    | inr (u, n) ↦ ground (arith, n, h u n)
  ]

  after-IsReset :
      (l : Ledger) (earlier : List Hit)
      → IsReset (l key)
      → IsOver windows key now earlier
      → IsReset (after windows l earlier key)
  after-IsReset l [] h over = h
  after-IsReset l ((k, t) ∷ earlier) h (one, over) =
      after-IsReset (record_hit k (windows k) t l).1 earlier
        (elim (Bool-cases (str_eq k key)) [
          | inr e ↦ rw e h
          | inl e ↦
              let same : k ≡ key = (eq_iff k key).0 e in
              let le : t + windows key ≤ now = elim one [
                | inl ne ↦ absurd (ne same)
                | inr le ↦ le
              ] in
              rw e (
                subst (λ j. IsReset (some (advance t (windows j) (l j)))) (sym same)
                  (advance-IsReset t (l key) h le))
        ])
        over

  advance-reset :
      (o : Option Window)
      → IsReset o
      → advance now (windows key) o ≡ record { start = now; count = 1; window = windows key }
  unfolding advance
  advance-reset o h = elim (Option-cases o) [
    | inl n ↦ ground (arith, n)
    | inr (u, n) ↦ ground (arith, n, h u n)
  ]

-- After any hits in the order of time, let a key be hit when no earlier hit of it lies within a window's
-- length, and then, with hits of any keys, until the window that starts is over: from that hit on, at
-- most `most` hits of the key are within the limit in all. The limit and the window are positive, each key
-- has one window length for all its hits, and the store has kept the hits since it was new.
pub allowed-le :
    (windows : String → ℕ) (key : String) (most started now : ℕ) (earlier hits : List Hit)
    → 0 < windows key
    → 0 < most
    → IsTimed started (earlier ++ (key, now) ∷ hits)
    → IsOver windows key now earlier
    → EndsBefore (now + windows key) hits
    → allowed key most
        ((key, now) ∷ hits)
        (drop (length earlier) (answers windows (new_store started) (earlier ++ (key, now) ∷ hits)))
      ≤ most
allowed-le windows key most started now earlier hits live some_allowed timed over ends =
    let before = after windows (λ k. none) earlier in
    let first : Window = record { start = now; count = 1; window = windows key } in
    let begins : advance now (windows key) (before key) ≡ first =
      advance-reset windows key now (before key)
        (after-IsReset windows key now (λ k. none) earlier (λ w e. absurd (cc)) over) in
    let l = (record_hit key (windows key) now before).1 in
    let rest =
      ledger_budget windows key most live l first hits (rw eq_refl (ap some begins)) ends in
    let counted : (record_hit key (windows key) now before).0 ≡ 1 =
      ap (λ (w : Window). w.count) begins in
    subst (λ ns. allowed key most ((key, now) ∷ hits) ns ≤ most)
      (sym (
        ap (drop (length earlier))
          (answers-ledger windows started (earlier ++ (key, now) ∷ hits) timed)
        ∙ ledger_answers-after windows (λ k. none) earlier ((key, now) ∷ hits)))
      (ground (arith, eq_iff key key, rest, counted))
