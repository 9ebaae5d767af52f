-- ===== src/Examples/Limits.antt =====
-- Hits on two keys.
use go_dev_auth.Prelude.{◌+◌, ◌≡◌, ◌≤◌, refl, inl, inr, List, [], ◌∷◌, ◌++◌, drop, arith, none}
use go_dev_auth.Prelude.Assoc.{ne_of_str_eq}
use go_dev_auth.RateLimit.{new_store}
use go_dev_auth.RateLimit.Eviction.{Hit, IsTimed, answers, ledger_answers, answers-ledger}
use go_dev_auth.RateLimit.Budget.{allowed, EndsBefore, allowed-le}

abbrev hits : List Hit
hits = ("b", 3) ∷ ("a", 5) ∷ ("a", 8) ∷ []

hits-IsTimed : IsTimed 2 hits
hits-IsTimed = (omega arith, (omega arith, (omega arith, tt)))

answers-ledger_example :
    answers (λ k. 60) (new_store 2) hits ≡ ledger_answers (λ k. 60) (λ k. none) hits
answers-ledger_example = answers-ledger (λ k. 60) 2 hits hits-IsTimed

-- Hits before a window, the first of them in an earlier window of the same key.
abbrev old : List Hit
old = ("a", 2) ∷ ("b", 70) ∷ []

abbrev recent : List Hit
recent = ("a", 75) ∷ ("b", 80) ∷ ("a", 81) ∷ []

recent-IsTimed : IsTimed 2 (old ++ ("a", 71) ∷ recent)
recent-IsTimed =
    (omega arith, (omega arith, (omega arith, (omega arith, (omega arith, (omega arith, tt))))))

recent-EndsBefore : EndsBefore (71 + 60) recent
recent-EndsBefore = (omega arith, (omega arith, (omega arith, tt)))

allowed-le_example :
    allowed "a" 2
      (("a", 71) ∷ recent)
      (drop 2 (answers (λ k. 60) (new_store 2) (old ++ ("a", 71) ∷ recent)))
    ≤ 2
allowed-le_example =
    allowed-le (λ k. 60) "a" 2 2 71 old recent (omega arith) (omega arith) recent-IsTimed
      (inr (omega arith), (inl (ne_of_str_eq "b" "a" refl), tt)) recent-EndsBefore
