-- ===== src/Examples/Keys.antt =====
-- API keys on a small table.
use go_dev_auth.Prelude.{
  ℕ, ◌+◌, ◌≤◌, ◌≡◌, ◌⊎◌, inl, inr, refl, String, Bool, true, false, some, List, [], ◌∷◌, arith, pos,
}
use go_dev_auth.Prelude.Assoc.{insert}
use go_dev_auth.Storage.Value.{text, boolean, integer, int64, equal}
use go_dev_auth.Storage.Filter.{Record, field, w, matches, match_one}
use go_dev_auth.Storage.Contract.{select, first}
use go_dev_auth.ApiKey.{before_request, spend_loop, has_expired}
use go_dev_auth.ApiKey.Units.{
  Call, attempt_of, other, count_paid, count_paid-le, IsAt, paid, spend_loop-falls,
}
use go_dev_auth.ApiKey.Verified.{IsOwner, is_denied, before_request-IsUsable}

abbrev key : Record
key =
    ("id", text "k")
    ∷ ("userId", text "u")
    ∷ ("key", text "#secret")
    ∷ ("enabled", boolean true)
    ∷ ("remaining", integer int64 (pos 2))
    ∷ ("scopes", text "/org /api")
    ∷ []

abbrev keys : List Record
keys = key ∷ []

abbrev owner : Record
owner = ("id", text "u") ∷ []

key-IsAt : IsAt "k" 2 keys
unfolding select matches match_one equal field
key-IsAt = inr (key, refl, refl)

-- Requests that have read the same quota, and one that has read the new one.
abbrev attempts : List Call
attempts = attempt_of 2 ∷ attempt_of 2 ∷ other (λ rows. rows) ∷ attempt_of 1 ∷ attempt_of 1 ∷ []

count_paid-le_example : count_paid "k" attempts keys ≤ 2
count_paid-le_example =
    count_paid-le "k" 2 attempts keys (omega arith)
      (
        (omega arith, omega arith),
        (
          (omega arith, omega arith),
          (
            (λ m rows at. (m, omega arith, at)),
            ((omega arith, omega arith), ((omega arith, omega arith), tt)),
          ),
        ),
      )
      key-IsAt

-- The key is removed between two calls of the request.
abbrev removal : ℕ → List Record → List Record
removal n rows = []

spend_loop-falls_example :
    (k : ℕ) × (paid (spend_loop removal "k" 5 (pos 2) keys).0 + k ≤ 2)
    × IsAt "k" k (spend_loop removal "k" 5 (pos 2) keys).1
spend_loop-falls_example =
    spend_loop-falls removal "k" 5 2 2 keys
      (λ n m rows at. (m, omega arith, inl (unfold select in refl))) (omega arith) (omega arith)
      key-IsAt

abbrev digest : String → String
digest s = "#secret"

abbrev accept : Record → Bool
accept user = true

abbrev within : String → Bool
within id = true

before_request-IsUsable_example :
    ((rec : Record) × (first (w "key" (text (digest "gda_1")) ∷ []) keys ≡ some rec)
      × (field rec "enabled" ≡ boolean true)
      × (has_expired (field rec "expiresAt") 50 ≡ false)
      × IsOwner accept (owner ∷ []) rec owner)
    × ((false ≡ true) ⊎ (is_denied "/organization/list" ≡ false))
before_request-IsUsable_example =
    before_request-IsUsable digest (λ n rows. rows) accept within false false (pos 0) (owner ∷ [])
      "gda_1" "/organization/list" 50 keys owner "k"
      (unfold before_request first matches match_one equal insert field in refl)
