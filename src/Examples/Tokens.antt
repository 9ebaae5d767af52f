-- ===== src/Examples/Tokens.antt =====
-- One-time tokens on small tables.
use go_dev_auth.Prelude.{◌≤◌, ◌≡◌, refl, String, List, [], ◌∷◌, arith}
use go_dev_auth.Prelude.Assoc.{ne_of_str_eq}
use go_dev_auth.Storage.Contract.{select}
use go_dev_auth.Prelude.Result.{Result, ok, err}
use go_dev_auth.Storage.Error.{AdapterError, not_found}
use go_dev_auth.Token.{Table, Verification, to_map, store_token_value, consume_token, lookup_token}
use go_dev_auth.Token.SingleUse.{
  Call, claim_of, sweep, create, count_claims, single_use, holders, matches-to_map_id,
}
use go_dev_auth.Token.Replace.{consume-store}

abbrev reset : Verification
reset = record {
  id = "7";
  identifier = "reset:abc";
  value = "user-1";
  expires_at = 100;
  created_at = 10;
  updated_at = 10;
}

abbrev stored : Table
stored = to_map reset ∷ []

-- Two requests claim the same token, and a sweep and another request's token come in between.
abbrev race : List Call
race = claim_of reset ∷ sweep 50 ∷ create "8" "reset:def" "user-2" 60 20 ∷ claim_of reset ∷ []

one_holder : holders "7" stored ≤ 1
unfolding select
one_holder = ground (arith, matches-to_map_id reset "7")

no_holder : holders "8" stored ≡ 0
unfolding select
no_holder = ground (arith, matches-to_map_id reset "8")

single_use_example : count_claims "7" race stored ≤ 1
single_use_example = single_use "7" race stored one_holder (ne_of_str_eq "8" "7" refl, tt)

abbrev consumed : Result AdapterError String × Table
consumed =
    consume_token (λ s. s) "reset" "abc" 30
      (store_token_value (λ s. s) "8" "reset" "abc" "user-2" 60 20 stored)

-- A token that is stored twice is consumed with the second value, and then not found.
consume-store_example :
    (consumed.0 ≡ ok "user-2")
    × ((lookup_token (λ s. s) "reset" "abc" 40 consumed.1).0 ≡ err not_found)
consume-store_example =
    consume-store (λ s. s) "8" "reset" "abc" "user-2" 60 20 30 40 stored
      (ne_of_str_eq "abc" "" refl) (omega arith) no_holder
