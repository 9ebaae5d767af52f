-- ===== src/Token/Replace.antt =====
-- A stored token can be consumed, and storing it again replaces it.
use go_dev_auth.Prelude.{
  ℕ, ◌+◌, ◌<◌, ◌≡◌, ◌≢◌, refl, ap, ◌∙◌, String, true, some, List, [], ◌∷◌, ◌++◌, length,
  length-append, if◌then◌else◌, arith, eq_iff, eq_refl,
}
use go_dev_auth.Prelude.Assoc.{lookup, str_eq_ne}
use go_dev_auth.Prelude.Result.{ok, err}
use go_dev_auth.Storage.Error.{not_found}
use go_dev_auth.Storage.Value.{text}
use go_dev_auth.Storage.Filter.{Record, Where, w, matches}
use go_dev_auth.Storage.Filter.Laws.{matches-w_text}
use go_dev_auth.Storage.Contract.{select, reject}
use go_dev_auth.Memory.Operations.{sort_records}
use go_dev_auth.Token.{
  Table, Verification, claim, to_map, from_map, token_identifier, store_token_value, lookup_token,
  consume_token, find_verification, first_live, newest_first, expired,
}
use go_dev_auth.Token.SingleUse.{by_id, holders, matches-to_map_id}

abbrev pub by_identifier : String → List Where
by_identifier identifier = w "identifier" (text identifier) ∷ []

-- The model keeps every field of a verification.
from_map-to_map : (v : Verification) → from_map (to_map v) ≡ v
unfolding from_map to_map lookup
from_map-to_map v = refl

matches-to_map_identifier :
    (v : Verification) → matches (to_map v) (by_identifier v.identifier) ≡ true
matches-to_map_identifier v =
    (matches-w_text (to_map v) "identifier" v.identifier).1 (unfold to_map lookup in refl)

select-reject : (cs : List Where) (rows : Table) → select cs (reject cs rows) ≡ []
unfolding select reject
select-reject cs [] = refl
select-reject cs (r ∷ rows) = ground (arith, select-reject cs rows)

select-concat :
    (cs : List Where) (rows : Table) (r : Record)
    → select cs (rows ++ r ∷ []) ≡ select cs rows ++ (if matches r cs then r ∷ [] else [])
unfolding select
select-concat cs [] r = ground arith
select-concat cs (q ∷ rows) r = ground (arith, select-concat cs rows r)

-- The record that `store_token_value` adds.
abbrev pub stored : (String → String) → String → String → String → String → ℕ → ℕ → Verification
stored hash id kind token value ttl now = record {
  id = id;
  identifier = token_identifier hash kind token;
  value = value;
  expires_at = now + ttl;
  created_at = now;
  updated_at = now;
}

module _ (hash : String → String) (id kind token value : String) (ttl now : ℕ) (rows : Table) where
  abbrev new : Verification
  new = stored hash id kind token value ttl now

  abbrev after : Table
  after = store_token_value hash id kind token value ttl now rows

  after_lem : after ≡ reject (by_identifier new.identifier) rows ++ to_map new ∷ []
  unfolding store_token_value
  after_lem = refl

  -- Whatever records there were, the new one is the only one of the token.
  pub select-store_token_value : select (by_identifier new.identifier) after ≡ to_map new ∷ []
  select-store_token_value =
      ap (select (by_identifier new.identifier)) after_lem
      ∙ select-concat (by_identifier new.identifier) (reject (by_identifier new.identifier) rows)
          (to_map new)
      ∙ rw (select-reject (by_identifier new.identifier) rows, matches-to_map_identifier new)

pub select-reject_comm :
    (cs ds : List Where) (rows : Table) → select cs (reject ds rows) ≡ reject ds (select cs rows)
unfolding select reject
select-reject_comm cs ds [] = refl
select-reject_comm cs ds (r ∷ rows) = ground (arith, select-reject_comm cs ds rows)

pub holders-reject_zero :
    (i : String) (cs : List Where) (rows : Table)
    → holders i rows ≡ 0
    → holders i (reject cs rows) ≡ 0
unfolding select reject
holders-reject_zero i cs [] h = refl
holders-reject_zero i cs (r ∷ rows) h = ground (arith, holders-reject_zero i cs rows)

first_live-single :
    (v : Verification) (now : ℕ)
    → now < v.expires_at
    → first_live now (sort_records newest_first (to_map v ∷ [])) ≡ some v
unfolding first_live sort_records
first_live-single v now h = ground (arith, from_map-to_map v)

pub find_verification-none :
    (identifier : String) (now : ℕ) (rows : Table)
    → select (by_identifier identifier) rows ≡ []
    → (find_verification identifier now rows).0 ≡ err not_found
unfolding find_verification
find_verification-none identifier now rows h = rw (h, find_verification)

find_verification-single :
    (v : Verification) (now : ℕ) (rows : Table)
    → select (by_identifier v.identifier) rows ≡ to_map v ∷ []
    → now < v.expires_at
    → find_verification v.identifier now rows ≡ (ok v, rows)
unfolding find_verification
find_verification-single v now rows h live = rw (find_verification, h, first_live-single v now live)

module _ (hash : String → String) (id kind token value : String) (ttl now later : ℕ) (rows : Table)
    (given : token ≢ "") (live : later < now + ttl) (fresh : holders id rows ≡ 0) where
  abbrev pub put : Verification
  put = stored hash id kind token value ttl now

  abbrev pub kept : Table
  kept = store_token_value hash id kind token value ttl now rows

  looked_up : lookup_token hash kind token later kept ≡ (ok put, kept)
  unfolding lookup_token
  looked_up = rw (str_eq_ne token "" given) (
      find_verification-single put later kept
        (select-store_token_value hash id kind token value ttl now rows) live)

  one_holder : length (select (by_id id) kept) ≡ 1
  one_holder =
      ap (λ t. length (select (by_id id) t)) (after_lem hash id kind token value ttl now rows)
      ∙ ap length
          (select-concat (by_id id) (reject (by_identifier put.identifier) rows) (to_map put))
      ∙ ground (
        arith,
        length-append (select (by_id id) (reject (by_identifier put.identifier) rows))
            (if matches (to_map put) (by_id id) then to_map put ∷ [] else []),
        holders-reject_zero id (by_identifier put.identifier) rows fresh,
        matches-to_map_id put id,
        eq_iff id id,
      )

  pub consumed : consume_token hash kind token later kept ≡ (ok value, reject (by_id id) kept)
  unfolding consume_token claim
  consumed = rw (looked_up, one_holder)

  pub gone : select (by_identifier put.identifier) (reject (by_id id) kept) ≡ []
  gone =
      select-reject_comm (by_identifier put.identifier) (by_id id) kept
      ∙ ap (reject (by_id id)) (select-store_token_value hash id kind token value ttl now rows)
      ∙ (unfold reject in rw (matches-to_map_id put id, eq_refl))

-- A token without a record is not consumed, and has no record afterwards.
pub consume-none :
    (hash : String → String) (kind token : String) (now : ℕ) (rows : Table)
    → token ≢ ""
    → select (by_identifier (token_identifier hash kind token)) rows ≡ []
    → (consume_token hash kind token now rows
        ≡ (err not_found, reject (expired (token_identifier hash kind token) now) rows))
      × (select
            (by_identifier (token_identifier hash kind token))
            (reject (expired (token_identifier hash kind token) now) rows)
          ≡ [])
unfolding consume_token reject
consume-none hash kind token now rows given h = (
  rw (str_eq_ne token "" given, lookup_token, find_verification, h) refl,
  select-reject_comm (by_identifier (token_identifier hash kind token))
        (expired (token_identifier hash kind token) now) rows
      ∙ rw h refl,
)

-- Whatever records the table holds, also of the same token: a token that was stored is consumed,
-- before it expires, with the value stored last, and every later lookup of it finds nothing. The
-- token is not empty, and the generated id is not in use.
pub consume-store :
    (hash : String → String) (id kind token value : String) (ttl now later again : ℕ) (rows : Table)
    → token ≢ ""
    → later < now + ttl
    → holders id rows ≡ 0
    → let (out, left) =
        consume_token hash kind token later
          (store_token_value hash id kind token value ttl now rows) in
      (out ≡ ok value) × ((lookup_token hash kind token again left).0 ≡ err not_found)
unfolding lookup_token
consume-store hash id kind token value ttl now later again rows given live fresh =
    let e = consumed hash id kind token value ttl now later rows given live fresh in
    (
      ap (λ p. p.0) e,
      ap (λ p. (lookup_token hash kind token again p.1).0) e
          ∙ rw (str_eq_ne token "" given) (
              find_verification-none (token_identifier hash kind token) again _
                (gone hash id kind token value ttl now later rows given live fresh)),
    )
