-- ===== src/Storage/Contract.antt =====
-- storage/storage.go: what the interface `Adapter` promises, on the plain list of a model's records.
use go_dev_auth.Prelude.{ℕ, length, Option, none, some, List, [], ◌∷◌, if◌then◌else◌}
use go_dev_auth.Prelude.Assoc.{merge}
use go_dev_auth.Storage.Filter.{Record, Where, matches}

-- The first record matching.
unfoldable pub first : List Where → List Record → Option Record
first cs [] = none
first cs (r ∷ rs) = if matches r cs then some r else first cs rs

-- All records matching, and all others.
unfoldable pub select : List Where → List Record → List Record
select cs [] = []
select cs (r ∷ rs) = if matches r cs then r ∷ select cs rs else select cs rs

unfoldable pub reject : List Where → List Record → List Record
reject cs [] = []
reject cs (r ∷ rs) = if matches r cs then reject cs rs else r ∷ reject cs rs

-- The first record matching is removed, or updated.
unfoldable pub remove_first : List Where → List Record → List Record
remove_first cs [] = []
remove_first cs (r ∷ rs) = if matches r cs then rs else r ∷ remove_first cs rs

unfoldable pub update_first : List Where → Record → List Record → List Record
update_first cs u [] = []
update_first cs u (r ∷ rs) = if matches r cs then merge u r ∷ rs else r ∷ update_first cs u rs

-- All records matching are updated.
unfoldable pub update_all : List Where → Record → List Record → List Record
update_all cs u [] = []
update_all cs u (r ∷ rs) = (if matches r cs then merge u r else r) ∷ update_all cs u rs

-- UpdateMany: how many records match, and the records that it leaves.
unfoldable pub update_many : List Where → Record → List Record → ℕ × List Record
unfolding select update_all
update_many cs u rs = (length (select cs rs), update_all cs u rs)
