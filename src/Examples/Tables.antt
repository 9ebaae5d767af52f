-- ===== src/Examples/Tables.antt =====
-- The in-memory adapter on a table of users.
use go_dev_auth.Prelude.{
  ◌≡◌, refl, String, Bool, true, false, none, some, List, [], ◌∷◌, ◌++◌, arith, length,
}
use go_dev_auth.Prelude.Assoc.{merge, lookup-insert, lookup}
use go_dev_auth.Prelude.Result.{ok, err}
use go_dev_auth.Storage.Error.{unique_violation}
use go_dev_auth.Storage.Value.{text, indexable}
use go_dev_auth.Storage.Filter.{Record, Where, w}
use go_dev_auth.Storage.Schema.{Field, Table, field_string, unique_fields}
use go_dev_auth.Storage.Contract.{select, update_all}
use go_dev_auth.Memory.Index.{Coll, empty, key, declares, unique_of}
use go_dev_auth.Memory.Operations.{
  create, update_many, filterable, writable, FindOptions, with_defaults,
}
use go_dev_auth.Memory.Invariant.{IsValid}
use go_dev_auth.Memory.Invariant.Writes.{empty-IsValid}
use go_dev_auth.Memory.View.{view}
use go_dev_auth.Memory.Refines.{create_spec, create-refines}
use go_dev_auth.Memory.Updates.{KeepsId}
use go_dev_auth.Memory.Transaction.{transaction, transaction_spec, Implements, transaction-refines}
use go_dev_auth.Memory.Traces.{
  Call, add, change, find_by, list, remove, remove_all, total, HaveIds, run, run_spec, run-refines,
}
use go_dev_auth.Memory.Unique.{SetsNoUnique, update_many-IsValid}

abbrev column : String → Bool → Field
column name unique = record {
  name = name;
  type = field_string;
  required = true;
  unique = unique;
  index = false;
  references = none;
  default = none;
  input = true;
}

abbrev users : Table
users = record {
  name = "users";
  fields = column "id" true ∷ column "email" true ∷ column "name" false ∷ [];
  unique_constraints = ("email" ∷ "name" ∷ []) ∷ [];
}

abbrev alice : Record
alice = ("id", text "1") ∷ ("email", text "a@x") ∷ ("name", text "Alice") ∷ []

abbrev bob : Record
bob = ("id", text "2") ∷ ("email", text "b@x") ∷ ("name", text "Bob") ∷ []

id_declared : declares "id" (unique_of (some users)) ≡ true
unfolding declares unique_of unique_fields
id_declared = refl

alice_key : key "id" (with_defaults (some users) alice) ≡ some (text "1")
unfolding key with_defaults lookup indexable
alice_key = refl

bob_key : key "id" (with_defaults (some users) bob) ≡ some (text "2")
unfolding key with_defaults lookup indexable
bob_key = refl

abbrev one_user : Coll
one_user = (create (some users) alice empty).1

abbrev two_users : Coll
two_users = (create (some users) bob one_user).1

one_user-IsValid : IsValid (unique_of (some users)) one_user
one_user-IsValid =
    (create-refines (some users) alice empty (text "1") id_declared alice_key
      (empty-IsValid (unique_of (some users)))).0

two_users-IsValid : IsValid (unique_of (some users)) two_users
two_users-IsValid =
    (create-refines (some users) bob one_user (text "2") id_declared bob_key one_user-IsValid).0

-- Another user with the address of the first is refused.
create_again :
    (create (some users) (("id", text "3") ∷ ("email", text "a@x") ∷ []) one_user).0
    ≡ err unique_violation
unfolding create
create_again = refl

abbrev by_email : List Where
by_email = w "email" (text "b@x") ∷ []

abbrev rename : Record
rename = ("name", text "Robert") ∷ []

rename-KeepsId : KeepsId rename
unfolding merge key
rename-KeepsId r v k = (v, ground (arith, lookup-insert "name" "id" (text "Robert") r))

by_email-filterable : filterable (some users) by_email ≡ true
unfolding filterable
by_email-filterable = refl

rename-writable : writable (some users) rename ≡ true
unfolding writable
rename-writable = refl

abbrev mark : Record
mark = ("note", text "seen") ∷ []

abbrev noted : Table
noted = record users { fields = users.fields ++ column "note" false ∷ [] }

noted-IsValid : IsValid (unique_of (some noted)) two_users
unfolding unique_of unique_fields
noted-IsValid = two_users-IsValid

mark-SetsNoUnique : SetsNoUnique (some noted) mark
unfolding declares unique_of unique_fields
mark-SetsNoUnique = ((refl, (refl, tt)), tt)

noted-filterable : filterable (some noted) by_email ≡ true
unfolding filterable
noted-filterable = refl

mark-writable : writable (some noted) mark ≡ true
unfolding writable
mark-writable = refl

noted_id : declares "id" (unique_of (some noted)) ≡ true
unfolding declares unique_of unique_fields
noted_id = refl

update_many-IsValid_example :
    ((update_many (some noted) by_email mark two_users).0
      ≡ ok (length (select by_email (view two_users))))
    × (view (update_many (some noted) by_email mark two_users).1
        ≡ update_all by_email mark (view two_users))
    × IsValid (unique_of (some noted)) (update_many (some noted) by_email mark two_users).1
update_many-IsValid_example =
    update_many-IsValid (some noted) by_email mark two_users noted_id noted-IsValid noted-filterable
      mark-writable (λ e. cc e) mark-SetsNoUnique

abbrev first_page : FindOptions
first_page = record { limit = 1; offset = 0; sort_by = none }

create-Implements : Implements (some users) (create (some users) bob) (create_spec (some users) bob)
create-Implements = record {
  keeps = λ d v. (create-refines (some users) bob d (text "2") id_declared bob_key v).0;
  answer = λ d v. (create-refines (some users) bob d (text "2") id_declared bob_key v).1;
  left = λ d v. (create-refines (some users) bob d (text "2") id_declared bob_key v).2;
}

transaction-refines_example :
    IsValid (unique_of (some users)) (transaction (some users) (create (some users) bob) one_user).1
    × ((transaction (some users) (create (some users) bob) one_user).0
        ≡ (transaction_spec (create_spec (some users) bob) (view one_user)).0)
    × (view (transaction (some users) (create (some users) bob) one_user).1
        ≡ (transaction_spec (create_spec (some users) bob) (view one_user)).1)
transaction-refines_example =
    transaction-refines (some users) (create (some users) bob) (create_spec (some users) bob)
      one_user id_declared one_user-IsValid create-Implements

-- A refused registration, a change of address, reads, and removals.
abbrev calls : List Call
calls =
    add (("id", text "3") ∷ ("email", text "a@x") ∷ [])
    ∷ change by_email (("email", text "c@x") ∷ [])
    ∷ find_by "email" "c@x"
    ∷ add (("id", text "3") ∷ ("email", text "b@x") ∷ [])
    ∷ list [] first_page
    ∷ remove by_email
    ∷ remove_all []
    ∷ total []
    ∷ []

calls-HaveIds : HaveIds (some users) calls
unfolding merge key with_defaults lookup indexable
calls-HaveIds = (
  (text "3", refl),
  (
    λ r v k. (v, ground (arith, lookup-insert "email" "id" (text "c@x") r)),
    (tt, ((text "3", refl), (tt, (tt, (tt, (tt, tt)))))),
  ),
)

run-refines_example :
    IsValid (unique_of (some users)) (run (some users) calls two_users).1
    × ((run (some users) calls two_users).0 ≡ (run_spec (some users) calls (view two_users)).0)
    × (view (run (some users) calls two_users).1 ≡ (run_spec (some users) calls (view two_users)).1)
run-refines_example =
    run-refines (some users) id_declared calls two_users calls-HaveIds two_users-IsValid
