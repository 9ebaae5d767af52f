-- ===== src/Cascade.antt =====
-- cascade.go, and DeleteUser of store.go: the records that go with a user.
-- The database is the list of its models with their records. Each call of the adapter may fail: an
-- argument gives the error of the call on a model, if it fails, and a call that fails changes nothing.
-- An adapter without transactions keeps what was deleted before an error.
pub mod Removal
use go_dev_auth.Prelude.{
  String, Bool, true, false, ◌||◌, Option, none, some, List, [], ◌∷◌, str_eq, if◌then◌else◌,
}
use go_dev_auth.Prelude.Assoc.{lookup, insert}
use go_dev_auth.Prelude.Result.{Result, ok, err}
use go_dev_auth.Storage.Error.{AdapterError}
use go_dev_auth.Storage.Value.{text}
use go_dev_auth.Storage.Filter.{Record, Where, w}
use go_dev_auth.Storage.Schema.{Table, Field, Reference}
use go_dev_auth.Storage.Contract.{first, reject, remove_first}

abbrev pub Database : Type 0
Database = List (String × List Record)

unfoldable pub rows_of : String → Database → List Record
unfolding lookup
rows_of model db = elim (lookup model db) [ none ↦ [] | some rows ↦ rows ]

-- DeleteMany of the adapter on one model
unfoldable pub delete_many_of : String → List Where → Database → Database
unfolding rows_of reject insert
delete_many_of model cs db = insert model (reject cs (rows_of model db)) db

-- `userReferenceField`: the first column that references the users, or "".
unfoldable pub user_reference_field : List Field → String
user_reference_field [] = ""
user_reference_field (f ∷ fs) =
    let rest = user_reference_field fs in
    elim f.references [ none ↦ rest | some ref ↦ if str_eq ref.model "user" then f.name else rest ]

-- The models that `DeleteUser` handles itself.
unfoldable pub is_handled : String → Bool
is_handled name = str_eq name "user" || (str_eq name "session" || str_eq name "account")

-- The error of the call of the adapter on a model.
abbrev pub Failures : Type 0
Failures = String → Option AdapterError

-- The error of one round of the loop, which passes over models without a column for the user.
unfoldable pub failure : Failures → String → String → Option AdapterError
unfolding is_handled
failure fails name column =
    if is_handled name then none else if str_eq column "" then none else fails name

-- `deleteUserPluginData`, over the tables of the schema in any order: its error, and the database that
-- it leaves.
unfoldable pub delete_user_plugin_data :
    Failures → List (String × Table) → String → Database → Option AdapterError × Database
unfolding is_handled user_reference_field delete_many_of failure
delete_user_plugin_data fails [] id db = (none, db)
delete_user_plugin_data fails ((name, t) ∷ tables) id db =
    let column = user_reference_field t.fields in
    elim (failure fails name column) [
      | some e ↦ (some e, db)
      | none ↦ delete_user_plugin_data fails tables id (
          if is_handled name
          then db
          else if str_eq column ""
          then db
          else delete_many_of name (w column (text id) ∷ []) db)
    ]

-- The last call of `DeleteUser`: the first record with the id, if there is one.
unfoldable pub delete_record : Failures → String → Database → Option AdapterError × Database
unfolding rows_of insert remove_first
delete_record fails id db = elim (fails "user") [
  | some e ↦ (some e, db)
  | none ↦ (none, insert "user" (remove_first (w "id" (text id) ∷ []) (rows_of "user" db)) db)
]

-- The calls of `DeleteUser`, in their order, up to the first that fails.
unfoldable pub delete_user_data :
    Failures → List (String × Table) → String → Database → Option AdapterError × Database
unfolding delete_many_of delete_user_plugin_data delete_record
delete_user_data fails tables id db = elim (fails "session") [
  | some e ↦ (some e, db)
  | none ↦
      let without_sessions = delete_many_of "session" (w "userId" (text id) ∷ []) db in
      elim (fails "account") [
        | some e ↦ (some e, without_sessions)
        | none ↦
            let (failed, cleared) =
              delete_user_plugin_data fails tables id
                (delete_many_of "account" (w "userId" (text id) ∷ []) without_sessions) in
            elim failed [ some e ↦ (some e, cleared) | none ↦ delete_record fails id cleared ]
      ]
]

-- The end of a transaction: what an error leaves is the start, if the adapter has transactions.
unfoldable pub committed :
    Bool → Database → Option AdapterError × Database → Result AdapterError Bool × Database
committed transactional db (none, left) = (ok true, left)
committed transactional db (some e, left) = (err e, if transactional then db else left)

-- `DeleteUser`, with the adapter's transactions or without
unfoldable pub delete_user :
    Bool
    → Failures
    → List (String × Table)
    → String
    → Database
    → Result AdapterError Bool × Database
unfolding delete_user_data committed
delete_user transactional fails tables id db =
    committed transactional db (delete_user_data fails tables id db)
