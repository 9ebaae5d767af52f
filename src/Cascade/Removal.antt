-- ===== src/Cascade/Removal.antt =====
-- What is left of a user, and what is left of all else.
use go_dev_auth.Prelude.{
  ◌≡◌, String, false, Option, none, some, List, [], ◌∷◌, str_eq, if◌then◌else◌,
}
use go_dev_auth.Prelude.Assoc.{lookup, insert}
use go_dev_auth.Storage.Value.{text}
use go_dev_auth.Storage.Filter.{Record, Where, w}
use go_dev_auth.Storage.Schema.{Table}
use go_dev_auth.Storage.Contract.{reject, remove_first}
use go_dev_auth.Cascade.{Database, rows_of, delete_many_of, user_reference_field, is_handled}

-- The records of a model of the schema that do not refer to the user.
abbrev pub left_of : String → Option Table → List Record → List Record
left_of id none rows = rows
left_of id (some t) rows =
    if str_eq (user_reference_field t.fields) ""
    then rows
    else reject (w (user_reference_field t.fields) (text id) ∷ []) rows

-- The tables of a schema have distinct names.
abbrev pub IsNamed : List (String × Table) → Type 0
IsNamed [] = Unit
IsNamed ((name, t) ∷ tables) = (lookup name tables ≡ none) × IsNamed tables

-- What one round of the loop does to a model.
abbrev cleaned : String → Table → String → Database → Database
cleaned name t id db =
    if is_handled name
    then db
    else if str_eq (user_reference_field t.fields) ""
    then db
    else delete_many_of name (w (user_reference_field t.fields) (text id) ∷ []) db

-- What the loop leaves where no call fails.
abbrev swept : List (String × Table) → String → Database → Database
swept [] id db = db
swept ((name, t) ∷ tables) id db = swept tables id (cleaned name t id db)

abbrev of_user : String → List Where
of_user id = w "userId" (text id) ∷ []

-- Without its sessions and accounts.
abbrev started : String → Database → Database
started id db = delete_many_of "account" (of_user id) (delete_many_of "session" (of_user id) db)

-- What is left before the user's own record goes.
abbrev cleared : List (String × Table) → String → Database → Database
cleared tables id db = swept tables id (started id db)

-- The database after a deletion, model by model.
abbrev pub IsRemoved : List (String × Table) → String → Database → Database → Type 0
IsRemoved tables id db after =
    (rows_of "session" after ≡ reject (of_user id) (rows_of "session" db))
    × (rows_of "account" after ≡ reject (of_user id) (rows_of "account" db))
    × (rows_of "user" after ≡ remove_first (w "id" (text id) ∷ []) (rows_of "user" db))
    × ((model : String)
        → is_handled model ≡ false
        → rows_of model after ≡ left_of id (lookup model tables) (rows_of model db))

abbrev user_gone : String → Database → Database
user_gone id db = insert "user" (remove_first (w "id" (text id) ∷ []) (rows_of "user" db)) db

abbrev removed : List (String × Table) → String → Database → Database
removed tables id db = user_gone id (cleared tables id db)
