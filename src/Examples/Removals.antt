-- ===== src/Examples/Removals.antt =====
-- The deletion of a user, and an identifier.
use go_dev_auth.Prelude.{
  ℕ, ◌≡◌, refl, true, false, String, none, some, List, [], ◌∷◌, length, All, arith, str_eq,
  if◌then◌else◌,
}
use go_dev_auth.Prelude.Result.{ok}
use go_dev_auth.Storage.Error.{not_found}
use go_dev_auth.Storage.Value.{text}
use go_dev_auth.Storage.Schema.{Table, Field, field_text}
use go_dev_auth.Cascade.{Database, Failures, delete_user}
use go_dev_auth.Random.{generate_id}
use go_dev_auth.Random.Sampling.{IsIdCharacter, generate_id-ends}

abbrev owner_field : Field
owner_field = record {
  name = "userId";
  type = field_text;
  required = true;
  unique = false;
  index = true;
  references = some (record { model = "user"; field = "id"; on_delete = "cascade" });
  default = none;
  input = false;
}

abbrev passkeys : Table
passkeys = record { name = "passkey"; fields = owner_field ∷ []; unique_constraints = [] }

abbrev notes : Table
notes = record { name = "note"; fields = []; unique_constraints = [] }

abbrev tables : List (String × Table)
tables = ("passkey", passkeys) ∷ ("note", notes) ∷ []

abbrev database : Database
database =
    ("user", (("id", text "u") ∷ []) ∷ (("id", text "v") ∷ []) ∷ [])
    ∷ ("session", (("userId", text "u") ∷ []) ∷ [])
    ∷ ("passkey", (("userId", text "v") ∷ []) ∷ (("userId", text "u") ∷ []) ∷ [])
    ∷ []

-- The passkeys cannot be deleted.
abbrev passkeys_fail : Failures
passkeys_fail model = if str_eq model "passkey" then some not_found else none

-- A user that is not there is deleted without an error.
nobody : (delete_user true (λ model. none) tables "w" database).0 ≡ ok true
unfolding delete_user
nobody = refl

-- Two reads of three bytes, of which two are rejected.
generate_id-ends_example :
    (out : List ℕ) × (generate_id 4 ((10 ∷ 63 ∷ 200 ∷ []) ∷ (255 ∷ 7 ∷ 61 ∷ []) ∷ []) ≡ some out)
    × (length out ≡ 4)
    × All IsIdCharacter out
generate_id-ends_example =
    generate_id-ends 4 ((10 ∷ 63 ∷ 200 ∷ []) ∷ (255 ∷ 7 ∷ 61 ∷ []) ∷ []) (omega arith)
