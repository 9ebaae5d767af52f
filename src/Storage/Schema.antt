-- ===== src/Storage/Schema.antt =====
-- storage/storage.go: tables and the schema that plugins extend.
pub mod Laws
use go_dev_auth.Prelude.{
  ℕ, String, Bool, true, false, ◌&&◌, ◌||◌, Option, none, some, List, [], ◌∷◌, ◌++◌, length, ltb,
  str_eq, if◌then◌else◌,
}
use go_dev_auth.Prelude.Assoc.{lookup, insert}
use go_dev_auth.Storage.Value.{Value}
use go_dev_auth.Storage.Filter.{Record}

pub data FieldType : Type 0 where
  field_string field_bool field_int field_time field_text : FieldType

pub record Reference : Type 0 where
  pub model : String
  pub field : String
  pub on_delete : String

pub record Field : Type 0 where
  pub name : String
  pub type : FieldType
  pub required : Bool
  pub unique : Bool
  pub index : Bool
  pub references : Option Reference
  pub default : Option Value
  pub input : Bool

pub record Table : Type 0 where
  pub name : String
  pub fields : List Field
  pub unique_constraints : List (List String)

apply_default : Option Value → String → Record → Record
unfolding lookup insert
apply_default none name r = r
apply_default (some v) name r = elim (lookup name r) [ none ↦ insert name v r | some _ ↦ r ]

-- `Table.ApplyDefaults`
unfoldable pub apply_defaults : List Field → Record → Record
unfolding apply_default
apply_defaults [] r = r
apply_defaults (f ∷ fs) r = apply_defaults fs (apply_default f.default f.name r)

-- `Table.UniqueFields`
unfoldable pub unique_fields : List Field → List String
unique_fields [] = []
unique_fields (f ∷ fs) = if f.unique then f.name ∷ unique_fields fs else unique_fields fs

-- `Table.FieldByName`
unfoldable pub field_by_name : String → List Field → Option Field
field_by_name name [] = none
field_by_name name (f ∷ fs) = if str_eq f.name name then some f else field_by_name name fs

unfoldable pub same_columns : List String → List String → Bool
same_columns [] [] = true
same_columns (a ∷ as') (b ∷ bs) = str_eq a b && same_columns as' bs
same_columns _ _ = false

declared : List (List String) → List String → Bool
unfolding same_columns
declared [] cols = false
declared (uc ∷ ucs) cols = same_columns uc cols || declared ucs cols

-- `Table.AddUniqueConstraint`
unfoldable pub add_unique_constraint : Table → List String → Table
unfolding declared
add_unique_constraint t cols =
    if ltb (length cols) 2
    then t
    else if declared t.unique_constraints cols
    then t
    else record t { unique_constraints = t.unique_constraints ++ cols ∷ [] }

-- The loop that adds the fields which the table does not have.
unfoldable pub add_new_fields : List Field → List Field → List Field
unfolding field_by_name
add_new_fields have [] = have
add_new_fields have (f ∷ fs) =
    add_new_fields (elim (field_by_name f.name have) [ none ↦ have ++ f ∷ [] | some _ ↦ have ]) fs

add_constraints : Table → List (List String) → Table
unfolding add_unique_constraint
add_constraints t [] = t
add_constraints t (uc ∷ ucs) = add_constraints (add_unique_constraint t uc) ucs

pub record Schema : Type 0 where
  pub tables : List (String × Table)
  pub order : List String

-- `NewSchema`
abbrev pub new_schema : Schema
new_schema = record { tables = []; order = [] }

abbrev put_table : Schema → String → Table → Schema
unfolding insert
put_table s name t = record s { tables = insert name t s.tables }

abbrev register : Schema → String → Table → Schema
unfolding insert
register s name t = record { tables = insert name t s.tables; order = s.order ++ name ∷ [] }

-- `Schema.AddTable`
unfoldable pub add_table : Schema → Table → Schema
unfolding lookup insert add_new_fields add_constraints
add_table s t = elim (lookup t.name s.tables) [
  | some existing ↦ put_table s t.name (
      add_constraints (record existing { fields = add_new_fields existing.fields t.fields })
        t.unique_constraints)
  | none ↦ register s t.name t
]

-- `Schema.AddFields`
unfoldable pub add_fields : Schema → String → List Field → Schema
unfolding lookup insert add_new_fields
add_fields s model fs = elim (lookup model s.tables) [
  | some t ↦ put_table s model (record t { fields = add_new_fields t.fields fs })
  | none ↦
      register s model
        (record { name = model; fields = add_new_fields [] fs; unique_constraints = [] })
]
