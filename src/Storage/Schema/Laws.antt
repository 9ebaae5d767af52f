-- ===== src/Storage/Schema/Laws.antt =====
-- What registration keeps of a schema.
use go_dev_auth.Prelude.{
  ◌≡◌, refl, true, false, List, [], ◌∷◌, ◌++◌, String, arith, none, some, Option, eq_iff, str_eq,
  Option-cases, Bool-cases, inl, inr, subst, ap, sym, ◌∙◌, if◌then◌else◌,
}
use go_dev_auth.Prelude.Assoc.{lookup, insert, lookup-insert}
use go_dev_auth.Storage.Value.{Value}
use go_dev_auth.Storage.Filter.{Record}
use go_dev_auth.Storage.Schema.{
  Field, Table, Schema, field_by_name, add_new_fields, add_table, add_fields, add_constraints,
  add_unique_constraint, apply_default, apply_defaults,
}

-- Fields.

field_by_name-append_kept :
    (n : String) (fs gs : List Field) (g : Field)
    → field_by_name n fs ≡ some g
    → field_by_name n (fs ++ gs) ≡ some g
unfolding field_by_name
field_by_name-append_kept n [] gs g h = cc
field_by_name-append_kept n (f ∷ fs) gs g h = ground (arith, field_by_name-append_kept n fs gs g)

-- A field that the table has is never replaced.
pub add_new_fields-kept :
    (n : String) (have fs : List Field) (g : Field)
    → field_by_name n have ≡ some g
    → field_by_name n (add_new_fields have fs) ≡ some g
unfolding add_new_fields
add_new_fields-kept n have [] g h = h
add_new_fields-kept n have (f ∷ fs) g h = elim (Option-cases (field_by_name f.name have)) [
  | inl e ↦
      rw e (
        add_new_fields-kept n (have ++ f ∷ []) fs g (field_by_name-append_kept n have (f ∷ []) g h))
  | inr (x, e) ↦ rw e (add_new_fields-kept n have fs g h)
]

field_by_name-append_new :
    (fs : List Field) (g : Field)
    → field_by_name g.name fs ≡ none
    → field_by_name g.name (fs ++ g ∷ []) ≡ some g
unfolding field_by_name
field_by_name-append_new [] g h = ground (arith, eq_iff g.name g.name)
field_by_name-append_new (f ∷ fs) g h = ground (arith, field_by_name-append_new fs g)

-- A name that no field has is given to the first new field of that name.
pub add_new_fields-new :
    (have fs : List Field) (g : Field)
    → field_by_name g.name have ≡ none
    → field_by_name g.name (add_new_fields have (g ∷ fs)) ≡ some g
unfolding add_new_fields
add_new_fields-new have fs g h =
    rw h (add_new_fields-kept g.name (have ++ g ∷ []) fs g (field_by_name-append_new have g h))

-- Keys.

abbrev pub keys {ℓ} : {V : Type ℓ} → List (String × V) → List String
keys [] = []
keys ((k, v) ∷ m) = k ∷ keys m

keys-insert_old {ℓ} :
    {V : Type ℓ} (k : String) (v w : V) (m : List (String × V))
    → lookup k m ≡ some w
    → keys (insert k v m) ≡ keys m
unfolding lookup insert
keys-insert_old k v w [] h = cc
keys-insert_old k v w ((j, u) ∷ m) h = ground (arith, eq_iff j k, keys-insert_old k v w m)

keys-insert_new {ℓ} :
    {V : Type ℓ} (k : String) (v : V) (m : List (String × V))
    → lookup k m ≡ none
    → keys (insert k v m) ≡ keys m ++ k ∷ []
unfolding lookup insert
keys-insert_new k v [] h = refl
keys-insert_new k v ((j, u) ∷ m) h = ground (arith, eq_iff j k, keys-insert_new k v m)

-- The registration order lists exactly the tables.
abbrev pub IsOrdered : Schema → Type 0
IsOrdered s = s.order ≡ keys s.tables

add_table-IsOrdered : (s : Schema) (t : Table) → IsOrdered s → IsOrdered (add_table s t)
unfolding add_table
add_table-IsOrdered s t h = elim (Option-cases (lookup t.name s.tables)) [
  | inl e ↦
      rw (e, add_table) (ap (λ o. o ++ t.name ∷ []) h ∙ sym (keys-insert_new t.name t s.tables e))
  | inr (x, e) ↦ rw (e, add_table) (h ∙ sym (keys-insert_old t.name _ x s.tables e))
]

add_fields-IsOrdered :
    (s : Schema) (m : String) (fs : List Field) → IsOrdered s → IsOrdered (add_fields s m fs)
unfolding add_fields
add_fields-IsOrdered s m fs h = elim (Option-cases (lookup m s.tables)) [
  | inl e ↦ rw (e, add_fields) (ap (λ o. o ++ m ∷ []) h ∙ sym (keys-insert_new m _ s.tables e))
  | inr (x, e) ↦ rw (e, add_fields) (h ∙ sym (keys-insert_old m _ x s.tables e))
]

add_unique_constraint-fields :
    (t : Table) (cols : List String) → (add_unique_constraint t cols).fields ≡ t.fields
unfolding add_unique_constraint
add_unique_constraint-fields t cols = ground arith

add_constraints-fields :
    (t : Table) (ucs : List (List String)) → (add_constraints t ucs).fields ≡ t.fields
unfolding add_constraints
add_constraints-fields t [] = refl
add_constraints-fields t (uc ∷ ucs) =
    add_constraints-fields (add_unique_constraint t uc) ucs ∙ add_unique_constraint-fields t uc

-- Extending a schema.

-- The tables declare `f` as the field `n` of the model `m`.
abbrev pub HasField : List (String × Table) → String → String → Field → Type 0
HasField tables m n f =
    (t : Table) × (lookup m tables ≡ some t) × (field_by_name n t.fields ≡ some f)

insert-HasField :
    (tables : List (String × Table)) (k : String) (t : Table) (m n : String) (f : Field)
    → ((x : Table)
        → lookup k tables ≡ some x
        → field_by_name n x.fields ≡ some f
        → field_by_name n t.fields ≡ some f)
    → HasField tables m n f
    → HasField (insert k t tables) m n f
insert-HasField tables k t m n f keep (x, e, g) = elim (Bool-cases (str_eq k m)) [
  | inl same ↦ (
    t,
    rw (lookup-insert k m t tables, same),
    keep x (subst (λ j. lookup j tables ≡ some x) (sym ((eq_iff k m).0 same)) e) g,
  )
  | inr other ↦ (x, rw (lookup-insert k m t tables, other) e, g)
]

-- Whatever table a plugin registers, a field that the schema has keeps its declaration, and the
-- order of registration goes on listing exactly the tables.
add_table-HasField :
    (s : Schema) (u : Table) (m n : String) (f : Field)
    → IsOrdered s
    → HasField s.tables m n f
    → HasField (add_table s u).tables m n f × IsOrdered (add_table s u)
unfolding add_table
add_table-HasField s u m n f o h = elim (Option-cases (lookup u.name s.tables)) [
  | inl e ↦ (
    rw (e, add_table) (insert-HasField s.tables u.name u m n f (λ x e' g. cc) h),
    unfold add_table in add_table-IsOrdered s u o,
  )
  | inr (x, e) ↦ (
    rw (e, add_table)
        (insert-HasField s.tables u.name _ m n f
          (λ y e' g.
            rw
              (add_constraints-fields (record x { fields = add_new_fields x.fields u.fields })
                u.unique_constraints)
              (add_new_fields-kept n x.fields u.fields f (ground arith)))
          h),
    add_table-IsOrdered s u o,
  )
]

-- Whatever fields a plugin adds to a model, a field that the schema has keeps its declaration, and
-- the order of registration, if it lists exactly the tables, goes on doing so.
pub add_fields-HasField :
    (s : Schema) (k : String) (fs : List Field) (m n : String) (f : Field)
    → IsOrdered s
    → HasField s.tables m n f
    → HasField (add_fields s k fs).tables m n f × IsOrdered (add_fields s k fs)
unfolding add_fields
add_fields-HasField s k fs m n f o h = elim (Option-cases (lookup k s.tables)) [
  | inl e ↦ (
    rw (e, add_fields) (insert-HasField s.tables k _ m n f (λ x e' g. cc) h),
    add_fields-IsOrdered s k fs o,
  )
  | inr (x, e) ↦ (
    rw (e, add_fields)
        (insert-HasField s.tables k _ m n f
          (λ y e' g. add_new_fields-kept n x.fields fs f (ground arith)) h),
    add_fields-IsOrdered s k fs o,
  )
]

-- Defaults.

apply_default-kept :
    (d : Option Value) (name k : String) (v : Value) (r : Record)
    → lookup k r ≡ some v
    → lookup k (apply_default d name r) ≡ some v
unfolding apply_default
apply_default-kept none name k v r h = h
apply_default-kept (some u) name k v r h = elim (Option-cases (lookup name r)) [
  | inl e ↦ rw (e, apply_default, lookup-insert name k u r) (ground (arith, eq_iff name k))
  | inr (x, e) ↦ rw (e, apply_default) h
]

apply_defaults-kept :
    (fs : List Field) (k : String) (v : Value) (r : Record)
    → lookup k r ≡ some v
    → lookup k (apply_defaults fs r) ≡ some v
unfolding apply_defaults
apply_defaults-kept [] k v r h = h
apply_defaults-kept (f ∷ fs) k v r h =
    apply_defaults-kept fs k v (apply_default f.default f.name r)
      (apply_default-kept f.default f.name k v r h)

apply_default-absent :
    (d : Option Value) (name k : String) (r : Record)
    → str_eq name k ≡ false
    → lookup k (apply_default d name r) ≡ lookup k r
unfolding apply_default
apply_default-absent none name k r h = refl
apply_default-absent (some u) name k r h = elim (Option-cases (lookup name r)) [
  | inl e ↦ rw (e, apply_default, lookup-insert name k u r, h)
  | inr (x, e) ↦ rw (e, apply_default)
]

-- The default that the fields declare for a name: that of the first field which has one.
abbrev pub default_of : String → List Field → Option Value
default_of k [] = none
default_of k (f ∷ fs) =
    if str_eq f.name k
    then elim f.default [ none ↦ default_of k fs | some v ↦ some v ]
    else default_of k fs

module _ (fs : List Field) (k : String) (r : Record) (absent : lookup k r ≡ none) where
  apply_default-declared :
      (v : Value) (name : String)
      → str_eq name k ≡ true
      → lookup k (apply_default (some v) name r) ≡ some v
  unfolding apply_default
  apply_default-declared v name e = ground (arith, absent, eq_iff name k, lookup-insert name k v r)

apply_defaults-absent :
    (fs : List Field) (k : String) (r : Record)
    → lookup k r ≡ none
    → lookup k (apply_defaults fs r) ≡ default_of k fs
unfolding apply_defaults
apply_defaults-absent [] k r h = h
apply_defaults-absent (f ∷ fs) k r h = elim (Bool-cases (str_eq f.name k)) [
  | inl e ↦ rw e (elim (Option-cases f.default) [
    | inl d ↦ rw d (apply_defaults-absent fs k r h)
    | inr (v, d) ↦ rw d (
        apply_defaults-kept fs k v (apply_default (some v) f.name r)
          (apply_default-declared fs k r h v f.name e))
  ])
  | inr e ↦ rw e (
      apply_defaults-absent fs k (apply_default f.default f.name r)
        (apply_default-absent f.default f.name k r e ∙ h))
]

-- A record with the defaults holds under each key what the caller wrote, and under a key that the
-- caller did not write the declared default, if there is one.
lookup-apply_defaults :
    (fs : List Field) (k : String) (r : Record)
    → lookup k (apply_defaults fs r)
      ≡ elim (lookup k r) [ none ↦ default_of k fs | some v ↦ some v ]
lookup-apply_defaults fs k r = elim (Option-cases (lookup k r)) [
  | inl e ↦ rw e (apply_defaults-absent fs k r e)
  | inr (v, e) ↦ rw e (apply_defaults-kept fs k v r e)
]
