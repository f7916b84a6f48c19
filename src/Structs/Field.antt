-- ===== src/Structs/Field.antt =====
-- internal/structs.go: what the tags of a field say. `T` is the type of the field's types: those of
-- package reflect, or those of package go/ast. `strcase.SnakeCase` is a parameter.
use goen.Prelude.{
  Bool, true, false, ◌&&◌, not, List, [], ◌∷◌, Str, str_eq, find?, filter, if◌then◌else◌, Option,
  none, some,
}
use goen.Go.Result.{Result, ok, panic, message, ◌>>=◌}
use goen.Go.Map.{lookup}
use goen.StructTag.{
  StructTag, tag_table, tag_view, tag_primary_key, tag_column, tag_foreign_key, tag_ignore,
  first_lookup, has, table_spec_name, column_spec_name, column_spec_omit_empty, first_not_empty,
  parent_key, child_key,
}

-- The interface `StructField` of internal/structs.go. Only package reflect shows embedded fields.
pub record FieldOf (T : Type 0) : Type 0 where
  pub name : Str
  pub typ : T
  pub tag : StructTag
  pub anonymous : Bool

unfoldable pub is_ignored_field : {T : Type 0} → FieldOf T → Bool
is_ignored_field f = has (lookup tag_ignore f.tag)

unfoldable pub is_primary_key_field : {T : Type 0} → FieldOf T → Bool
is_primary_key_field f = has (lookup tag_primary_key f.tag)

unfoldable pub is_foreign_key_field : {T : Type 0} → FieldOf T → Bool
is_foreign_key_field f = has (lookup tag_foreign_key f.tag)

unfoldable pub is_column_field : {T : Type 0} → FieldOf T → Bool
unfolding is_ignored_field is_foreign_key_field
is_column_field f = not (is_ignored_field f) && not (is_foreign_key_field f)

-- `FieldByFunc` and `FieldsByFunc`
abbrev pub field_by_func : {T : Type 0} → List (FieldOf T) → (FieldOf T → Bool) → Option (FieldOf T)
field_by_func fs fn = find? fn fs

abbrev pub fields_by_func : {T : Type 0} → List (FieldOf T) → (FieldOf T → Bool) → List (FieldOf T)
fields_by_func fs fn = filter fn fs

unfoldable pub eq_field_name : {T : Type 0} → Str → FieldOf T → Bool
eq_field_name name f = str_eq f.name name

unfoldable pub is_view_struct : {T : Type 0} → List (FieldOf T) → Bool
is_view_struct [] = false
is_view_struct (f ∷ fs) = elim (lookup tag_view f.tag) [ some s ↦ true | none ↦ is_view_struct fs ]

unfoldable pub foreign_key : {T : Type 0} → FieldOf T → Result (List Str)
foreign_key f =
    if not (is_foreign_key_field f)
    then panic (message "goen: unable to get foreign key from non-foreign key field" [])
    else ok (parent_key f.tag)

unfoldable pub reference_key : {T : Type 0} → FieldOf T → Result (List Str)
reference_key f =
    if not (is_foreign_key_field f)
    then panic (message "goen: unable to get reference key from non-foreign key field" [])
    else ok (child_key f.tag)

unfoldable pub omit_empty : {T : Type 0} → FieldOf T → Result Bool
omit_empty f =
    if is_ignored_field f
    then panic (message "goen: unable to get omitempty from ignored field" [])
    else elim (first_lookup f.tag (tag_primary_key ∷ tag_column ∷ [])) [
      | none ↦ ok false
      | some tv ↦ ok (column_spec_omit_empty f.tag)
    ]

module _ (snake_case : Str → Str) where
  -- `TableName`: the first field that is not ignored and has a table or view tag decides.
  unfoldable pub table_name_loop : {T : Type 0} → Str → List (FieldOf T) → Str
  table_name_loop name [] = name
  table_name_loop name (f ∷ fs) =
      let later = table_name_loop name fs in
      if is_ignored_field f then later else elim (first_lookup f.tag (tag_table ∷ tag_view ∷ [])) [
        | none ↦ later
        | some tv ↦ first_not_empty (table_spec_name f.tag ∷ name ∷ [])
      ]

  unfoldable pub table_name : {T : Type 0} → Str → List (FieldOf T) → Str
  unfolding table_name_loop
  table_name name fs = table_name_loop (snake_case name) fs

  unfoldable pub column_name : {T : Type 0} → FieldOf T → Result Str
  column_name f =
      if is_ignored_field f
      then panic (message "goen: unable to get column name from ignored field" [])
      else elim (first_lookup f.tag (tag_primary_key ∷ tag_column ∷ [])) [
        | none ↦ ok (snake_case f.name)
        | some tv ↦ ok (first_not_empty (column_spec_name f.tag ∷ snake_case f.name ∷ []))
      ]

  unfoldable pub eq_column_name : {T : Type 0} → Str → FieldOf T → Result Bool
  unfolding column_name
  eq_column_name name f =
      if is_ignored_field f then ok false else do n ← column_name f; ok (str_eq n name)

  -- `FieldByFunc(fields, EqColumnName(name))`
  unfoldable pub field_by_column :
      {T : Type 0} → Str → List (FieldOf T) → Result (Option (FieldOf T))
  field_by_column name [] = ok none
  field_by_column name (f ∷ fs) = eq_column_name name f >>= λ same.
      let later = field_by_column name fs in if same then ok (some f) else later
