-- ===== src/Tests/Schemas.antt =====
-- Runs of internal/structs_r.go and of the schema and the patches of meta.go.
use goen.Prelude.{
  Bool, true, false, List, [], ◌∷◌, Str, str_eq, codes, pos, none, some, ◌≡◌, refl, if◌then◌else◌,
}
use goen.Go.Result.{ok}
use goen.Go.Value.{Value}
use goen.Go.Map.{lookup, insert}
use goen.RowKey.{MapRowKey, RowKey}
use goen.Patch.{Patch}
use goen.StructTag.{
  StructTag, tag_primary_key, tag_column, tag_foreign_key, child_key, colpairs, colpair,
  first_lookup, first_not_empty, column_spec_name, column_spec_omit_empty, string_at, split,
}
use goen.Structs.{
  GoType, ptr_to, slice_of, struct_type, basic_type, StructField, fields_by_func, is_column_field,
  is_primary_key_field, is_ignored_field, is_foreign_key_field, column_name, omit_empty, table_name,
  table_name_loop, field_by_column, eq_column_name, reference_key, is_one_to_many_field,
  is_many_to_one_field, is_struct_kind, elem_type, strip_ptr,
}
use goen.Compiler.Effect.Default.{IsSound}
use goen.Compiler.Effect.Memory.{memory_squirrel}
use goen.Meta.{
  MetaColumn, MetaTable, Entity, compute_of, add_columns, add_column, meta_column,
  add_all_references, add_references, refers_to, is_struct_named, reference_columns,
  add_reference_key,
}
use goen.Meta.Entities.{insert_patch_of, update_patch_of, primary_key_of}
use goen.Meta.Patches.{pairs, kept_pairs, update_patch_of-pairs}
use goen.Meta.Computed.{IsTable, referring, compute_of-IsTable}

abbrev field : Str → GoType → StructTag → Bool → StructField
field name typ tag anonymous = record { name = name; typ = typ; tag = tag; anonymous = anonymous }

-- type User struct { ID int `primary_key:""`; Name string `column:"name,omitempty"` }
abbrev id_field : StructField
id_field = field (codes "ID") (basic_type (codes "int")) ((tag_primary_key, []) ∷ []) false

abbrev name_field : StructField
name_field =
    field (codes "Name") (basic_type (codes "string")) ((tag_column, codes "name,omitempty") ∷ [])
      false

abbrev id_column : MetaColumn
id_column = record {
  field = id_field;
  omit_empty = false;
  part_of_primary_key = true;
  column_name = codes "id";
}

abbrev name_column : MetaColumn
name_column = record {
  field = name_field;
  omit_empty = true;
  part_of_primary_key = false;
  column_name = codes "name";
}

abbrev user_table : MetaTable
user_table = record {
  typ = codes "User";
  table_name = codes "user";
  primary_key = id_column ∷ [];
  reference_keys = [];
  one_to_many_reference_keys = [];
  many_to_one_reference_keys = [];
  columns = id_column ∷ name_column ∷ [];
}

abbrev number : Value
number = Value.int (codes "int") (pos 3)

abbrev user : Entity
user = record {
  typ = struct_type (codes "User");
  field_by_name = λ s.
      if str_eq s (codes "ID")
      then some number
      else if str_eq s (codes "Name")
      then some (Value.string (codes "string") (codes "Bob"))
      else none;
}

abbrev as_row_key : MapRowKey → RowKey memory_squirrel
as_row_key k = record {
  table_name = k.table;
  columns = [];
  values = [];
  sqlizer = memory_squirrel.eq k.key;
  to_sqlizer_with_dialect = λ d. memory_squirrel.eq k.key;
}

abbrev user_patch : Patch memory_squirrel
user_patch = insert_patch_of as_row_key user_table user

abbrev user_key : MapRowKey
user_key = record { table = codes "user"; key = (codes "id", number) ∷ [] }

update_patch_of-pairs_example :
    (p : Patch memory_squirrel) × (update_patch_of as_row_key user_table user ≡ ok p)
    × IsSound p
    × (p.row_key ≡ some (as_row_key user_key))
    × (pairs (p.columns, p.values) ≡ kept_pairs user (name_column ∷ []))
unfolding primary_key_of str_eq insert
update_patch_of-pairs_example = update_patch_of-pairs as_row_key user_table user user_key refl

-- type Blog struct { Owner *User `foreign_key:"ID:ID"`; Readers []*User `foreign_key:"ID:ID"` }
abbrev owner_field : StructField
owner_field =
    field (codes "Owner") (ptr_to (struct_type (codes "User")))
      ((tag_foreign_key, codes "ID:ID") ∷ []) false

abbrev readers_field : StructField
readers_field =
    field (codes "Readers") (slice_of (ptr_to (struct_type (codes "User"))))
      ((tag_foreign_key, codes "ID:ID") ∷ []) false

abbrev struct_fields : Str → List StructField
struct_fields s =
    if str_eq s (codes "User") then id_field ∷ name_field ∷ [] else owner_field ∷ readers_field ∷ []

abbrev same_name : Str → Str
same_name s = s

abbrev named : MetaColumn → Str → MetaColumn
named c name = record c { column_name = name }

abbrev user_id : List MetaColumn
user_id = named id_column (codes "ID") ∷ []

abbrev computed : MetaTable
computed = record user_table {
  table_name = codes "User";
  primary_key = user_id;
  reference_keys = user_id ∷ user_id ∷ [];
  one_to_many_reference_keys = user_id ∷ [];
  many_to_one_reference_keys = user_id ∷ [];
  columns = named id_column (codes "ID") ∷ name_column ∷ [];
}

compute_of-IsTable_example :
    IsTable same_name
      (struct_fields (codes "User"))
      (fields_by_func (struct_fields (codes "User")) is_column_field)
      (referring same_name struct_fields (codes "User") (codes "User" ∷ codes "Blog" ∷ []))
      computed
unfolding compute_of add_columns add_column meta_column add_all_references add_references refers_to
    is_struct_named is_column_field is_primary_key_field is_ignored_field is_foreign_key_field
    column_name omit_empty table_name table_name_loop first_lookup first_not_empty column_spec_name
    column_spec_omit_empty string_at split str_eq lookup reference_columns add_reference_key
    field_by_column eq_column_name reference_key is_one_to_many_field is_many_to_one_field
    is_struct_kind elem_type strip_ptr child_key colpairs colpair
compute_of-IsTable_example =
    compute_of-IsTable same_name struct_fields (codes "User" ∷ codes "Blog" ∷ []) (codes "User")
      computed refl
