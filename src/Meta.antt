-- ===== src/Meta.antt =====
-- meta.go: the schema of the registered struct types. The keys and patches of an entity are in the
-- child `Entities`.
pub mod KeyString
pub mod Computed
pub mod Entities
pub mod Patches
use goen.Prelude.{
  Bool, true, false, ◌&&◌, ◌||◌, not, List, [], ◌∷◌, ◌++◌, map, Str, str_eq, codes, if◌then◌else◌,
  Option, none, some,
}
use goen.Go.Result.{Result, ok, err, panic, message, ◌>>=◌}
use goen.Go.Value.{Value, is_empty_value}
use goen.Go.Map.{Map, lookup, insert}
use goen.Squirrel.{Squirrel}
use goen.RowKey.{MapRowKey, RowKey}
use goen.Patch.{Patch, PatchKind}
use goen.StructTag.{StructTag}
use goen.Structs.{
  field_by_column, GoType, ptr_to, struct_type, StructField, kind, pointer, elem_type,
  is_column_field, is_ignored_field, is_foreign_key_field, is_primary_key_field,
  is_one_to_many_field, is_many_to_one_field, reference_key, omit_empty, table_name, column_name,
  eq_column_name, fields_by_func, strip_ptr,
}

pub record MetaColumn : Type 0 where
  pub field : StructField
  pub omit_empty : Bool
  pub part_of_primary_key : Bool
  pub column_name : Str

-- `typ` is the name of the struct type.
pub record MetaTable : Type 0 where
  pub typ : Str
  pub table_name : Str
  pub primary_key : List MetaColumn
  pub reference_keys : List (List MetaColumn)
  pub one_to_many_reference_keys : List (List MetaColumn)
  pub many_to_one_reference_keys : List (List MetaColumn)
  pub columns : List MetaColumn

-- `built` is nil until the tables are computed.
pub record MetaSchema : Type 0 where
  pub typlist : List Str
  pub built : Option (Map MetaTable)

abbrev pub new_meta_schema : MetaSchema
new_meta_schema = record { typlist = []; built = none }

-- An entity: the type that reflect.TypeOf shows, and what `FieldByName` finds in it (`none` is a
-- value that is not valid).
pub record Entity : Type 0 where
  pub typ : GoType
  pub field_by_name : Str → Option Value

module _ (snake_case : Str → Str) where
  -- The column of a field, as it is built at both places of `computeOf`.
  unfoldable pub meta_column : StructField → Result MetaColumn
  meta_column f = do
    name ← column_name snake_case f
    omit ← omit_empty f
    ok (record {
      field = f;
      omit_empty = omit;
      part_of_primary_key = is_primary_key_field f;
      column_name = name;
    })

  -- One round of the loop over the column fields.
  unfoldable pub add_column : StructField → MetaTable → Result MetaTable
  unfolding meta_column
  add_column f tbl = do
    col ← meta_column f
    ok (record tbl {
      primary_key = if is_primary_key_field f then tbl.primary_key ++ col ∷ [] else tbl.primary_key;
      columns = tbl.columns ++ col ∷ [];
    })

  unfoldable pub add_columns : List StructField → MetaTable → Result MetaTable
  add_columns [] tbl = ok tbl
  add_columns (f ∷ fs) tbl = do tbl' ← add_column f tbl; add_columns fs tbl'

  -- The loop over the names of one reference key; a name with no field is passed over.
  unfoldable pub reference_columns : List StructField → List Str → Result (List MetaColumn)
  reference_columns fs [] = ok []
  reference_columns fs (name ∷ names) = do
    found ← field_by_column snake_case name fs
    rest ← reference_columns fs names
    elim found [ none ↦ ok rest | some f ↦ (do col ← meta_column f; ok (col ∷ rest)) ]

  -- The cases of the switch on the field's type, with the append to all reference keys: whether the
  -- field is one-to-many is known.
  abbrev pub add_key_of_kind : Bool → StructField → List MetaColumn → MetaTable → Result MetaTable
  add_key_of_kind true f key tbl = ok (record tbl {
    reference_keys = tbl.reference_keys ++ key ∷ [];
    one_to_many_reference_keys = tbl.one_to_many_reference_keys ++ key ∷ [];
  })
  add_key_of_kind false f key tbl = is_many_to_one_field f >>= λ many_to_one. ok (record tbl {
    reference_keys = tbl.reference_keys ++ key ∷ [];
    many_to_one_reference_keys =
        if many_to_one
        then tbl.many_to_one_reference_keys ++ key ∷ []
        else tbl.many_to_one_reference_keys;
  })

  unfoldable pub add_reference_key : StructField → List MetaColumn → MetaTable → Result MetaTable
  add_reference_key f key tbl =
      is_one_to_many_field f >>= λ one_to_many. add_key_of_kind one_to_many f key tbl

  unfoldable pub is_struct_named : Str → GoType → Bool
  is_struct_named typ (struct_type s) = str_eq s typ
  is_struct_named typ _ = false

  -- Which fields of another struct type refer to the type.
  unfoldable pub refers_to : Str → StructField → Bool
  unfolding is_struct_named
  refers_to typ f =
      if is_ignored_field f
      then false
      else if not (is_foreign_key_field f)
      then false
      else is_struct_named typ (elem_type f.typ)

  -- The loop over the fields that refer to the type.
  unfoldable pub add_references : List StructField → List StructField → MetaTable → Result MetaTable
  unfolding reference_columns add_reference_key
  add_references fs [] tbl = ok tbl
  add_references fs (f ∷ refe_fields) tbl = do
    names ← reference_key f
    key ← reference_columns fs names
    tbl' ← add_reference_key f key tbl
    add_references fs refe_fields tbl'

  -- `struct_fields` is `NewStructFromReflect(typ).Fields()`.
  module _ (struct_fields : Str → List StructField) where
    -- The loop over all registered types.
    unfoldable pub add_all_references : Str → List Str → MetaTable → Result MetaTable
    unfolding refers_to add_references
    add_all_references typ [] tbl = ok tbl
    add_all_references typ (refe_typ ∷ typlist) tbl = do
      tbl' ←
          add_references (struct_fields typ)
            (fields_by_func (struct_fields refe_typ) (refers_to typ)) tbl
      add_all_references typ typlist tbl'

    abbrev pub empty_table : Str → MetaTable
    empty_table typ = record {
      typ = typ;
      table_name = table_name snake_case typ (struct_fields typ);
      primary_key = [];
      reference_keys = [];
      one_to_many_reference_keys = [];
      many_to_one_reference_keys = [];
      columns = [];
    }

    unfoldable pub compute_of : List Str → Str → Result MetaTable
    unfolding add_columns add_all_references
    compute_of typlist typ = do
      tbl ← add_columns (fields_by_func (struct_fields typ) is_column_field) (empty_table typ)
      add_all_references typ typlist tbl

    -- The loop of `Compute`.
    unfoldable pub compute_all : List Str → List Str → Map MetaTable → Result (Map MetaTable)
    unfolding compute_of
    compute_all typlist [] built = ok built
    compute_all typlist (typ ∷ typs) built = do
      tbl ← compute_of typlist typ
      compute_all typlist typs (insert typ tbl built)

    -- `Compute`: once. A panic leaves the schema unusable.
    unfoldable pub compute : MetaSchema → Result MetaSchema
    unfolding compute_all
    compute m = elim m.built [
      | some tables ↦ ok m
      | none ↦ (do
        tables ← compute_all m.typlist m.typlist []
        ok (record m { built = some tables }))
    ]

    unfoldable pub type_of : Entity → Result Str
    type_of e = elim (strip_ptr e.typ) [
      | struct_type s ↦ ok s
      | _ ↦ panic (message "goen: not a struct type" [])
    ]

    unfoldable pub register : Entity → MetaSchema → Result MetaSchema
    unfolding type_of
    register e m = elim m.built [
      | some tables ↦ panic (message "goen: already computed meta tables" [])
      | none ↦ (do typ ← type_of e; ok (record m { typlist = m.typlist ++ typ ∷ [] }))
    ]

    abbrev tables_of : Option (Map MetaTable) → Map MetaTable
    tables_of none = []
    tables_of (some tables) = tables

    -- `LoadOf`; the call of `Compute` is part of it.
    unfoldable pub load_of : Entity → MetaSchema → Result MetaTable
    unfolding compute type_of
    load_of e m = do
      m' ← compute m
      typ ← type_of e
      elim (lookup typ (tables_of m'.built)) [
        | some tbl ↦ ok tbl
        | none ↦ panic (message "goen: not registered type of " typ)
      ]
