-- ===== src/Meta/Entities.antt =====
-- meta.go: the keys and the patches of an entity, on the table that `LoadOf` gives.
use goen.Prelude.{false, true, ◌&&◌, List, [], ◌∷◌, Str, if◌then◌else◌, Option, none, some}
use goen.Go.Result.{Result, ok, panic, message, ◌>>=◌}
use goen.Go.Value.{Value, is_empty_value}
use goen.Go.Map.{Map, insert}
use goen.Squirrel.{Squirrel}
use goen.RowKey.{MapRowKey, RowKey}
use goen.Patch.{Patch, PatchKind}
use goen.Meta.{MetaColumn, MetaTable, Entity}

-- `rfv.Interface()` panics on a value that is not valid.
unfoldable pub interface_of : Option Value → Result Value
interface_of none = panic (message "reflect: call of reflect.Value.Interface on zero Value" [])
interface_of (some v) = ok v

-- The loop that fills a row key with the columns of a key.
unfoldable pub key_of : Entity → List MetaColumn → Map Value → Result (Map Value)
unfolding interface_of
key_of e [] key = ok key
key_of e (col ∷ cols) key = do
  v ← interface_of (e.field_by_name col.field.name)
  key_of e cols (insert col.column_name v key)

-- `PrimaryKeyOf` on the table of the entity.
unfoldable pub primary_key_of : MetaTable → Entity → Result MapRowKey
unfolding key_of
primary_key_of tbl e = do
  key ← key_of e tbl.primary_key []
  ok (record { table = tbl.table_name; key = key })

-- The loop shared by `ReferenceKeysOf`, `OneToManyReferenceKeysOf` and `ManyToOneReferenceKeysOf`.
unfoldable pub row_keys_of : MetaTable → Entity → List (List MetaColumn) → Result (List MapRowKey)
unfolding key_of
row_keys_of tbl e [] = ok []
row_keys_of tbl e (cols ∷ keys) = do
  key ← key_of e cols []
  rest ← row_keys_of tbl e keys
  ok (record { table = tbl.table_name; key = key } ∷ rest)

unfoldable pub reference_keys_of : MetaTable → Entity → Result (List MapRowKey)
unfolding row_keys_of
reference_keys_of tbl e = row_keys_of tbl e tbl.reference_keys

unfoldable pub one_to_many_reference_keys_of : MetaTable → Entity → Result (List MapRowKey)
unfolding row_keys_of
one_to_many_reference_keys_of tbl e = row_keys_of tbl e tbl.one_to_many_reference_keys

unfoldable pub many_to_one_reference_keys_of : MetaTable → Entity → Result (List MapRowKey)
unfolding row_keys_of
many_to_one_reference_keys_of tbl e = row_keys_of tbl e tbl.many_to_one_reference_keys

-- `!rfv.IsValid() || metaC.OmitEmpty() && isEmptyValue(rfv)`, turned into what is kept.
unfoldable pub kept_value : MetaColumn → Option Value → Option Value
kept_value c none = none
kept_value c (some v) = if c.omit_empty && is_empty_value v then none else some v

abbrev pub add_pair : Str → Option Value → List Str × List Value → List Str × List Value
add_pair name none out = out
add_pair name (some v) out = (name ∷ out.0, v ∷ out.1)

-- The loop of `InsertPatchOf`: the columns and their values.
unfoldable pub insert_columns : Entity → List MetaColumn → List Str × List Value
unfolding kept_value
insert_columns e [] = ([], [])
insert_columns e (c ∷ cs) =
    add_pair c.column_name (kept_value c (e.field_by_name c.field.name)) (insert_columns e cs)

-- The loop of `UpdatePatchOf` passes over the columns of the primary key.
unfoldable pub update_columns : Entity → List MetaColumn → List Str × List Value
unfolding kept_value
update_columns e [] = ([], [])
update_columns e (c ∷ cs) =
    let rest = update_columns e cs in
    if c.part_of_primary_key
    then rest
    else add_pair c.column_name (kept_value c (e.field_by_name c.field.name)) rest

module _ {q : Squirrel} (as_row_key : MapRowKey → RowKey q) where
  unfoldable pub insert_patch_of : MetaTable → Entity → Patch q
  unfolding insert_columns
  insert_patch_of tbl e =
      let (cols, vals) = insert_columns e tbl.columns in
      record {
        kind = PatchKind.insert;
        table_name = tbl.table_name;
        row_key = none;
        columns = cols;
        values = vals;
        nil_values = false;
      }

  unfoldable pub update_patch_of : MetaTable → Entity → Result (Patch q)
  unfolding update_columns primary_key_of
  update_patch_of tbl e = do
    let (cols, vals) = update_columns e tbl.columns
    key ← primary_key_of tbl e
    ok (record {
      kind = PatchKind.update;
      table_name = tbl.table_name;
      row_key = some (as_row_key key);
      columns = cols;
      values = vals;
      nil_values = false;
    })

  unfoldable pub delete_patch_of : MetaTable → Entity → Result (Patch q)
  unfolding primary_key_of
  delete_patch_of tbl e = do
    key ← primary_key_of tbl e
    ok (record {
      kind = PatchKind.delete;
      table_name = tbl.table_name;
      row_key = some (as_row_key key);
      columns = [];
      values = [];
      nil_values = true;
    })
