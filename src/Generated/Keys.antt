-- ===== src/Generated/Keys.antt =====
-- What the scope cache asks of the schema for a struct: the identity texts of its row keys.
use goen.Prelude.{List, [], map, Str}
use goen.Go.Result.{Result, ok, err, panic}
use goen.RowKey.{MapRowKey}
use goen.Meta.{Entity, MetaTable}
use goen.Meta.Entities.{
  primary_key_of, reference_keys_of, one_to_many_reference_keys_of, many_to_one_reference_keys_of,
}
use goen.Meta.KeyString.{Marshal, key_string_of}
use goen.ScopeCache.{ObjectKeys}
use goen.Generated.Objects.{Object}

-- The text of a key. On a struct without a field of the key the schema panics, and so does the scope
-- cache that asks it; this is left out here (there is no text), so that what is stated of these keys
-- is stated of structs that have the fields.
abbrev pub text_of : Marshal → Result MapRowKey → Str
text_of m (ok k) = key_string_of m k
text_of m (err e) = []
text_of m (panic p) = []

abbrev pub texts_of : Marshal → Result (List MapRowKey) → List Str
texts_of m (ok ks) = map (key_string_of m) ks
texts_of m (err e) = []
texts_of m (panic p) = []

-- `KeyStringFromRowKey` of `PrimaryKeyOf`, of `ReferenceKeysOf` and of the two others; `table_at` is
-- the table that `LoadOf` gives.
unfoldable pub schema_keys : Marshal → (Entity → MetaTable) → ObjectKeys Object
unfolding primary_key_of reference_keys_of one_to_many_reference_keys_of
    many_to_one_reference_keys_of key_string_of
schema_keys m table_at = record {
  primary = λ x. text_of m (primary_key_of (table_at x.entity) x.entity);
  references = λ x. texts_of m (reference_keys_of (table_at x.entity) x.entity);
  one_to_many_references =
      λ x. texts_of m (one_to_many_reference_keys_of (table_at x.entity) x.entity);
  many_to_one_references =
      λ x. texts_of m (many_to_one_reference_keys_of (table_at x.entity) x.entity);
}
