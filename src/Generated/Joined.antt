-- ===== src/Generated/Joined.antt =====
-- Which structs a relation of one column joins.
use goen.Prelude.{
  Bool, true, false, List, [], ◌∷◌, ◌++◌, filter, Str, str_eq, str_eq_refl, ◌≡◌, refl, ap, ◌∙◌, All,
  some, if◌then◌else◌, arith,
}
use goen.Go.Value.{Value}
use goen.Go.Map.{lookup, insert}
use goen.Squirrel.{Squirrel}
use goen.RowKey.{found, row_key, sort_strings, insert_sorted}
use goen.Meta.{Entity, MetaTable, MetaColumn}
use goen.Meta.Entities.{key_of, row_keys_of, interface_of, one_to_many_reference_keys_of}
use goen.Meta.KeyString.{Marshal, value_string, params, key_string, key_string_of}
use goen.Generator.{Relation, RelationalColumn}
use goen.Generated.Objects.{Object}
use goen.Generated.Rows.{Runtime}
use goen.Generated.Relations.{key_entries, related_row_key, identity}
use goen.Generated.Kept.{occurrences, children_at}
use goen.Generated.Keys.{schema_keys}

str_eq_prefix : (p s t : Str) → str_eq (p ++ s) (p ++ t) ≡ str_eq s t
unfolding str_eq
str_eq_prefix [] s t = refl
str_eq_prefix (c ∷ p) s t = ground (arith, str_eq_prefix p s t)

-- The identity text of a key of one column.
one_column :
    (m : Marshal) (table col : Str) (v : Value)
    → key_string_of m (record { table = table; key = (col, v) ∷ [] })
      ≡ table ++ b';' ∷ (col ++ b'=' ∷ value_string m v)
unfolding key_string_of key_string params row_key sort_strings insert_sorted lookup
one_column m table col v = rw str_eq_refl refl

-- The text of the field's value.
abbrev pub field_text : Marshal → Str → Object → Str
field_text m name x = value_string m (found (x.entity.field_by_name name))

module _ {q : Squirrel} {W : Type 0} (run : Runtime q W) (rel : Relation) where
  identity_one :
      (fk refe : RelationalColumn) (x : Object)
      → rel.foreign_keys ≡ fk ∷ []
      → rel.references ≡ refe ∷ []
      → identity run rel x
        ≡ rel.table_name
          ++ b';' ∷ (refe.column_name ++ b'=' ∷ field_text run.marshal fk.field_name x)
  unfolding identity related_row_key key_entries insert
  identity_one fk refe x hf hr = rw (hf, hr, one_column) refl

  -- The child has one key of one column, and a field for it.
  abbrev pub IsChild : (Entity → MetaTable) → MetaTable → MetaColumn → Object → Type 0
  IsChild table_at tbl c y =
      (table_at y.entity ≡ tbl) × ((v : Value) × (y.entity.field_by_name c.field.name ≡ some v))

  child_texts :
      (table_at : Entity → MetaTable) (tbl : MetaTable) (c : MetaColumn) (y : Object)
      → tbl.one_to_many_reference_keys ≡ (c ∷ []) ∷ []
      → IsChild table_at tbl c y
      → (schema_keys run.marshal table_at).one_to_many_references y
        ≡ (tbl.table_name ++ b';' ∷ (c.column_name ++ b'=' ∷ field_text run.marshal c.field.name y))
          ∷ []
  unfolding schema_keys one_to_many_reference_keys_of row_keys_of key_of interface_of insert
  child_texts table_at tbl c y ho (ht, (v, hv)) = rw (ht, ho, hv, one_column) refl

  same_text :
      (c : MetaColumn) (tbl : MetaTable) (fk refe : RelationalColumn) (x y : Object)
      → tbl.table_name ≡ rel.table_name
      → c.column_name ≡ refe.column_name
      → str_eq
          (tbl.table_name ++ b';' ∷ (c.column_name ++ b'=' ∷ field_text run.marshal c.field.name y))
          (rel.table_name
            ++ b';' ∷ (refe.column_name ++ b'=' ∷ field_text run.marshal fk.field_name x))
        ≡ str_eq (field_text run.marshal c.field.name y) (field_text run.marshal fk.field_name x)
  unfolding str_eq
  same_text c tbl fk refe x y ht hc =
      rw (ht, hc) (str_eq_prefix rel.table_name _ _ ∙ str_eq_prefix refe.column_name _ _)

  occurrences_one :
      (y : Object) (k j : Str) (b : Bool) (rest : List Object)
      → str_eq j k ≡ b
      → occurrences y k (j ∷ []) ++ rest ≡ (if b then y ∷ rest else rest)
  occurrences_one y k j true rest h = rw h refl
  occurrences_one y k j false rest h = rw h refl

  -- With the keys of the schema, if the relation is by one column and that column is the one and only
  -- one-to-many key of the other table, the structs that a struct gets of those that a SELECT gave, all
  -- of that table and with that column, are exactly the ones whose value of the column has the same
  -- text as the value of the struct's own key column, in order.
  pub children_at-filter :
      (table_at : Entity → MetaTable) (tbl : MetaTable) (c : MetaColumn)
      (fk refe : RelationalColumn) (x : Object) (ys : List Object)
      → rel.foreign_keys ≡ fk ∷ []
      → rel.references ≡ refe ∷ []
      → tbl.one_to_many_reference_keys ≡ (c ∷ []) ∷ []
      → tbl.table_name ≡ rel.table_name
      → c.column_name ≡ refe.column_name
      → All (IsChild table_at tbl c) ys
      → children_at (schema_keys run.marshal table_at) (identity run rel x) ys
        ≡ filter
            (λ y.
              str_eq
                (field_text run.marshal c.field.name y)
                (field_text run.marshal fk.field_name x))
            ys
  children_at-filter table_at tbl c fk refe x [] hf hr ho ht hc h = refl
  children_at-filter table_at tbl c fk refe x (y ∷ ys) hf hr ho ht hc h =
      rw (child_texts table_at tbl c y ho h.0) (
        occurrences_one y (identity run rel x) _ _ _
          (ap (str_eq _) (identity_one fk refe x hf hr) ∙ same_text c tbl fk refe x y ht hc)
        ∙ ap
            (λ l.
              if str_eq (field_text run.marshal c.field.name y)
                (field_text run.marshal fk.field_name x)
              then y ∷ l
              else l)
            (children_at-filter table_at tbl c fk refe x ys hf hr ho ht hc h.1))
