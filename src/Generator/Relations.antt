-- ===== src/Generator/Relations.antt =====
-- The second half of `walkStruct`: the relations of a table.
use goen.Prelude.{Bool, true, false, ◌&&◌, not, List, [], ◌∷◌, ◌++◌, Str, Option, none, some, ℕ}
use goen.Go.Result.{Result, ok, panic, message}
use goen.Structs.{
  FieldOf, fields_by_func, is_column_field, is_ignored_field, is_foreign_key_field, is_view_struct,
  table_name, column_name, field_by_column, foreign_key, reference_key,
}
use goen.Structs.Run.{Run, pure, fail, ◌>>=◌}
use goen.Asts.{GoTools}
use goen.AstTypes.{AType, AStruct, fields}
use goen.AstTypes.Kinds.{
  is_pointer, is_pointer_or_slice, strip, new_struct, is_one_to_many_field, is_many_to_one_field,
}
use goen.AstTypes.Strings.{type_string}
use goen.Generator.{Relation, RelationalColumn, Table, Package, columns_of}

-- The three cases of the switches of `walkStruct`.
pub data Cardinality : Type 0 where
  one_to_many many_to_one one_to_one : Cardinality

abbrev pub or_invalid : Str → Option (FieldOf AType) → Result (FieldOf AType)
or_invalid col_name none = panic (message "goen: invalid column name found on " col_name)
or_invalid col_name (some f) = ok f

-- The loops over the names of a foreign key: each is looked up among the fields.
unfoldable pub key_columns :
    (Str → Str) → List (FieldOf AType) → List Str → Run (List RelationalColumn)
unfolding type_string
key_columns snake_case fs [] = pure []
key_columns snake_case fs (col_name ∷ names) = do
  found ← fail (field_by_column snake_case col_name fs)
  f ← fail (or_invalid col_name found)
  rest ← key_columns snake_case fs names
  pure (
      record { column_name = col_name; field_name = f.name; field_type = type_string f.typ.decl }
      ∷ rest)

unfoldable pub column_names : (Str → Str) → List (FieldOf AType) → Run (List Str)
column_names snake_case [] = pure []
column_names snake_case (f ∷ fs) = do
  n ← fail (column_name snake_case f)
  ns ← column_names snake_case fs
  pure (n ∷ ns)

-- The last switch of the loop over the relations.
abbrev pub add_relation : Cardinality → Relation → Table → Table
add_relation one_to_many rel tbl = record tbl { one_to_many = tbl.one_to_many ++ (rel ∷ []) }
add_relation many_to_one rel tbl = record tbl { many_to_one = tbl.many_to_one ++ (rel ∷ []) }
add_relation one_to_one rel tbl = record tbl { one_to_one = tbl.one_to_one ++ (rel ∷ []) }

abbrev pub is_relation : FieldOf AType → Bool
is_relation f = not (is_ignored_field f) && is_foreign_key_field f

module _ (go : GoTools) (snake_case : Str → Str) (fuel : ℕ) where
  abbrev pub many_to_one_or : Bool → Cardinality
  many_to_one_or true = many_to_one
  many_to_one_or false = one_to_one

  -- What the cases of the switches test.
  unfoldable pub cardinality : FieldOf AType → Run Cardinality
  cardinality f = do
    many ← is_one_to_many_field go fuel f
    elim many [
      | true ↦ pure one_to_many
      | false ↦ (do one ← is_many_to_one_field go fuel f; pure (many_to_one_or one))
    ]

  abbrev pub unwrapped : Cardinality → AType → Run AType
  unwrapped one_to_many typ = strip go is_pointer_or_slice fuel typ
  unwrapped _ typ = strip go is_pointer fuel typ

  -- The relation, once the struct type that it leads to is known.
  unfoldable pub relation_to :
      List (FieldOf AType) → FieldOf AType → Cardinality → AStruct → Run (Cardinality × Relation)
  unfolding key_columns column_names
  relation_to col_fields f card refe_strct = do
    refe_all ← fields go fuel refe_strct
    names ← column_names snake_case (fields_by_func refe_all is_column_field)
    fore_names ← fail (foreign_key f)
    fore ← key_columns snake_case col_fields fore_names
    refe_names ← fail (reference_key f)
    refe ← key_columns snake_case (fields_by_func refe_all is_column_field) refe_names
    pure (
      card,
      record {
        table_name = table_name snake_case refe_strct.name refe_all;
        field_name = f.name;
        field_type = refe_strct.name;
        column_names = names;
        foreign_keys = fore;
        references = refe;
      },
    )

  -- One round of the loop over the relations, without the last switch.
  unfoldable pub relation_of : List (FieldOf AType) → FieldOf AType → Run (Cardinality × Relation)
  unfolding cardinality relation_to
  relation_of col_fields f = do
    card ← cardinality f
    typ ← unwrapped card f.typ
    refe_strct ← new_struct go fuel typ
    relation_to col_fields f card refe_strct

  unfoldable pub add_relations : List (FieldOf AType) → List (FieldOf AType) → Table → Run Table
  unfolding relation_of
  add_relations col_fields [] tbl = pure tbl
  add_relations col_fields (f ∷ fs) tbl = do
    (card, rel) ← relation_of col_fields f
    add_relations col_fields fs (add_relation card rel tbl)

  -- `walkStruct`
  unfoldable pub walk_struct : AStruct → Package → Run Package
  unfolding add_relations
  walk_struct strct pkg = do
    all ← fields go fuel strct
    (cols, imports) ← columns_of go snake_case fuel (fields_by_func all is_column_field) pkg.imports
    tbl ←
        add_relations (fields_by_func all is_column_field) (fields_by_func all is_relation)
          (record {
            table_name = table_name snake_case strct.name all;
            read_only = is_view_struct all;
            entity = strct.name;
            columns = cols;
            one_to_many = [];
            many_to_one = [];
            one_to_one = [];
          })
    pure (record pkg { imports = imports; tables = pkg.tables ++ (tbl ∷ []) })
