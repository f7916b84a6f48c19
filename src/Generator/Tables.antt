-- ===== src/Generator/Tables.antt =====
-- The table and the imports that `walkStruct` of generator/generator.go leaves.
use goen.Prelude.{
  List, [], ◌∷◌, Str, ℕ, All, All-append, All-get_elem?, get_elem?, ◌≢◌, true, ◌≡◌, refl, some,
  subst, sym,
}
use goen.Go.Result.{ok}
use goen.Structs.{FieldOf, fields_by_func, is_column_field, foreign_key, reference_key}
use goen.Structs.Run.{fail, IfDone, IfDone-bind, IfDone-after, IfDone-done, IfDone-both}
use goen.Asts.{GoTools}
use goen.AstTypes.{AType, AStruct, fields}
use goen.AstTypes.Kinds.{new_struct}
use goen.Generator.{
  imports_path, safe_pkg_import, Import, Column, Relation, Table, Package, columns_of,
}
use goen.Generator.Relations.{
  Cardinality, one_to_many, many_to_one, one_to_one, add_relation, is_relation, cardinality,
  unwrapped, key_columns, column_names, relation_of, add_relations, walk_struct,
}
use goen.Generator.Imports.{IsGrown, IsGrown-trans, IsImported, columns_of-IsGrown}
use goen.Generator.Keys.{HasColumn, IsShown, columns_of-IsShown, key_columns-HasColumn}

-- The foreign keys of the relation are columns of the table.
abbrev pub IsRelated : List Column → Relation → Type 0
IsRelated cols rel = All (HasColumn cols) rel.foreign_keys

abbrev pub IsKeyed : Table → Type 0
IsKeyed tbl =
    All (IsRelated tbl.columns) tbl.one_to_many
    × (All (IsRelated tbl.columns) tbl.many_to_one × All (IsRelated tbl.columns) tbl.one_to_one)

-- The tables are keyed, and no import of `base` is lost or doubled.
abbrev pub IsWalked : List Import → Package → Type 0
IsWalked base out = All IsKeyed out.tables × IsGrown base out.imports

-- A table with these columns.
abbrev IsKeyedBy : List Column → Table → Type 0
IsKeyedBy cols tbl = (tbl.columns ≡ cols) × IsKeyed tbl

add_relation-IsKeyed :
    (card : Cardinality) (rel : Relation) (tbl : Table)
    → IsRelated tbl.columns rel
    → IsKeyed tbl
    → IsKeyed (add_relation card rel tbl)
add_relation-IsKeyed one_to_many rel tbl h (a, (b, c)) =
    (All-append (IsRelated tbl.columns) tbl.one_to_many (rel ∷ []) a (h, tt), (b, c))
add_relation-IsKeyed many_to_one rel tbl h (a, (b, c)) =
    (a, (All-append (IsRelated tbl.columns) tbl.many_to_one (rel ∷ []) b (h, tt), c))
add_relation-IsKeyed one_to_one rel tbl h (a, (b, c)) =
    (a, (b, All-append (IsRelated tbl.columns) tbl.one_to_one (rel ∷ []) c (h, tt)))

add_relation-columns :
    (card : Cardinality) (rel : Relation) (tbl : Table)
    → (add_relation card rel tbl).columns ≡ tbl.columns
add_relation-columns one_to_many rel tbl = refl
add_relation-columns many_to_one rel tbl = refl
add_relation-columns one_to_one rel tbl = refl

abbrev column_fields : List (FieldOf AType) → List (FieldOf AType)
column_fields all = fields_by_func all is_column_field

module _ (go : GoTools) (snake_case : Str → Str) (fuel : ℕ) where
  relation_of-IsRelated :
      (cols : List Column) (fs : List (FieldOf AType)) (f : FieldOf AType)
      → All (IsShown snake_case cols) fs
      → IfDone (λ r. IsRelated cols (r.1)) (relation_of go snake_case fuel fs f)
  unfolding relation_of
  relation_of-IsRelated cols fs f h =
      IfDone-after Q (cardinality go snake_case fuel f) _ (λ card e1.
        IfDone-after Q (unwrapped go snake_case fuel card f.typ) _ (λ typ e2.
          IfDone-after Q (new_struct go fuel typ) _ (λ strct e3.
            IfDone-after Q (fields go fuel strct) _ (λ all e4.
              IfDone-after Q (column_names snake_case (fields_by_func all is_column_field)) _
                (λ names e5. IfDone-after Q (fail (foreign_key f)) _ (λ fore_names e6.
                  IfDone-bind _ Q (key_columns snake_case fs fore_names) _
                    (key_columns-HasColumn snake_case fs cols fore_names h)
                    (λ fore i. IfDone-after Q (fail (reference_key f)) _ (λ refe_names e7.
                      IfDone-after Q
                        (key_columns snake_case (fields_by_func all is_column_field) refe_names) _
                        (λ refe e8. i)))))))))
    where
      Q : Cardinality × Relation → Type 0
      Q r = IsRelated cols (r.1)

  add_relations-IsKeyed :
      (fs gs : List (FieldOf AType)) (tbl : Table)
      → All (IsShown snake_case tbl.columns) fs
      → IsKeyed tbl
      → IfDone IsKeyed (add_relations go snake_case fuel fs gs tbl)
  unfolding add_relations
  add_relations-IsKeyed fs [] tbl h k = k
  add_relations-IsKeyed fs (g ∷ gs) tbl h k =
      IfDone-bind _ IsKeyed (relation_of go snake_case fuel fs g) _
        (relation_of-IsRelated tbl.columns fs g h)
        (λ (card, rel) i.
          add_relations-IsKeyed fs gs (add_relation card rel tbl)
            (subst (λ cols. All (IsShown snake_case cols) fs)
              (sym (add_relation-columns card rel tbl)) h)
            (add_relation-IsKeyed card rel tbl i k))

  pub walk_struct-IsWalked :
      (base : List Import) (strct : AStruct) (out : Package)
      → IsWalked base out
      → IfDone (IsWalked base) (walk_struct go snake_case fuel strct out)
  unfolding walk_struct
  walk_struct-IsWalked base strct out (keyed, grown) =
      IfDone-after Q (fields go fuel strct) _ (λ all e.
        IfDone-bind _ Q (columns_of go snake_case fuel (column_fields all) out.imports) _
          (IfDone-both _ _ (columns_of go snake_case fuel (column_fields all) out.imports)
            (columns_of-IsGrown go snake_case fuel (column_fields all) out.imports)
            (columns_of-IsShown go snake_case fuel (column_fields all) out.imports))
          (λ (cols, imports) (h, shown).
            IfDone-bind IsKeyed Q
              (add_relations go snake_case fuel (column_fields all) (fields_by_func all is_relation)
                _)
              _
              (add_relations-IsKeyed (column_fields all) (fields_by_func all is_relation) _ shown
                (tt, (tt, tt)))
              (λ tbl k. (
                All-append IsKeyed out.tables (tbl ∷ []) keyed (k, tt),
                IsGrown-trans base out.imports imports grown h.0,
              ))))
    where
      Q : Package → Type 0
      Q r = IsWalked base r

  columns_imported :
      (strct : AStruct) (out done : Package) (all : List (FieldOf AType))
      → fields go fuel strct ≡ some (ok all)
      → walk_struct go snake_case fuel strct out ≡ some (ok done)
      → All (IsImported go fuel done.imports) (fields_by_func all is_column_field)
  unfolding walk_struct
  columns_imported strct out done all e e' =
      IfDone-done Q (walk_struct go snake_case fuel strct out) done
        (rw e (
          IfDone-bind _ Q (columns_of go snake_case fuel (column_fields all) out.imports) _
            (columns_of-IsGrown go snake_case fuel (column_fields all) out.imports)
            (λ (cols, imports) h.
              IfDone-after Q
                (add_relations go snake_case fuel (column_fields all)
                  (fields_by_func all is_relation) _)
                _ (λ tbl k. h.1))))
        e'
    where
      Q : Package → Type 0
      Q r = All (IsImported go fuel r.imports) (fields_by_func all is_column_field)

  -- When `walkStruct` succeeds on a struct type with these fields, and the type of a column field,
  -- pointers left out, is of a package with a path, that path is among the imports of the output.
  pub walk_struct-imports :
      (strct : AStruct) (out done : Package) (all : List (FieldOf AType)) (i : ℕ)
      (f : FieldOf AType) (name path : Str)
      → fields go fuel strct ≡ some (ok all)
      → walk_struct go snake_case fuel strct out ≡ some (ok done)
      → get_elem? (fields_by_func all is_column_field) i ≡ some f
      → safe_pkg_import go fuel f.typ ≡ some (ok (name, path))
      → path ≢ []
      → imports_path path done.imports ≡ true
  walk_struct-imports strct out done all i f name path e e' at found ne =
      All-get_elem? (IsImported go fuel done.imports) (column_fields all) i f
        (columns_imported strct out done all e e') at name path found ne
