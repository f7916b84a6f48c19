-- ===== src/Generator/Printable.antt =====
-- What the templates of generator/templates rely on: a loader is written for one-to-many and
-- many-to-one relations only, and the columns of both keys of a relation are taken by one index.
use goen.Prelude.{List, [], ◌∷◌, Str, ℕ, some, ◌≡◌, refl, All, All-append}
use goen.Go.Result.{Result, ok}
use goen.Go.Map.{Map}
use goen.Structs.{FieldOf, fields_by_func, is_column_field}
use goen.Structs.Run.{fail, IfDone, IfDone-bind, IfDone-after, IfDone-done}
use goen.Asts.{GoTools, AstPackage}
use goen.AstTypes.{AType, AStruct, fields}
use goen.Generator.{Relation, Table, Package, columns_of}
use goen.Generator.Relations.{
  Cardinality, one_to_many, many_to_one, one_to_one, add_relation, is_relation, relation_of,
  add_relations, walk_struct,
}
use goen.Generator.Packages.{only_package, walk_pkg, dot_import, parse_dir}
use goen.Generator.Walks.{walk_files-keeps}
use goen.Generator.Sorted.{sort_tables_filed}
use goen.Generator.Loaded.{IsPaired, IsLoaded, relation_of-IsLoaded}

abbrev pub IsPrintable : Table → Type 0
IsPrintable tbl =
    (tbl.one_to_one ≡ []) × All IsPaired tbl.one_to_many × All IsPaired tbl.many_to_one

abbrev AllPrintable : Package → Type 0
AllPrintable out = All IsPrintable out.tables

add_relation-IsPrintable :
    (card : Cardinality) (rel : Relation) (tbl : Table)
    → IsLoaded (card, rel)
    → IsPrintable tbl
    → IsPrintable (add_relation card rel tbl)
add_relation-IsPrintable one_to_many rel tbl (l, h) (none, many, one) =
    (none, All-append IsPaired tbl.one_to_many (rel ∷ []) many (h, tt), one)
add_relation-IsPrintable many_to_one rel tbl (l, h) (none, many, one) =
    (none, many, All-append IsPaired tbl.many_to_one (rel ∷ []) one (h, tt))
add_relation-IsPrintable one_to_one rel tbl (l, h) p = absurd l

module _ (go : GoTools) (snake_case : Str → Str) (fuel : ℕ) where
  add_relations-IsPrintable :
      (fs gs : List (FieldOf AType)) (tbl : Table)
      → IsPrintable tbl
      → IfDone IsPrintable (add_relations go snake_case fuel fs gs tbl)
  unfolding add_relations
  add_relations-IsPrintable fs [] tbl h = h
  add_relations-IsPrintable fs (g ∷ gs) tbl h =
      IfDone-bind _ IsPrintable (relation_of go snake_case fuel fs g) _
        (relation_of-IsLoaded go snake_case fuel fs g)
        (λ (card, rel) i.
          add_relations-IsPrintable fs gs (add_relation card rel tbl)
            (add_relation-IsPrintable card rel tbl i h))

  walk_struct-AllPrintable :
      (strct : AStruct) (out : Package)
      → AllPrintable out
      → IfDone AllPrintable (walk_struct go snake_case fuel strct out)
  unfolding walk_struct
  walk_struct-AllPrintable strct out h =
      IfDone-after AllPrintable (fields go fuel strct) _ (λ all e.
        IfDone-after AllPrintable
          (columns_of go snake_case fuel (fields_by_func all is_column_field) out.imports) _
          (λ (cols, imports) e'.
            IfDone-bind IsPrintable AllPrintable
              (add_relations go snake_case fuel (fields_by_func all is_column_field)
                (fields_by_func all is_relation) _)
              _
              (add_relations-IsPrintable (fields_by_func all is_column_field)
                (fields_by_func all is_relation) _ (refl, tt, tt))
              (λ tbl k. All-append IsPrintable out.tables (tbl ∷ []) h (k, tt))))

  walk_pkg-AllPrintable :
      (src_dir out_pkg_name : Str) (pkg : AstPackage)
      → IfDone AllPrintable (walk_pkg go snake_case fuel src_dir out_pkg_name pkg)
  unfolding walk_pkg
  walk_pkg-AllPrintable src_dir out_pkg_name pkg =
      IfDone-after AllPrintable (fail (dot_import go src_dir out_pkg_name _)) _ (λ base e.
        walk_files-keeps go snake_case fuel AllPrintable pkg pkg.files _ walk_struct-AllPrintable
          tt)

  -- If `ParseDir` succeeds, no table of the output has a one-to-one relation, for which the templates
  -- name a loader that they do not write, and every one-to-many and many-to-one relation has as many
  -- reference columns as foreign key columns.
  pub parse_dir-IsPrintable :
      (parsed : Result (Map AstPackage)) (src_dir out_pkg_name : Str) (out : Package)
      → parse_dir go snake_case fuel parsed src_dir out_pkg_name ≡ some (ok out)
      → All IsPrintable out.tables
  unfolding parse_dir
  parse_dir-IsPrintable parsed src_dir out_pkg_name out e =
      IfDone-done AllPrintable (parse_dir go snake_case fuel parsed src_dir out_pkg_name) out
        (IfDone-after AllPrintable (fail parsed) _ (λ pkgs e1.
          IfDone-after AllPrintable (fail (only_package go src_dir pkgs)) _ (λ pkg e2.
            IfDone-bind AllPrintable AllPrintable
              (walk_pkg go snake_case fuel src_dir out_pkg_name pkg) _
              (walk_pkg-AllPrintable src_dir out_pkg_name pkg)
              (λ walked h. (sort_tables_filed IsPrintable walked.tables h).1))))
        e
