-- ===== src/Generator/Packages.antt =====
-- `walkFile`, `walkPkg` and `ParseDir`.
use goen.Prelude.{Bool, true, false, List, [], ◌∷◌, ◌++◌, map, Str, codes, Option, none, some, ℕ}
use goen.Go.Result.{Result, ok, err, panic, message}
use goen.Go.Map.{Map, lookup, insert, keys}
use goen.RowKey.{sort_strings}
use goen.StructTag.{tag_goen, has}
use goen.Structs.{FieldOf, field_by_func}
use goen.Structs.Run.{Run, pure, fail, ◌>>=◌}
use goen.Asts.{GoTools, Object, AstFile, AstPackage, is_struct_object}
use goen.Asts.Lookup.{assume_import}
use goen.AstTypes.{AType, new_struct_from_ast, fields}
use goen.Generator.{Import, Table, Package, add_import_as}
use goen.Generator.Relations.{walk_struct}

abbrev pub required_imports : List Import
required_imports =
    record { name = []; path = codes "context" }
    ∷ record { name = []; path = codes "database/sql" }
    ∷ record { name = []; path = codes "github.com/Masterminds/squirrel" }
    ∷ record { name = []; path = codes "github.com/kamichidu/goen" }
    ∷ []

unfoldable pub add_imports : List Import → List Import → List Import
add_imports [] imports = imports
add_imports (imp ∷ required) imports =
    add_imports required (add_import_as imp.name imp.path imports)

abbrev pub has_goen_tag : FieldOf AType → Bool
has_goen_tag f = has (lookup tag_goen f.tag)

abbrev pub is_found : {A : Type 0} → Option A → Bool
is_found none = false
is_found (some a) = true

-- The tables of a package, by their entities.
unfoldable pub table_map : List Table → Map Table → Map Table
table_map [] m = m
table_map (tbl ∷ tbls) m = table_map tbls (insert tbl.entity tbl m)

abbrev pub put : Option Table → List Table → List Table
put none tbls = tbls
put (some tbl) tbls = tbl ∷ tbls

-- The last loop of `ParseDir`; each name has a table.
unfoldable pub tables_at : Map Table → List Str → List Table
tables_at m [] = []
tables_at m (name ∷ names) = put (lookup name m) (tables_at m names)

-- What `ParseDir` makes of the tables.
unfoldable pub sort_tables : List Table → List Table
unfolding table_map tables_at
sort_tables tbls = tables_at (table_map tbls []) (sort_strings (map (λ tbl. tbl.entity) tbls))

abbrev join : List Str → Str
join [] = []
join (s ∷ []) = s
join (s ∷ t ∷ l) = s ++ codes ", " ++ join (t ∷ l)

abbrev pub chosen : Map AstPackage → Option AstPackage → Result AstPackage
chosen pkgs (some pkg) = ok pkg
chosen pkgs none = err (codes "goen: anable to detect package: choices " ++ join (keys pkgs))

abbrev pub chosen_by : Map AstPackage → Result (Str × Str) → Result AstPackage
chosen_by pkgs (ok assumed) = chosen pkgs (lookup (assumed.0) pkgs)
chosen_by pkgs (err e) = err e
chosen_by pkgs (panic p) = panic p

abbrev pub dot_imported : Result (Str × Str) → List Import → Result (List Import)
dot_imported (ok assumed) imports = ok (add_import_as (codes ".") (assumed.1) imports)
dot_imported (err e) imports = err e
dot_imported (panic p) imports = panic p

abbrev pub name_or : Str → Str → Str
name_or [] name = name
name_or (c ∷ s) name = c ∷ s

module _ (go : GoTools) where
  -- The source package, for code that is in another one.
  abbrev pub dot_import : Str → Str → List Import → Result (List Import)
  dot_import src_dir [] imports = ok imports
  dot_import src_dir (c ∷ out_pkg_name) imports = dot_imported (assume_import go src_dir) imports

  -- The package of `ParseDir`: the only one, or the one that the directory is assumed to hold.
  unfoldable pub only_package : Str → Map AstPackage → Result AstPackage
  only_package src_dir [] = panic (message "invalid memory address or nil pointer dereference" [])
  only_package src_dir ((name, pkg) ∷ []) = ok pkg
  only_package src_dir ((name, pkg) ∷ other ∷ pkgs) =
      chosen_by ((name, pkg) ∷ other ∷ pkgs) (assume_import go src_dir)

module _ (go : GoTools) (snake_case : Str → Str) (fuel : ℕ) where
  -- The rest of a round of `walkFile`, for an exported struct type.
  unfoldable pub walk_object : AstPackage → AstFile → Object → Package → Run Package
  unfolding new_struct_from_ast
  walk_object pkg file obj out = do
    strct ← fail (new_struct_from_ast pkg file obj)
    all ← fields go fuel strct
    elim (is_found (field_by_func all has_goen_tag)) [
      | false ↦ pure out
      | true ↦ walk_struct go snake_case fuel strct out
    ]

  -- `walkFile`
  unfoldable pub walk_file : AstPackage → AstFile → List Object → Package → Run Package
  unfolding walk_object
  walk_file pkg file [] out = pure out
  walk_file pkg file (obj ∷ objs) out = elim (go.is_exported obj.name) [
    | false ↦ walk_file pkg file objs out
    | true ↦ elim (is_struct_object obj) [
      | false ↦ walk_file pkg file objs out
      | true ↦ (do next ← walk_object pkg file obj out; walk_file pkg file objs next)
    ]
  ]

  unfoldable pub walk_files : AstPackage → List AstFile → Package → Run Package
  unfolding walk_file
  walk_files pkg [] out = pure out
  walk_files pkg (file ∷ files) out = do
    next ← walk_file pkg file file.objects out
    walk_files pkg files next

  -- `walkPkg`, on the empty package data that `ParseDir` starts from.
  unfoldable pub walk_pkg : Str → Str → AstPackage → Run Package
  unfolding walk_files add_imports
  walk_pkg src_dir out_pkg_name pkg = do
    imports ← fail (dot_import go src_dir out_pkg_name (add_imports required_imports []))
    walk_files pkg pkg.files
        (record { package_name = name_or out_pkg_name pkg.name; imports = imports; tables = [] })

  -- `ParseDir`; `parsed` is what package go/parser answers for the directory and the filter.
  unfoldable pub parse_dir : Result (Map AstPackage) → Str → Str → Run Package
  unfolding walk_pkg only_package sort_tables
  parse_dir parsed src_dir out_pkg_name = do
    pkgs ← fail parsed
    pkg ← fail (only_package go src_dir pkgs)
    out ← walk_pkg src_dir out_pkg_name pkg
    pure (record out { tables = sort_tables out.tables })
