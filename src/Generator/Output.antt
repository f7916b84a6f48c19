-- ===== src/Generator/Output.antt =====
-- What `ParseDir` promises to the templates.
use goen.Prelude.{List, [], ◌∷◌, Str, str_eq, codes, ℕ, some, ◌≡◌, refl, All, subst, sym}
use goen.Go.Result.{Result, ok, err, panic}
use goen.Go.Map.{Map, IsNodup}
use goen.RowKey.Sorting.{IsSorted, sort_strings-IsSorted}
use goen.Structs.Run.{fail, IfDone, IfDone-bind, IfDone-after, IfDone-done, IfDone-weaken}
use goen.Asts.{GoTools, AstPackage}
use goen.Asts.Lookup.{assume_import}
use goen.Generator.{Import, Package, imports_path, add_import_as}
use goen.Generator.Packages.{
  required_imports, add_imports, dot_import, dot_imported, walk_files, walk_pkg, only_package,
  parse_dir,
}
use goen.Generator.Imports.{
  HasPath, IsPlain, HasPath-IsGrown, paths, IsGrown, IsGrown-refl, IsGrown-trans,
  add_import_as-IsGrown, add_import_as_has,
}
use goen.Generator.Walks.{walk_files-keeps}
use goen.Generator.Tables.{IsKeyed, IsWalked, walk_struct-IsWalked}
use goen.Generator.Sorted.{entities, sort_tables_filed}

-- No two imports have one path, each required one is among them, and those have no names.
abbrev pub IsImporting : List Import → Type 0
IsImporting imports =
    IsNodup (paths imports)
    × All (HasPath imports) required_imports
    × All (IsPlain required_imports) imports

add_imports-IsGrown : (required l : List Import) → IsGrown l (add_imports required l)
unfolding add_imports
add_imports-IsGrown [] l = IsGrown-refl l
add_imports-IsGrown (imp ∷ required) l =
    let next = add_import_as imp.name imp.path l in
    IsGrown-trans l next (add_imports required next) (add_import_as-IsGrown imp.name imp.path l)
      (add_imports-IsGrown required next)

add_imports_has : (required l : List Import) → All (HasPath (add_imports required l)) required
unfolding add_imports
add_imports_has [] l = tt
add_imports_has (imp ∷ required) l =
    let next = add_import_as imp.name imp.path l in
    (
      (add_imports-IsGrown required next).1 imp.path (add_import_as_has imp.name imp.path l),
      add_imports_has required next,
    )

IsImporting-IsGrown : (old new : List Import) → IsGrown old new → IsImporting old → IsImporting new
IsImporting-IsGrown old new g (n, h, k) =
    (g.0 n, HasPath-IsGrown old new required_imports g h, g.2 required_imports h k)

required_imports-IsImporting : IsImporting (add_imports required_imports [])
unfolding add_imports add_import_as imports_path str_eq
required_imports-IsImporting = (
  (add_imports-IsGrown required_imports []).0 tt,
  add_imports_has required_imports [],
  (λ h. refl, (λ h. refl, (λ h. refl, (λ h. refl, tt)))),
)

-- What holds of the package data after the walk.
abbrev pub IsOutput : Package → Type 0
IsOutput out = IsImporting out.imports × All IsKeyed out.tables

dot_imported-IsImporting :
    (r : Result (Str × Str)) (l : List Import)
    → IsImporting l
    → IfDone IsImporting (fail (dot_imported r l))
dot_imported-IsImporting (ok assumed) l h =
    IsImporting-IsGrown l (add_import_as (codes ".") (assumed.1) l)
      (add_import_as-IsGrown (codes ".") (assumed.1) l) h
dot_imported-IsImporting (err e) l h = tt
dot_imported-IsImporting (panic p) l h = tt

module _ (go : GoTools) where
  dot_import-IsImporting :
      (src_dir out_pkg_name : Str) (l : List Import)
      → IsImporting l
      → IfDone IsImporting (fail (dot_import go src_dir out_pkg_name l))
  dot_import-IsImporting src_dir [] l h = h
  dot_import-IsImporting src_dir (c ∷ s) l h =
      dot_imported-IsImporting (assume_import go src_dir) l h

module _ (go : GoTools) (snake_case : Str → Str) (fuel : ℕ) where
  walk_pkg-IsOutput :
      (src_dir out_pkg_name : Str) (pkg : AstPackage)
      → IfDone IsOutput (walk_pkg go snake_case fuel src_dir out_pkg_name pkg)
  unfolding walk_pkg
  walk_pkg-IsOutput src_dir out_pkg_name pkg =
      IfDone-bind IsImporting IsOutput (fail (dot_import go src_dir out_pkg_name _)) _
        (dot_import-IsImporting go src_dir out_pkg_name _ required_imports-IsImporting)
        (λ base h.
          IfDone-weaken (IsWalked base) IsOutput (walk_files go snake_case fuel pkg pkg.files _)
            (λ out (keyed, grown). (IsImporting-IsGrown base out.imports grown h, keyed))
            (walk_files-keeps go snake_case fuel (IsWalked base) pkg pkg.files _
              (walk_struct-IsWalked go snake_case fuel base) (tt, IsGrown-refl base)))

  -- If `ParseDir` succeeds, no two imports of the output have one path, each required import is among
  -- them, imports of those paths have no name of their own, each foreign key column of a relation is
  -- a column of its table, and the tables are in the order of their entities.
  pub parse_dir-IsOutput :
      (parsed : Result (Map AstPackage)) (src_dir out_pkg_name : Str) (out : Package)
      → parse_dir go snake_case fuel parsed src_dir out_pkg_name ≡ some (ok out)
      → IsOutput out × IsSorted (entities out.tables)
  unfolding parse_dir
  parse_dir-IsOutput parsed src_dir out_pkg_name out e =
      IfDone-done Q (parse_dir go snake_case fuel parsed src_dir out_pkg_name) out
        (IfDone-after Q (fail parsed) _ (λ pkgs e1.
          IfDone-after Q (fail (only_package go src_dir pkgs)) _ (λ pkg e2.
            IfDone-bind IsOutput Q (walk_pkg go snake_case fuel src_dir out_pkg_name pkg) _
              (walk_pkg-IsOutput src_dir out_pkg_name pkg)
              (λ walked (imports, keyed).
                let (same, keyed') = sort_tables_filed IsKeyed walked.tables keyed in
                (
                  (imports, keyed'),
                  subst IsSorted (sym same) (sort_strings-IsSorted (entities walked.tables)),
                )))))
        e
    where
      Q : Package → Type 0
      Q r = IsOutput r × IsSorted (entities r.tables)
