-- ===== src/Generator/Termination.antt =====
-- `ParseDir` of generator/generator.go, by ranks of the types of the program.
pub mod Structs
use mathlib.Core.Option.{some-injective}
use goen.Prelude.{
  Bool, true, false, List, [], ◌∷◌, Str, str_eq, ℕ, Option, none, some, ◌≡◌, refl, sym, ◌∙◌, ap,
  arith, All, filter, Bool-cases, inl, inr, if◌then◌else◌, subst,
}
use goen.Go.Result.{Result, ok, err, panic}
use goen.Go.Map.{Map, lookup}
use goen.Structs.{
  FieldOf, field_by_func, fields_by_func, is_column_field, column_name, omit_empty, foreign_key,
  reference_key, field_by_column, table_name, is_view_struct,
}
use goen.Structs.Run.{Run, pure, fail, ◌>>=◌, IfDone, IfDone-done}
use goen.Structs.Run.Settling.{
  Settles, Settles-some, Settles-suc, Settles-bind, Settles-fail, Settles-if,
}
use goen.Asts.{GoTools, Object, AstFile, AstPackage, is_struct_object}
use goen.Asts.Lookup.{assume_import}
use goen.AstTypes.{AType, AStruct, new_struct_from_ast, fields}
use goen.AstTypes.Shown.{type_pkg_path}
use goen.AstTypes.Kinds.{
  is_pointer, is_pointer_or_slice, strip, new_struct, is_one_to_many_field, is_many_to_one_field,
}
use goen.AstTypes.Kinds.Fuel.{
  Ranks, found_in, strip-Settles, new_struct-Settles, is_one_to_many_field-Settles,
  is_many_to_one_field-Settles,
}
use goen.AstTypes.Kinds.Places.{IsClosed, InProgram, new_struct-pkg, new_struct_from_ast-pkg}
use goen.AstTypes.Embedding.{IsRanked, IsTyped, fields-Settles, fields-IsTyped}
use goen.Generator.{
  Import, Table, Package, import_type, safe, safe_pkg_import, column_of, columns_of,
}
use goen.Generator.Relations.{
  Cardinality, one_to_many, many_to_one, one_to_one, unwrapped, cardinality, key_columns,
  or_invalid, column_names, relation_to, relation_of, add_relation, add_relations, is_relation,
  walk_struct,
}
use goen.Generator.Termination.Structs.{fields_end, walk_struct-Settles}
use goen.Generator.Packages.{
  required_imports, add_imports, dot_import, walk_object, walk_file, walk_files, walk_pkg, chosen,
  chosen_by, only_package, parse_dir, is_found, has_goen_tag, sort_tables,
}

module _ (go : GoTools) (Program : AstPackage → Type 0) where
  entry_in :
      (b : Bool) (other pkg : AstPackage) (o : Option AstPackage)
      → Program other
      → (o ≡ some pkg → Program pkg)
      → (if b then some other else o) ≡ some pkg
      → Program pkg
  entry_in true other pkg o p h e = subst Program (some-injective other pkg e) p
  entry_in false other pkg o p h e = h e

  lookup-in :
      (name : Str) (pkgs : Map AstPackage) (pkg : AstPackage)
      → All (λ entry. Program (entry.1)) pkgs
      → lookup name pkgs ≡ some pkg
      → Program pkg
  unfolding lookup
  lookup-in name [] pkg h e = ground arith
  lookup-in name ((key, other) ∷ pkgs) pkg (p, ps) e =
      entry_in (str_eq key name) other pkg (lookup name pkgs) p (lookup-in name pkgs pkg ps) e

  chosen-in :
      (pkgs : Map AstPackage) (o : Option AstPackage)
      → ((pkg : AstPackage) → o ≡ some pkg → Program pkg)
      → IfDone Program (fail (chosen pkgs o))
  chosen-in pkgs none h = tt
  chosen-in pkgs (some pkg) h = h pkg refl

  only_package-in :
      (src_dir : Str) (pkgs : Map AstPackage)
      → All (λ entry. Program (entry.1)) pkgs
      → IfDone Program (fail (only_package go src_dir pkgs))
  unfolding only_package
  only_package-in src_dir [] h = tt
  only_package-in src_dir ((name, pkg) ∷ []) (p, h) = p
  only_package-in src_dir ((name, pkg) ∷ other ∷ pkgs) h = assumed_in (assume_import go src_dir)
    where
      all_of : Map AstPackage
      all_of = (name, pkg) ∷ other ∷ pkgs

      assumed_in : (r : Result (Str × Str)) → IfDone Program (fail (chosen_by all_of r))
      assumed_in (ok assumed) =
          chosen-in all_of (lookup (assumed.0) all_of) (λ p e. lookup-in (assumed.0) all_of p h e)
      assumed_in (err e) = tt
      assumed_in (panic p) = tt

module _ (go : GoTools) (snake_case : Str → Str) (Program : AstPackage → Type 0) (rank : AType → ℕ)
    (struct_rank : AStruct → ℕ) (ranks : Ranks go Program rank)
    (ranked : IsRanked go Program struct_rank) (closed : IsClosed go Program) where
  made_in :
      (pkg : AstPackage) (file : AstFile) (obj : Object) (strct : AStruct)
      → Program pkg
      → new_struct_from_ast pkg file obj ≡ ok strct
      → Program strct.pkg
  made_in pkg file obj strct p e =
      IfDone-done (InProgram go Program) (fail (new_struct_from_ast pkg file obj)) strct
        (new_struct_from_ast-pkg go Program pkg file obj p) (ap some e)

  walk_object-Settles :
      (pkg : AstPackage) (file : AstFile) (obj : Object) (out : Package)
      → Program pkg
      → Settles (λ m. walk_object go snake_case m pkg file obj out)
  unfolding walk_object
  walk_object-Settles pkg file obj out p =
      Settles-fail (new_struct_from_ast pkg file obj) _ (λ strct e.
        let q = made_in pkg file obj strct p e in
        Settles-bind (λ m. fields go m strct) _
          (fields_end go snake_case Program rank struct_rank ranks ranked closed strct q)
          (λ all n e1.
            Settles-if (is_found (field_by_func all has_goen_tag)) (λ m. pure out) _
              (Settles-some _)
              (walk_struct-Settles go snake_case Program rank struct_rank ranks ranked closed strct
                out q)))

  walk_file-Settles :
      (pkg : AstPackage) (file : AstFile) (objs : List Object) (out : Package)
      → Program pkg
      → Settles (λ m. walk_file go snake_case m pkg file objs out)
  unfolding walk_file
  walk_file-Settles pkg file [] out p = Settles-some _
  walk_file-Settles pkg file (obj ∷ objs) out p =
      let skip = walk_file-Settles pkg file objs out p in
      Settles-if (go.is_exported obj.name) _ _ skip (
        Settles-if (is_struct_object obj) _ _ skip (
          Settles-bind (λ m. walk_object go snake_case m pkg file obj out) _
            (walk_object-Settles pkg file obj out p)
            (λ next n e. walk_file-Settles pkg file objs next p)))

  walk_files-Settles :
      (pkg : AstPackage) (files : List AstFile) (out : Package)
      → Program pkg
      → Settles (λ m. walk_files go snake_case m pkg files out)
  unfolding walk_files
  walk_files-Settles pkg [] out p = Settles-some _
  walk_files-Settles pkg (file ∷ files) out p =
      Settles-bind (λ m. walk_file go snake_case m pkg file file.objects out) _
        (walk_file-Settles pkg file file.objects out p)
        (λ next n e. walk_files-Settles pkg files next p)

  -- If some ranks of the types and of the struct types of the packages go down along declarations and
  -- embedding, and the packages that are parsed and imported are among these, then from some fuel on
  -- `ParseDir` gives one result.
  pub parse_dir-Settles :
      (pkgs : Map AstPackage) (src_dir out_pkg_name : Str)
      → All (λ entry. Program (entry.1)) pkgs
      → Settles (λ fuel. parse_dir go snake_case fuel (ok pkgs) src_dir out_pkg_name)
  unfolding parse_dir walk_pkg
  parse_dir-Settles pkgs src_dir out_pkg_name ps =
      Settles-fail (only_package go src_dir pkgs) _ (λ pkg e1.
        let p =
          IfDone-done Program (fail (only_package go src_dir pkgs)) pkg
            (only_package-in go Program src_dir pkgs ps) (ap some e1) in
        Settles-bind (λ m. walk_pkg go snake_case m src_dir out_pkg_name pkg) _
          (Settles-fail (dot_import go src_dir out_pkg_name (add_imports required_imports [])) _
            (λ imports e2. walk_files-Settles pkg pkg.files _ p))
          (λ out n e3. Settles-some _))
