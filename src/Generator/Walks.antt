-- ===== src/Generator/Walks.antt =====
-- Invariants of `walkPkg` and `walkFile` of generator/generator.go.
use goen.Prelude.{List, [], ◌∷◌, Str, ℕ}
use goen.Structs.{field_by_func}
use goen.Structs.Run.{pure, fail, IfDone, IfDone-bind, IfDone-after, IfDone-if}
use goen.Asts.{GoTools, Object, AstFile, AstPackage, is_struct_object}
use goen.AstTypes.{AStruct, new_struct_from_ast, fields}
use goen.Generator.{Package}
use goen.Generator.Relations.{walk_struct}
use goen.Generator.Packages.{walk_object, walk_file, walk_files, is_found, has_goen_tag}

module _ (go : GoTools) (snake_case : Str → Str) (fuel : ℕ) (Inv : Package → Type 0) where
  abbrev pub IsKept : Type 0
  IsKept =
      (strct : AStruct) (out : Package)
      → Inv out
      → IfDone Inv (walk_struct go snake_case fuel strct out)

  walk_object-keeps :
      (pkg : AstPackage) (file : AstFile) (obj : Object) (out : Package)
      → IsKept
      → Inv out
      → IfDone Inv (walk_object go snake_case fuel pkg file obj out)
  unfolding walk_object
  walk_object-keeps pkg file obj out step h =
      IfDone-after Inv (fail (new_struct_from_ast pkg file obj)) _ (λ strct e.
        IfDone-after Inv (fields go fuel strct) _ (λ all e'.
          IfDone-if Inv (is_found (field_by_func all has_goen_tag)) (pure out) _ h
            (step strct out h)))

  pub walk_file-keeps :
      (pkg : AstPackage) (file : AstFile) (objs : List Object) (out : Package)
      → IsKept
      → Inv out
      → IfDone Inv (walk_file go snake_case fuel pkg file objs out)
  unfolding walk_file
  walk_file-keeps pkg file [] out step h = h
  walk_file-keeps pkg file (obj ∷ objs) out step h =
      let skip = walk_file-keeps pkg file objs out step h in
      IfDone-if Inv (go.is_exported obj.name) _ _ skip (
        IfDone-if Inv (is_struct_object obj) _ _ skip (
          IfDone-bind Inv Inv (walk_object go snake_case fuel pkg file obj out) _
            (walk_object-keeps pkg file obj out step h)
            (λ next h'. walk_file-keeps pkg file objs next step h')))

  pub walk_files-keeps :
      (pkg : AstPackage) (files : List AstFile) (out : Package)
      → IsKept
      → Inv out
      → IfDone Inv (walk_files go snake_case fuel pkg files out)
  unfolding walk_files
  walk_files-keeps pkg [] out step h = h
  walk_files-keeps pkg (file ∷ files) out step h =
      IfDone-bind Inv Inv (walk_file go snake_case fuel pkg file file.objects out) _
        (walk_file-keeps pkg file file.objects out step h)
        (λ next h'. walk_files-keeps pkg files next step h')
