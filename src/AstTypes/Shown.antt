-- ===== src/AstTypes/Shown.antt =====
-- `Name`, `PkgPath` and one visit of `Kind` of internal/structs_a.go.
use goen.Prelude.{[], ◌∷◌, ◌++◌, Str, codes, if◌then◌else◌, Option, none, some}
use goen.Go.Result.{Result, ok, panic, message, ◌>>=◌}
use goen.Structs.{Kind, pointer, slice, struct, basic}
use goen.Asts.{
  GoTools, Expr, ident, star, slice_type, array_type, selector, struct_expr, other, Decl, type_spec,
  other_decl, Object, AstFile, AstPackage, eq_object_name, object_by_func,
}
use goen.Asts.Lookup.{parse_pkg_path, find_pkg_path, or_panic}
use goen.AstTypes.{AType, AStruct, primitive_names, is_primitive, new_struct_from_ast}

-- What the syntax of a type shows: its kind, or the declaration that it names.
pub data Shown : Type 0 where
  known : Kind → Shown
  declared : AType → Shown

-- `obj.Decl.(*ast.TypeSpec)`, and its type.
abbrev pub type_of_decl : AstPackage → AstFile → Decl → Result Shown
type_of_decl pkg file (type_spec n e) = ok (declared (record { pkg = pkg; file = file; decl = e }))
type_of_decl pkg file other_decl = panic (message "interface conversion: interface {}" [])

abbrev pub type_of_object : AstPackage → Str → Option (AstFile × Object) → Result Shown
type_of_object pkg name none = panic (message "goen: type declaration is not found " name)
type_of_object pkg name (some (file, obj)) = type_of_decl pkg file obj.decl

-- The declaration of a name in a package.
unfoldable pub declaration : AstPackage → Str → Result Shown
declaration pkg name = type_of_object pkg name (object_by_func (eq_object_name name) pkg.files)

-- `aType.Name`
unfoldable pub type_name : Expr → Str
type_name (ident n) = n
type_name (selector p t) = p ++ codes "." ++ t
type_name _ = []

-- The last steps of `NewStruct`: the object is looked up in the package of the type's expression.
abbrev pub struct_found : AType → AstPackage → Option (AstFile × Object) → Result AStruct
struct_found at pkg none = panic (message "goen: couldnot find a struct " (type_name at.decl))
struct_found at pkg (some (file, obj)) = new_struct_from_ast pkg file obj

abbrev pub struct_named : AType → AstPackage → Result AStruct
struct_named at pkg =
    struct_found at pkg (object_by_func (eq_object_name (type_name at.decl)) at.pkg.files)

module _ (go : GoTools) where
  -- `aType.PkgPath`
  unfoldable pub type_pkg_path : AType → Result Str
  type_pkg_path at = elim at.decl [ selector p t ↦ find_pkg_path go at.file p | _ ↦ ok [] ]

  abbrev pub of_import : AType → Str → Str → Result Shown
  of_import at p t = do
    path ← find_pkg_path go at.file p
    pkg ← or_panic (parse_pkg_path go path)
    declaration pkg t

  -- One visit of `aType.Kind`.
  unfoldable pub shown : AType → Result Shown
  unfolding declaration
  shown at = elim at.decl [
    | ident n ↦ if is_primitive primitive_names n then ok (known basic) else declaration at.pkg n
    | star e ↦ ok (known pointer)
    | slice_type e ↦ ok (known slice)
    | array_type l e ↦ ok (known slice)
    | selector p t ↦ of_import at p t
    | struct_expr fs ↦ ok (known struct)
    | other k es ↦ panic (message "goen: unknown expr type " k)
  ]

  -- The package in which `NewStruct` finds itself.
  abbrev pub package_at : AType → Str → Result AstPackage
  package_at at [] = ok at.pkg
  package_at at (c ∷ s) = or_panic (parse_pkg_path go (c ∷ s))
