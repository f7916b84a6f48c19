-- ===== src/AstTypes.antt =====
-- internal/structs_a.go: struct types and their fields as the syntax tree of a package shows them.
pub mod Shown
pub mod Embedding
pub mod Kinds
pub mod Strings
use goen.Prelude.{
  Bool, true, false, ◌||◌, List, [], ◌∷◌, ◌++◌, Str, codes, str_eq, if◌then◌else◌, Option, none,
  some, ℕ, zero, suc,
}
use goen.Go.Result.{Result, ok, err, panic, message}
use goen.StructTag.{StructTag}
use goen.Structs.{FieldOf, Kind, invalid, pointer, slice, struct, basic}
use goen.Structs.Run.{Run, pure, fail, ◌>>=◌}
use goen.Asts.{
  GoTools, Expr, ident, star, slice_type, array_type, selector, struct_expr, other, FieldList,
  no_fields, field, Decl, type_spec, other_decl, Object, AstFile, AstPackage, eq_object_name,
  object_by_func, get_pkg_name, get_type_name,
}
use goen.Asts.Lookup.{trim, parse_pkg_path, find_pkg_path, or_panic}

-- `aType`
pub record AType : Type 0 where
  pub pkg : AstPackage
  pub file : AstFile
  pub decl : Expr

-- `newAType`
abbrev pub at_file : AstPackage → AstFile → Expr → AType
at_file pkg file e = record { pkg = pkg; file = file; decl = e }

-- `aStruct`; of its type declaration the name is kept.
pub record AStruct : Type 0 where
  pub pkg : AstPackage
  pub file : AstFile
  pub name : Str
  pub field_list : FieldList

-- The types of Go that are known by their names.
abbrev pub primitive_names : List Str
primitive_names =
    codes "string"
    ∷ codes "bool"
    ∷ codes "int"
    ∷ codes "int8"
    ∷ codes "int16"
    ∷ codes "int32"
    ∷ codes "int64"
    ∷ codes "uint"
    ∷ codes "uint8"
    ∷ codes "uint16"
    ∷ codes "uint32"
    ∷ codes "uint64"
    ∷ codes "float32"
    ∷ codes "float64"
    ∷ []

unfoldable pub is_primitive : List Str → Str → Bool
is_primitive [] name = false
is_primitive (p ∷ ps) name = str_eq p name || is_primitive ps name

-- The two type assertions of `NewStructFromAST`.
abbrev pub struct_of_expr : AstPackage → AstFile → Str → Expr → Result AStruct
struct_of_expr pkg file name (struct_expr fs) =
    ok (record { pkg = pkg; file = file; name = name; field_list = fs })
struct_of_expr pkg file name _ = panic (message "interface conversion: ast.Expr" [])

abbrev pub struct_of_decl : AstPackage → AstFile → Decl → Result AStruct
struct_of_decl pkg file (type_spec name e) = struct_of_expr pkg file name e
struct_of_decl pkg file other_decl = panic (message "interface conversion: interface {}" [])

-- `NewStructFromAST`
unfoldable pub new_struct_from_ast : AstPackage → AstFile → Object → Result AStruct
new_struct_from_ast pkg file obj = struct_of_decl pkg file obj.decl

-- An object that was found, or a panic.
abbrev pub or_undeclared : Str → Option (AstFile × Object) → Result (AstFile × Object)
or_undeclared name none = panic (message "goen: unable to find object " name)
or_undeclared name (some found) = ok found

module _ (go : GoTools) where
  abbrev pub path_package : Result Str → Result AstPackage
  path_package (ok pkg_path) = or_panic (parse_pkg_path go pkg_path)
  path_package (err e) = err e
  path_package (panic p) = panic p

  -- The package in which an embedded type is declared: the same one, or that of an import.
  unfoldable pub package_of : AstPackage → AstFile → Str → Result AstPackage
  package_of pkg file [] = ok pkg
  package_of pkg file (c ∷ s) = path_package (find_pkg_path go file (c ∷ s))

  -- The struct type that a field embeds.
  unfoldable pub embedded_struct : AStruct → Expr → Run AStruct
  unfolding package_of new_struct_from_ast
  embedded_struct s e = do
    emb_pkg ← fail (package_of s.pkg s.file (get_pkg_name e))
    (emb_file, emb_obj) ← fail (
        or_undeclared (get_type_name e)
          (object_by_func (eq_object_name (get_type_name e)) emb_pkg.files))
    fail (new_struct_from_ast emb_pkg emb_file emb_obj)

  -- `aStructField.Tag`
  abbrev pub tag_of : Option Str → StructTag
  tag_of none = go.parse_tag []
  tag_of (some t) = go.parse_tag (trim b'`' t)

  -- The loop over the names of a field.
  unfoldable pub named_fields : AStruct → Expr → Option Str → List Str → List (FieldOf AType)
  named_fields s e tag [] = []
  named_fields s e tag (n ∷ names) =
      let rest = named_fields s e tag names in
      if go.is_exported n
      then record {
        name = n;
        typ = record { pkg = s.pkg; file = s.file; decl = e };
        tag = tag_of tag;
        anonymous = false;
      }
        ∷ rest
      else rest

  -- The loop of `Fields`; `embedded` gives the fields of an embedded struct type.
  unfoldable pub fields_in :
      (AStruct → Run (List (FieldOf AType))) → AStruct → FieldList → Run (List (FieldOf AType))
  unfolding embedded_struct named_fields
  fields_in embedded s no_fields = pure []
  fields_in embedded s (field [] e tag fs) = do
    emb_strct ← embedded_struct s e
    embs ← embedded emb_strct
    rest ← fields_in embedded s fs
    pure (embs ++ rest)
  fields_in embedded s (field (n ∷ names) e tag fs) = do
    rest ← fields_in embedded s fs
    pure (named_fields s e tag (n ∷ names) ++ rest)

  -- `aStruct.Fields`, on fuel for the depth of embedding.
  unfoldable pub fields : ℕ → AStruct → Run (List (FieldOf AType))
  unfolding fields_in
  fields zero s = none
  fields (suc fuel) s = fields_in (fields fuel) s s.field_list
