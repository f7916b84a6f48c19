-- ===== src/Asts.antt =====
-- internal/asts: the syntax of Go types, as far as the code looks at it, and where the package of an
-- import is found. Packages go/ast, go/build and go/parser and path/filepath are the parameter
-- `GoTools`.
pub mod Lookup
pub mod Cache
use goen.Prelude.{
  Bool, true, false, List, [], ◌∷◌, ◌++◌, reverse, Str, str_eq, ◌==◌, if◌then◌else◌, Option, none,
  some,
}
use goen.Go.Result.{Result, ok, err, panic, message, ◌>>=◌}
use goen.Go.Map.{Map, lookup}
use goen.StructTag.{StructTag}

-- ast.Expr. `array_type` has a length, `slice_type` none; the X of a selector in a type is the name
-- of a package; `other` is any other node, by its kind, with the expressions in it in the order in
-- which ast.Walk meets them. A field has its names, its type and its tag as it is written.
mutual
  pub data Expr : Type 0 where
    ident : Str → Expr
    star : Expr → Expr
    slice_type : Expr → Expr
    array_type : Expr → Expr → Expr
    selector : Str → Str → Expr
    struct_expr : FieldList → Expr
    other : Str → Exprs → Expr

  pub data Exprs : Type 0 where
    no_exprs : Exprs
    also : Expr → Exprs → Exprs

  pub data FieldList : Type 0 where
    no_fields : FieldList
    field : List Str → Expr → Option Str → FieldList → FieldList

-- obj.Decl: an *ast.TypeSpec by its name and its type, or another declaration.
pub data Decl : Type 0 where
  type_spec : Str → Expr → Decl
  other_decl : Decl

-- ast.Object
pub record Object : Type 0 where
  pub name : Str
  pub decl : Decl

-- ast.ImportSpec; the path is the literal, with its quotes.
pub record ImportSpec : Type 0 where
  pub name : Option Str
  pub path : Str

-- ast.File; the objects of its scope are listed in the order of one visit of the map.
pub record AstFile : Type 0 where
  pub name : Str
  pub imports : List ImportSpec
  pub objects : List Object

-- ast.Package; its files likewise.
pub record AstPackage : Type 0 where
  pub name : Str
  pub files : List AstFile

-- build.Package
pub record BuildPackage : Type 0 where
  pub name : Str
  pub dir : Str
  pub import_path : Str

-- What `build.ImportDir` answers: the package, a *build.NoGoError, or another error.
pub data DirImport : Type 0 where
  found_go : BuildPackage → DirImport
  no_go : DirImport
  failed : Str → DirImport

pub record GoTools : Type 0 where
  -- ast.IsExported, and reflect's reading of a tag
  pub is_exported : Str → Bool
  pub parse_tag : Str → StructTag
  -- build.Import of a path, build.ImportDir, build.Default.SrcDirs, parser.ParseDir
  pub build_import : Str → Result BuildPackage
  pub import_dir : Str → DirImport
  pub src_dirs : List Str
  pub parse_dir : Str → Result (Map AstPackage)
  -- filepath.Abs, Base, HasPrefix and Rel
  pub abs : Str → Result Str
  pub base : Str → Str
  pub has_prefix : Str → Str → Bool
  pub rel : Str → Str → Result Str

-- `IsStructObject`
unfoldable pub is_struct_object : Object → Bool
is_struct_object obj = elim obj.decl [ type_spec n (struct_expr fs) ↦ true | _ ↦ false ]

-- `EqObjectName`
unfoldable pub eq_object_name : Str → Object → Bool
eq_object_name name obj = str_eq obj.name name

-- The inner loop of `ObjectByFunc`.
unfoldable pub object_in : (Object → Bool) → AstFile → List Object → Option (AstFile × Object)
object_in fn file [] = none
object_in fn file (obj ∷ objs) =
    let later = object_in fn file objs in if fn obj then some (file, obj) else later

abbrev pub or_later : {A : Type 0} → Option A → Option A → Option A
or_later none o = o
or_later (some a) o = some a

-- `ObjectByFunc` on the files of a package.
unfoldable pub object_by_func : (Object → Bool) → List AstFile → Option (AstFile × Object)
unfolding object_in
object_by_func fn [] = none
object_by_func fn (file ∷ files) =
    or_later (object_in fn file file.objects) (object_by_func fn files)

-- The walk of `GetPkgName`: the last selector wins.
unfoldable mutual
  pub walk_pkg_name : Expr → Str → Str
  walk_pkg_name (ident n) acc = acc
  walk_pkg_name (star e) acc = walk_pkg_name e acc
  walk_pkg_name (slice_type e) acc = walk_pkg_name e acc
  walk_pkg_name (array_type l e) acc = walk_pkg_name e (walk_pkg_name l acc)
  walk_pkg_name (selector p t) acc = p
  walk_pkg_name (struct_expr fs) acc = walk_pkg_name_fields fs acc
  walk_pkg_name (other k es) acc = walk_pkg_name_all es acc

  pub walk_pkg_name_all : Exprs → Str → Str
  walk_pkg_name_all no_exprs acc = acc
  walk_pkg_name_all (also e es) acc = walk_pkg_name_all es (walk_pkg_name e acc)

  pub walk_pkg_name_fields : FieldList → Str → Str
  walk_pkg_name_fields no_fields acc = acc
  walk_pkg_name_fields (field names e tag fs) acc = walk_pkg_name_fields fs (walk_pkg_name e acc)

-- `GetPkgName`
unfoldable pub get_pkg_name : Expr → Str
unfolding walk_pkg_name
get_pkg_name decl = walk_pkg_name decl []

abbrev pub last_name : List Str → Str → Str
last_name [] acc = acc
last_name (n ∷ ns) acc = last_name ns n

-- The walk of `GetTypeName`, which also meets the names of fields.
unfoldable mutual
  pub walk_type_name : Expr → Str → Str
  walk_type_name (ident n) acc = n
  walk_type_name (star e) acc = walk_type_name e acc
  walk_type_name (slice_type e) acc = walk_type_name e acc
  walk_type_name (array_type l e) acc = walk_type_name e (walk_type_name l acc)
  walk_type_name (selector p t) acc = t
  walk_type_name (struct_expr fs) acc = walk_type_name_fields fs acc
  walk_type_name (other k es) acc = walk_type_name_all es acc

  pub walk_type_name_all : Exprs → Str → Str
  walk_type_name_all no_exprs acc = acc
  walk_type_name_all (also e es) acc = walk_type_name_all es (walk_type_name e acc)

  pub walk_type_name_fields : FieldList → Str → Str
  walk_type_name_fields no_fields acc = acc
  walk_type_name_fields (field names e tag fs) acc =
      walk_type_name_fields fs (walk_type_name e (last_name names acc))

-- `GetTypeName`
unfoldable pub get_type_name : Expr → Str
unfolding walk_type_name
get_type_name decl = walk_type_name decl []
