-- ===== src/Tests/Packages.antt =====
-- Runs of internal/structs_a.go, of generator/ and of the command on a package of two struct types.
pub mod Acyclic
pub mod Generating
use goen.Prelude.{
  ℕ, Bool, true, false, ◌&&◌, leb, List, [], ◌∷◌, ◌++◌, Str, str_eq, codes, Option, none, some, ◌≡◌,
  ◌≢◌, refl, arith, if◌then◌else◌, All,
}
use goen.Go.Result.{Result, ok, err, panic}
use goen.Go.Map.{Map}
use goen.StructTag.{StructTag, tag_goen, tag_primary_key, tag_foreign_key, tag_table}
use goen.Structs.Run.{Run}
use goen.Asts.{
  GoTools, Expr, ident, star, selector, struct_expr, FieldList, no_fields, field, type_spec, Object,
  ImportSpec, AstFile, AstPackage, BuildPackage, DirImport, no_go,
}
use goen.AstTypes.{AType, AStruct}
use goen.Generator.{Package}
use goen.Generator.Packages.{parse_dir}

abbrev pub starts_upper : Str → Bool
starts_upper [] = false
starts_upper (c ∷ s) = leb b'A' c && leb c b'Z'

abbrev pub quoted : Str → Str
quoted s = b'`' ∷ (s ++ (b'`' ∷ []))

-- The tags of the sample, by their texts.
abbrev pub tag_at : Str → StructTag
tag_at s =
    if str_eq s (codes "goen")
    then (tag_goen, []) ∷ (tag_table, codes "comments") ∷ []
    else if str_eq s (codes "pk")
    then (tag_goen, []) ∷ (tag_primary_key, []) ∷ []
    else if str_eq s (codes "fk")
    then (tag_foreign_key, codes "PostID:ID") ∷ []
    else []

abbrev pub spec : Str → Expr → Object
spec n e = record { name = n; decl = type_spec n e }

-- type Post struct { ID int; At *time.Time }
abbrev pub post_fields : FieldList
post_fields =
    field (codes "ID" ∷ []) (ident (codes "int")) (some (quoted (codes "pk")))
      (field (codes "At" ∷ []) (star (selector (codes "time") (codes "Time"))) none no_fields)

-- type Comment struct { ID int; PostID int; Post *Post }
abbrev pub comment_fields : FieldList
comment_fields =
    field (codes "ID" ∷ codes "PostID" ∷ []) (ident (codes "int")) (some (quoted (codes "goen"))) (
      field (codes "Post" ∷ []) (star (ident (codes "Post"))) (some (quoted (codes "fk")))
        no_fields)

abbrev pub time_import : ImportSpec
time_import = record { name = some (codes "time"); path = b'"' ∷ (codes "time" ++ (b'"' ∷ [])) }

abbrev pub blog_file : AstFile
blog_file = record {
  name = codes "blog";
  imports = time_import ∷ [];
  objects =
      spec (codes "Post") (struct_expr post_fields)
      ∷ spec (codes "Comment") (struct_expr comment_fields)
      ∷ [];
}

abbrev pub time_file : AstFile
time_file = record {
  name = codes "time";
  imports = [];
  objects = spec (codes "Time") (struct_expr no_fields) ∷ [];
}

abbrev pub blog : AstPackage
blog = record { name = codes "blog"; files = blog_file ∷ [] }

abbrev pub time_package : AstPackage
time_package = record { name = codes "time"; files = time_file ∷ [] }

abbrev pub tools : GoTools
tools = record {
  is_exported = starts_upper;
  parse_tag = tag_at;
  build_import = λ path. ok (record { name = path; dir = path; import_path = path });
  import_dir = λ dir. no_go;
  src_dirs = [];
  parse_dir =
      λ dir. if str_eq dir (codes "time") then ok ((codes "time", time_package) ∷ []) else err dir;
  abs = λ dir. ok dir;
  base = λ dir. dir;
  has_prefix = λ dir prefix. false;
  rel = λ base dir. ok dir;
}

abbrev pub same_case : Str → Str
same_case s = s

abbrev pub parsed : Result (Map AstPackage)
parsed = ok ((codes "blog", blog) ∷ [])

abbrev pub outcome : Run Package → Package
outcome (some (ok p)) = p
outcome _ = record { package_name = []; imports = []; tables = [] }

abbrev pub generated : Package
generated = outcome (parse_dir tools same_case 5 parsed (codes ".") [])
