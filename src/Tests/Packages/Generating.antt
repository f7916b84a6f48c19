-- ===== src/Tests/Packages/Generating.antt =====
-- The generator and the command on the sample package.
use mathlib.Core.List.{Permᴰ}
use goen.Prelude.{
  All, true, Str, false, [], ◌∷◌, ◌++◌, Str, codes, some, ◌≡◌, ◌≢◌, refl, inl, arith, map,
  if◌then◌else◌, str_eq, str_le,
}
use goen.Go.Result.{Result, ok, err}
use goen.Go.Map.{lookup, insert}
use goen.RowKey.{sort_strings, insert_sorted}
use goen.StructTag.{
  first_lookup, parent_key, child_key, colpairs, split, string_at, first_not_empty,
  column_spec_name, table_spec_name,
}
use goen.RowKey.Sorting.{IsSorted}
use goen.Structs.{
  FieldOf, is_column_field, is_foreign_key_field, is_ignored_field, column_name, omit_empty,
  field_by_column, eq_column_name, foreign_key, reference_key, table_name, is_primary_key_field,
  is_view_struct, is_struct_kind,
}
use goen.Structs.Run.Settling.{Settles}
use goen.Asts.{
  ident, BuildPackage, star, selector, is_struct_object, object_by_func, eq_object_name,
}
use goen.Asts.Lookup.{trim, find_pkg_path, parse_pkg_path}
use goen.AstTypes.{at_file, AType, AStruct, fields, is_primitive}
use goen.AstTypes.Shown.{type_pkg_path, shown, type_name, declaration}
use goen.AstTypes.Kinds.{strip, kind, elem, new_struct, is_one_to_many_field, is_many_to_one_field}
use goen.AstTypes.Strings.{string_with_pkg_name, type_string}
use goen.Generator.{
  Column, imports_path, safe_pkg_import, Package, Table, column_of, columns_of, safe, safe_runes,
  rune_rest,
}
use goen.Generator.Relations.{walk_struct, add_relations}
use goen.Generator.Packages.{parse_dir, sort_tables}
use goen.Generator.Output.{IsOutput, parse_dir-IsOutput}
use goen.Generator.Printable.{IsPrintable, parse_dir-IsPrintable}
use goen.Generator.Sorted.{entities, sort_tables-Permᴰ}
use goen.Generator.Termination.{parse_dir-Settles}
use goen.Asts.Cache.{CacheKey, answers, answers-map}
use goen.AstTypes.Kinds.Foreign.{new_struct-foreign}
use goen.Generator.Tables.{walk_struct-imports}
use goen.Generator.Naming.{stars, column_of-type}
use goen.Command.{
  Flags, with_flags, all_written, Host, Outcome, stub, overwrite, run, run_on_file,
  is_different_dir, run_to_file, source_dir, generate, apply_filters, write_out,
}
use goen.Command.Writing.{IsLeft, run-IsLeft}
use goen.Tests.Packages.{
  tools, same_case, parsed, generated, blog, blog_file, post_fields, tag_at, outcome,
}
use goen.Tests.Packages.Acyclic.{
  Sample, rank, struct_rank, tools-Ranks, tools-IsRanked, tools-IsClosed,
}

parse_dir-IsOutput_example : IsOutput generated × IsSorted (entities generated.tables)
unfolding parse_dir is_struct_object fields lookup insert str_eq str_le trim walk_struct columns_of
    is_column_field is_foreign_key_field is_ignored_field column_name first_lookup omit_empty strip
    kind is_primitive type_pkg_path find_pkg_path elem shown string_with_pkg_name type_string safe
    safe_runes rune_rest add_relations field_by_column eq_column_name foreign_key reference_key
    parent_key child_key colpairs split string_at first_not_empty table_name column_spec_name
    table_spec_name new_struct type_name declaration object_by_func parse_pkg_path sort_strings
    insert_sorted is_primary_key_field is_view_struct eq_object_name is_one_to_many_field
    is_many_to_one_field is_struct_kind
parse_dir-IsOutput_example =
    parse_dir-IsOutput tools same_case 5 parsed (codes ".") [] generated refl

parse_dir-IsPrintable_example : All IsPrintable generated.tables
unfolding parse_dir is_struct_object fields lookup insert str_eq str_le trim walk_struct columns_of
    is_column_field is_foreign_key_field is_ignored_field column_name first_lookup omit_empty strip
    kind is_primitive type_pkg_path find_pkg_path elem shown string_with_pkg_name type_string safe
    safe_runes rune_rest add_relations field_by_column eq_column_name foreign_key reference_key
    parent_key child_key colpairs split string_at first_not_empty table_name column_spec_name
    table_spec_name new_struct type_name declaration object_by_func parse_pkg_path sort_strings
    insert_sorted is_primary_key_field is_view_struct eq_object_name is_one_to_many_field
    is_many_to_one_field is_struct_kind
parse_dir-IsPrintable_example =
    parse_dir-IsPrintable tools same_case 5 parsed (codes ".") [] generated refl

parse_dir-Settles_example : Settles (λ fuel. parse_dir tools same_case fuel parsed (codes ".") [])
parse_dir-Settles_example =
    parse_dir-Settles tools same_case Sample rank struct_rank tools-Ranks tools-IsRanked
      tools-IsClosed ((codes "blog", blog) ∷ []) (codes ".") [] (inl refl, tt)

abbrev table_named : Str → Table
table_named n = record {
  table_name = n;
  read_only = false;
  entity = n;
  columns = [];
  one_to_many = [];
  many_to_one = [];
  one_to_one = [];
}

sort_tables-Permᴰ_example :
    sort_tables (table_named (codes "b") ∷ table_named (codes "a") ∷ [])
    ≡ sort_tables (table_named (codes "a") ∷ table_named (codes "b") ∷ [])
sort_tables-Permᴰ_example =
    sort_tables-Permᴰ (table_named (codes "b") ∷ table_named (codes "a") ∷ [])
      (table_named (codes "a") ∷ table_named (codes "b") ∷ []) (Permᴰ.swap refl refl)
      (((λ e. ground arith), tt), (tt, tt))

-- The struct type Post.
abbrev post : AStruct
post = record { pkg = blog; file = blog_file; name = codes "Post"; field_list = post_fields }

abbrev id_field : FieldOf AType
id_field = record {
  name = codes "ID";
  typ = record { pkg = blog; file = blog_file; decl = ident (codes "int") };
  tag = tag_at (codes "pk");
  anonymous = false;
}

abbrev at_field : FieldOf AType
at_field = record {
  name = codes "At";
  typ = record {
    pkg = blog;
    file = blog_file;
    decl = star (selector (codes "time") (codes "Time"));
  };
  tag = [];
  anonymous = false;
}

abbrev nothing : Package
nothing = record { package_name = []; imports = []; tables = [] }

walk_struct-imports_example :
    imports_path (codes "time") (outcome (walk_struct tools same_case 5 post nothing)).imports
    ≡ true
unfolding fields lookup str_eq trim walk_struct columns_of is_column_field is_foreign_key_field
    is_ignored_field column_name first_lookup omit_empty strip kind is_primitive type_pkg_path
    find_pkg_path elem shown string_with_pkg_name safe safe_runes rune_rest add_relations
    first_not_empty table_name column_spec_name table_spec_name is_primary_key_field is_view_struct
    parse_pkg_path declaration object_by_func eq_object_name
walk_struct-imports_example =
    walk_struct-imports tools same_case 5 post nothing
      (outcome (walk_struct tools same_case 5 post nothing)) (id_field ∷ at_field ∷ []) 1 at_field
      (codes "time") (codes "time") refl refl refl refl (λ e. ground arith)

abbrev at_column : Column
at_column = record {
  column_name = codes "At";
  is_pk = false;
  omit_empty = false;
  field_name = codes "At";
  field_type = codes "*time.Time";
}

column_of-type_example :
    (at_column.field_type ≡ stars 1 (safe (codes "time") ++ codes "." ++ codes "Time"))
    × ◌≡◌ {A = Str × Str} (codes "time", codes "time") (safe (codes "time"), codes "time")
unfolding column_of safe_pkg_import fields lookup str_eq trim walk_struct columns_of is_column_field
    is_foreign_key_field is_ignored_field column_name first_lookup omit_empty strip kind
    is_primitive type_pkg_path find_pkg_path elem shown string_with_pkg_name safe safe_runes
    rune_rest add_relations first_not_empty table_name column_spec_name table_spec_name
    is_primary_key_field is_view_struct parse_pkg_path declaration object_by_func eq_object_name
column_of-type_example =
    column_of-type tools same_case 5 1 at_field (codes "time") (codes "Time") (codes "time")
      at_column (codes "time", codes "time") refl refl (λ e. ground arith) refl

abbrev time_type : AType
time_type = at_file blog blog_file (selector (codes "time") (codes "Time"))

new_struct-foreign_example : new_struct tools 5 time_type ≢ some (ok post)
new_struct-foreign_example =
    new_struct-foreign tools 5 time_type (codes "time") (codes "Time") post refl
      ((refl, (refl, tt)), tt)

abbrev known_path : CacheKey → Result BuildPackage
known_path k =
    if str_eq k.path (codes "time")
    then ok (record { name = codes "time"; dir = codes "time"; import_path = codes "time" })
    else err k.path

abbrev key_of : Str → CacheKey
key_of path = record { path = path; src_dir = codes "."; mode = 0 }

answers-map_example :
    answers known_path (key_of (codes "time") ∷ key_of (codes "x") ∷ key_of (codes "time") ∷ []) []
    ≡ map known_path (key_of (codes "time") ∷ key_of (codes "x") ∷ key_of (codes "time") ∷ [])
answers-map_example =
    answers-map known_path (key_of (codes "time") ∷ key_of (codes "x") ∷ key_of (codes "time") ∷ [])

-- goen -o out.go
abbrev host : Host
host = record {
  version_line = codes "goen";
  dir = λ path. codes ".";
  base = λ path. path;
  match = λ pat name. ok (str_eq pat name);
  mkdir_all = λ dir. ok tt;
  create = λ path. ok tt;
  write_stub = all_written;
  seek = ok tt;
  write = λ src. all_written;
  parse_filtered = λ filter dir. parsed;
  execute = λ p. ok p.package_name;
  format_source = λ src. ok src;
  process_imports = λ path src. err path;
}

abbrev flags : Flags
flags = record {
  show_version = false;
  out_pkg_name = [];
  out_file = codes "out.go";
  exclude_globs = codes "x.go" ∷ [];
  no_go_fmt = false;
  no_go_imports = false;
  args = [];
}

-- The generated text is too short to replace the stub.
abbrev left_file : Outcome
left_file = record { status = 0; stdout = []; file = some (overwrite (codes "blog") stub) }

run-IsLeft_example : IsLeft left_file
unfolding run run_on_file is_different_dir run_to_file source_dir generate apply_filters write_out
    parse_dir is_struct_object fields lookup insert str_eq str_le trim walk_struct columns_of
    is_column_field is_foreign_key_field is_ignored_field column_name first_lookup omit_empty strip
    kind is_primitive type_pkg_path find_pkg_path elem shown string_with_pkg_name type_string safe
    safe_runes rune_rest add_relations field_by_column eq_column_name foreign_key reference_key
    parent_key child_key colpairs split string_at first_not_empty table_name column_spec_name
    table_spec_name new_struct type_name declaration object_by_func parse_pkg_path sort_strings
    insert_sorted is_primary_key_field is_view_struct eq_object_name is_one_to_many_field
    is_many_to_one_field is_struct_kind
run-IsLeft_example = run-IsLeft tools host same_case 5 (with_flags flags) left_file refl
