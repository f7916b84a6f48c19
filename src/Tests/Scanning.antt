-- ===== src/Tests/Scanning.antt =====
-- Runs of the scanning of rows in db_ctx.go.
use goen.Prelude.{
  false, List, [], ◌∷◌, Str, str_eq, codes, pos, Option, none, some, if◌then◌else◌, ◌≡◌, refl,
}
use goen.Go.Result.{ok, err}
use goen.Go.Value.{Value}
use goen.StructTag.{tag_primary_key, tag_column}
use goen.Structs.{basic_type, StructField}
use goen.Compiler.Rounds.{map_result, behind}
use goen.Scan.{
  Column, RowScanner, struct_row, pointer_row, SqlRows, scan_round, scan_into, slice_pointer,
}
use goen.Scan.Rows.{scan-map_result}

abbrev column : Str → Column
column name = record { name = name; scan_type = none }

abbrev columns : List Column
columns = column (codes "name") ∷ column (codes "id") ∷ []

abbrev id_field : StructField
id_field = record {
  name = codes "ID";
  typ = basic_type (codes "int");
  tag = (tag_primary_key, codes "id") ∷ [];
  anonymous = false;
}

abbrev name_field : StructField
name_field = record {
  name = codes "Name";
  typ = basic_type (codes "string");
  tag = (tag_column, codes "name") ∷ [];
  anonymous = false;
}

abbrev struct_fields : Str → List StructField
struct_fields s = id_field ∷ name_field ∷ []

abbrev field_by_name : Str → Str → Option StructField
field_by_name s name = if str_eq name (codes "ID") then some id_field else some name_field

abbrev same_name : Str → Str
same_name s = s

abbrev bob : Value
bob = Value.string (codes "string") (codes "Bob")

abbrev seven : Value
seven = Value.int (codes "int") (pos 7)

abbrev row : RowScanner
row variables = ok (bob ∷ seven ∷ [])

abbrev bad_row : RowScanner
bad_row variables = err (codes "bad value")

abbrev two_rows : SqlRows
two_rows = record { column_types = ok columns; rows = row ∷ bad_row ∷ []; final_error = none }

scan-map_result_example :
    scan_into same_name struct_fields field_by_name
      (slice_pointer (pointer_row (struct_row (codes "User"))) [])
      two_rows
    ≡ behind [] (
        map_result
          (scan_round same_name struct_fields field_by_name columns
            (pointer_row (struct_row (codes "User"))))
          (row ∷ bad_row ∷ []))
scan-map_result_example =
    scan-map_result same_name struct_fields field_by_name (pointer_row (struct_row (codes "User")))
      [] columns two_rows refl
