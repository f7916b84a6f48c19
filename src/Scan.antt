-- ===== src/Scan.antt =====
-- db_ctx.go: `Scan` and the scanning of one row into a slice, a map or a struct. The rows of
-- database/sql are a parameter: each answers to `Scan` with a value for every variable, or fails.
pub mod Rows
use goen.Prelude.{
  Bool, true, false, ◌&&◌, List, [], ◌∷◌, ◌++◌, map, Str, codes, str_eq, if◌then◌else◌, Option,
  none, some,
}
use goen.Go.Result.{Result, ok, err, panic, message, ◌>>=◌}
use goen.Go.Value.{Value}
use goen.Go.Map.{Map, insert}
use goen.Structs.{StructField, fields_by_func, is_column_field}
use goen.Structs.{field_by_column}

-- A type that a row is scanned into, by its kind: a slice with the type of its elements, a map with
-- those of its keys and its elements; a struct type is known by its name.
pub data RowType : Type 0 where
  slice_row : Str → RowType
  map_row : Str → Str → RowType
  pointer_row : RowType → RowType
  struct_row : Str → RowType
  other_row : Str → RowType

-- *sql.ColumnType: its name, and the type that the dialect suggests for it.
pub record Column : Type 0 where
  pub name : Str
  pub scan_type : Option Str

-- What a pointer that is handed to `Scan` points to: an interface{}, with the type that it was
-- filled with, or a field.
pub data Variable : Type 0 where
  any_var : Option Str → Variable
  field_var : StructField → Variable

-- sqr.RowScanner: the values that end up in the variables.
abbrev pub RowScanner : Type 0
RowScanner = List Variable → Result (List Value)

-- What comes out of a row; a struct is known by the fields that were set, in order.
pub data Scanned : Type 0 where
  slice_value : List Value → Scanned
  map_value : Map Value → Scanned
  struct_value : Str → List (Str × Value) → Scanned
  pointer_value : Scanned → Scanned

-- `reflect.Value.CanAddr`: of these only the struct was made by reflect.New.
abbrev pub can_addr : Scanned → Bool
can_addr (struct_value s fs) = true
can_addr _ = false

-- `if res.CanAddr() { res = res.Addr() }`
unfoldable pub addressed : Scanned → Scanned
addressed res = if can_addr res then pointer_value res else res

-- `scanRowAsSlice`
unfoldable pub scan_row_as_slice : List Column → RowScanner → Result (List Value)
scan_row_as_slice cols rows = rows (map (λ c. any_var c.scan_type) cols)

-- The loop of `scanRowAsMap`.
unfoldable pub fill_map : List Column → List Value → Map Value → Map Value
fill_map (c ∷ cols) (v ∷ vals) dest = fill_map cols vals (insert c.name v dest)
fill_map [] vals dest = dest
fill_map (c ∷ cols) [] dest = dest

-- `scanRowAsMap`
unfoldable pub scan_row_as_map : List Column → RowScanner → Result (Map Value)
unfolding scan_row_as_slice fill_map
scan_row_as_map cols rows = do rvals ← scan_row_as_slice cols rows; ok (fill_map cols rvals [])

abbrev pub pair_up : List StructField → List Value → List (Str × Value)
pair_up (f ∷ fs) (v ∷ vs) = (f.name, v) ∷ pair_up fs vs
pair_up [] vs = []
pair_up (f ∷ fs) [] = []

-- Whether a scanned value may be an element of a slice of the type: `scanRowAsSlice` makes a
-- []interface{} and `scanRowAsMap` a map[string]interface{} whatever the type is, and `Addr` is taken
-- of a struct alone, so that a pointer to anything else is not what comes out.
abbrev pub assignable : RowType → Scanned → Bool
assignable (slice_row elem) (slice_value vals) = str_eq elem (codes "interface {}")
assignable (map_row key elem) (map_value m) =
    str_eq key (codes "string") && str_eq elem (codes "interface {}")
assignable (struct_row typ) (struct_value s fs) = str_eq typ s
assignable (pointer_row (struct_row typ)) (pointer_value (struct_value s fs)) = str_eq typ s
assignable _ _ = false

-- `reflect.Append` panics on a value of another type.
abbrev pub assigned : RowType → Scanned → Result Scanned
assigned typ v =
    if assignable typ v
    then ok v
    else panic (message "reflect.Set: value is not assignable to the type of the elements" [])

-- A column with no field makes it panic.
abbrev or_unknown : Column → Option StructField → Result StructField
or_unknown c none = panic (message "goen: unknown struct field for column " c.name)
or_unknown c (some f) = ok f

-- The argument of `Scan`: a pointer to a slice, with the type of its elements and what it holds;
-- something that is no pointer or a nil pointer, with the text of its type; or nil. A pointer to
-- anything but a slice is left out.
pub data Target : Type 0 where
  slice_pointer : RowType → List Scanned → Target
  refused_target : Str → Target
  nil_target : Target

-- *sql.Rows: what ColumnTypes answers, the rows that Next finds, and the error of Err behind them.
pub record SqlRows : Type 0 where
  pub column_types : Result (List Column)
  pub rows : List RowScanner
  pub final_error : Option Str

-- `field_by_name` is `FieldByName` of a value of the struct type: by the rules of Go for promoted
-- fields, so that a field of an embedded struct may be hidden by another one of its name, or be
-- ambiguous and not be found.
module _ (snake_case : Str → Str) (struct_fields : Str → List StructField)
    (field_by_name : Str → Str → Option StructField) where
  abbrev pub field_named : Str → Option StructField → Option StructField
  field_named typ none = none
  field_named typ (some f) = field_by_name typ f.name

  -- The loop of `scanRowAsStruct`: the field of each column.
  unfoldable pub fields_of_columns :
      Str → List StructField → List Column → Result (List StructField)
  fields_of_columns typ fs [] = ok []
  fields_of_columns typ fs (c ∷ cols) = do
    found ← field_by_column snake_case c.name fs
    f ← or_unknown c (field_named typ found)
    rest ← fields_of_columns typ fs cols
    ok (f ∷ rest)

  -- `scanRowAsStruct`; the embedded structs of the type are no pointers.
  unfoldable pub scan_row_as_struct : Str → List Column → RowScanner → Result (List (Str × Value))
  unfolding fields_of_columns
  scan_row_as_struct typ cols rows = do
    fs ← fields_of_columns typ (fields_by_func (struct_fields typ) is_column_field) cols
    vals ← rows (map (λ f. field_var f) fs)
    ok (pair_up fs vals)

  -- `scanRow`
  unfoldable pub scan_row : List Column → RowType → RowScanner → Result Scanned
  unfolding scan_row_as_slice scan_row_as_map scan_row_as_struct addressed
  scan_row cols (slice_row elem) rows =
      scan_row_as_slice cols rows >>= λ vals. ok (slice_value vals)
  scan_row cols (map_row key elem) rows = scan_row_as_map cols rows >>= λ m. ok (map_value m)
  scan_row cols (pointer_row t) rows = scan_row cols t rows >>= λ res. ok (addressed res)
  scan_row cols (struct_row typ) rows =
      scan_row_as_struct typ cols rows >>= λ fs. ok (struct_value typ fs)
  scan_row cols (other_row typ) rows = err (codes "goen: unsupported scan type " ++ typ)

  -- One round of the loop of `Scan`.
  abbrev pub scan_round : List Column → RowType → RowScanner → Result Scanned
  scan_round cols typ row = scan_row cols typ row >>= λ v. assigned typ v

  -- The loop of `Scan`.
  unfoldable pub scan_loop :
      List Column → RowType → List RowScanner → List Scanned → Result (List Scanned)
  unfolding scan_row
  scan_loop cols typ [] out = ok out
  scan_loop cols typ (row ∷ rows) out = do
    row_val ← scan_round cols typ row
    scan_loop cols typ rows (out ++ row_val ∷ [])

  -- `Scan` on a pointer to the slice `out` of element type `typ`: what the slice is set to.
  unfoldable pub scan : RowType → List Scanned → SqlRows → Result (List Scanned)
  unfolding scan_loop
  scan typ out rows = rows.column_types >>= λ cols. scan_loop cols typ rows.rows out

  -- `Scan` on whatever it is given.
  unfoldable pub scan_into : Target → SqlRows → Result (List Scanned)
  unfolding scan
  scan_into (slice_pointer typ out) rows = scan typ out rows
  scan_into (refused_target typ) rows =
      err (codes "goen: Scan only accepts pointer of slice, but got " ++ typ)
  scan_into nil_target rows = panic (message "reflect: call of reflect.Value.Type on zero Value" [])
