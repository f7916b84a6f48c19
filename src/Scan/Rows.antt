-- ===== src/Scan/Rows.antt =====
-- What `Scan` of db_ctx.go makes of the rows.
use goen.Prelude.{
  List, [], ◌∷◌, ◌++◌, map, Str, Option, none, some, ◌≡◌, refl, sym, ap, ◌∙◌, append-nil,
}
use goen.Go.Result.{Result, ok, err, panic, ◌>>=◌}
use goen.Go.Value.{Value}
use goen.Structs.{StructField, column_name}
use goen.Compiler.Rounds.{map_result, behind, behind-cons}
use goen.Scan.{
  RowType, Column, RowScanner, field_var, Scanned, SqlRows, scan_loop, scan, pair_up, scan_round,
  scan_into, slice_pointer,
}

-- What `scanRowAsStruct` gives: a value for one field of each column. The fields `fs` are those of
-- the columns, and `gs` those that are reached by their names.
pub record IsFilled (snake_case : Str → Str) (field_by_name : Str → Str → Option StructField)
    (typ : Str) (cols : List Column) (rows : RowScanner) (pairs : List (Str × Value)) : Type 0 where
  pub fs : List StructField
  pub gs : List StructField
  pub vals : List Value
  pub named : map_result (column_name snake_case) fs ≡ ok (map (λ c. c.name) cols)
  pub reached : map (λ f. field_by_name typ f.name) fs ≡ map some gs
  pub scanned : rows (map (λ f. field_var f) gs) ≡ ok vals
  pub paired : pairs ≡ pair_up gs vals

module _ (snake_case : Str → Str) (struct_fields : Str → List StructField)
    (field_by_name : Str → Str → Option StructField) where
  scan_loop-behind :
      (cols : List Column) (typ : RowType) (rows : List RowScanner) (out : List Scanned)
      → scan_loop snake_case struct_fields field_by_name cols typ rows out
        ≡ behind out (map_result (scan_round snake_case struct_fields field_by_name cols typ) rows)
  unfolding scan_loop map_result behind
  scan_loop-behind cols typ [] out = ap ok (sym (append-nil out))
  scan_loop-behind cols typ (row ∷ rows) out =
      go (scan_round snake_case struct_fields field_by_name cols typ row)
        λ s. scan_loop-behind cols typ rows (out ++ s ∷ [])
    where
      go :
          (r : Result Scanned)
          → ((s : Scanned)
              → scan_loop snake_case struct_fields field_by_name cols typ rows (out ++ s ∷ [])
                ≡ behind
                    (out ++ s ∷ [])
                    (map_result (scan_round snake_case struct_fields field_by_name cols typ) rows))
          → (r >>= λ s.
              scan_loop snake_case struct_fields field_by_name cols typ rows (out ++ s ∷ []))
            ≡ behind out (
                r >>= λ y.
                map_result (scan_round snake_case struct_fields field_by_name cols typ) rows
                >>= λ ys. ok (y ∷ ys))
      go (ok s) ih =
          ih s
          ∙ behind-cons out s
              (map_result (scan_round snake_case struct_fields field_by_name cols typ) rows)
      go (err e) ih = refl
      go (panic m) ih = refl

  -- `Scan` puts behind what the slice held what each row is scanned into, in the order of the rows,
  -- or ends as the first row that fails does: with its error, or with a panic, as on a value that is
  -- not assignable to the elements' type. An error that ends the rows early is not looked at.
  pub scan-map_result :
      (typ : RowType) (out : List Scanned) (cols : List Column) (rows : SqlRows)
      → rows.column_types ≡ ok cols
      → scan_into snake_case struct_fields field_by_name (slice_pointer typ out) rows
        ≡ behind out
            (map_result (scan_round snake_case struct_fields field_by_name cols typ) rows.rows)
  unfolding scan_into scan
  scan-map_result typ out cols rows h = rw h (scan_loop-behind cols typ rows.rows out)

  -- The column of a field that was found.
  abbrev HasColumn : Str → Option StructField → Type 0
  HasColumn name none = Unit
  HasColumn name (some f) = column_name snake_case f ≡ ok name

  -- The field `f` has the column, and `g` is reached by its name.
  abbrev IsReached : Str → Str → StructField → StructField → Type 0
  IsReached typ name f g =
      (column_name snake_case f ≡ ok name) × (field_by_name typ f.name ≡ some g)

  -- The fields that are reached for the columns.
  abbrev HasColumns : Str → List Column → List StructField → Type 0
  HasColumns typ cols gs =
      (fs : List StructField) × (map_result (column_name snake_case) fs
        ≡ ok (map (λ c. c.name) cols))
      × (map (λ f. field_by_name typ f.name) fs ≡ map some gs)
