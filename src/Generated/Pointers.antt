-- ===== src/Generated/Pointers.antt =====
-- The types of the structs that a SELECT of generated code is scanned into.
use goen.Prelude.{
  ℕ, List, [], ◌∷◌, ◌++◌, Str, str_eq, str_eq_refl, ◌≡◌, refl, ap, All, All-append, Option, inl,
  inr, Bool-cases,
}
use goen.Go.Result.{Result, ok, err, panic, ◌>>=◌}
use goen.Go.Value.{Value}
use goen.Go.Succeeding.{IfOk, IfOk-bind, IfOk-any, IfOk-ok, IfOk-if}
use goen.Squirrel.{Squirrel}
use goen.Structs.{StructField}
use goen.Scan.{
  Column, RowScanner, SqlRows, Scanned, struct_value, pointer_value, pointer_row, struct_row,
  scan_row, scan_round, assignable, scan_row_as_struct, scan_loop, scan, addressed,
}
use goen.DbContext.{Query}
use goen.ScopeCache.{ObjectKeys}
use goen.Generated.Objects.{Heap, allocate, with_struct, entity_of}
use goen.Generated.Rows.{Runtime, close_behind, scan_rows, query_with, select_rows}
use goen.Generated.Kept.{occurrences, children_at}
use goen.Generated.Filled.{PointsTo}

-- A pointer to a struct of the type.
abbrev pub IsStructOf : Str → Scanned → Type 0
IsStructOf typ (pointer_value (struct_value s fs)) = s ≡ typ
IsStructOf typ _ = ⊥

addressed-IsStructOf :
    (typ : Str) (r : Result (List (Str × Value)))
    → IfOk (IsStructOf typ) ((r >>= λ fs. ok (struct_value typ fs)) >>= λ res. ok (addressed res))
unfolding addressed
addressed-IsStructOf typ (ok fs) = refl
addressed-IsStructOf typ (err e) = tt
addressed-IsStructOf typ (panic p) = tt

module _ (snake_case : Str → Str) (struct_fields : Str → List StructField)
    (field_by_name : Str → Str → Option StructField) where
  scan_row-IsStructOf :
      (cols : List Column) (typ : Str) (row : RowScanner)
      → IfOk
          (IsStructOf typ)
          (scan_row snake_case struct_fields field_by_name cols (pointer_row (struct_row typ)) row)
  unfolding scan_row addressed
  scan_row-IsStructOf cols typ row =
      addressed-IsStructOf typ
        (scan_row_as_struct snake_case struct_fields field_by_name typ cols row)

  scan_round-IsStructOf :
      (cols : List Column) (typ : Str) (row : RowScanner)
      → IfOk (IsStructOf typ) (
          scan_round snake_case struct_fields field_by_name cols (pointer_row (struct_row typ)) row)
  scan_round-IsStructOf cols typ row =
      IfOk-bind (IsStructOf typ) (IsStructOf typ)
        (scan_row snake_case struct_fields field_by_name cols (pointer_row (struct_row typ)) row) _
        (scan_row-IsStructOf cols typ row)
        λ v h. IfOk-if (IsStructOf typ) (assignable (pointer_row (struct_row typ)) v) (ok v) _ h tt

  scan_loop-IsStructOf :
      (cols : List Column) (typ : Str) (rows : List RowScanner) (out : List Scanned)
      → All (IsStructOf typ) out
      → IfOk (All (IsStructOf typ)) (
          scan_loop snake_case struct_fields field_by_name cols
            (pointer_row (struct_row typ))
            rows
            out)
  unfolding scan_loop
  scan_loop-IsStructOf cols typ [] out h = h
  scan_loop-IsStructOf cols typ (row ∷ rows) out h =
      IfOk-bind (IsStructOf typ) _
        (scan_round snake_case struct_fields field_by_name cols (pointer_row (struct_row typ)) row)
        _ (scan_round-IsStructOf cols typ row)
        λ s i.
          scan_loop-IsStructOf cols typ rows (out ++ s ∷ []) (All-append _ out (s ∷ []) h (i, tt))

  scan-IsStructOf :
      (typ : Str) (rows : SqlRows)
      → IfOk
          (All (IsStructOf typ))
          (scan snake_case struct_fields field_by_name (pointer_row (struct_row typ)) [] rows)
  unfolding scan
  scan-IsStructOf typ rows =
      IfOk-bind (λ cols. Unit {0}) _ rows.column_types _ (IfOk-any rows.column_types)
        λ cols h. scan_loop-IsStructOf cols typ rows.rows [] tt

module _ {q : Squirrel} {W : Type 0} (run : Runtime q W) where
  close_behind-IfOk :
      (P : List Scanned → Type 0) (rows : SqlRows) (w : W) (r : Result (List Scanned))
      → IfOk P r
      → IfOk P (close_behind run rows w r).1
  close_behind-IfOk P rows w (ok out) h = h
  close_behind-IfOk P rows w (err e) h = h
  close_behind-IfOk P rows w (panic p) h = h

  scan_rows-IsStructOf :
      (typ : Str) (r : W × Result SqlRows) → IfOk (All (IsStructOf typ)) (scan_rows run typ r).1
  scan_rows-IsStructOf typ (w, ok rows) =
      close_behind-IfOk (All (IsStructOf typ)) rows w _
        (scan-IsStructOf run.snake_case run.struct_fields run.field_by_name typ rows)
  scan_rows-IsStructOf typ (w, err e) = tt
  scan_rows-IsStructOf typ (w, panic p) = tt

  query_with-IsStructOf :
      (typ : Str) (r : Result Query) (w : W)
      → IfOk (All (IsStructOf typ)) (query_with run typ r w).1
  query_with-IsStructOf typ (ok query) w = scan_rows-IsStructOf typ (run.query_context query w)
  query_with-IsStructOf typ (err e) w = tt
  query_with-IsStructOf typ (panic p) w = tt

  -- If a SELECT of generated code gives rows for a slice of pointers to structs of a type, what is
  -- scanned are pointers to structs of this type, as the type assertions of the loaders need.
  pub select_rows-IsStructOf :
      (typ : Str) (builder : (run.builders).SelectBuilder) (w w' : W) (rows : List Scanned)
      → select_rows run typ builder w ≡ (w', ok rows)
      → All (IsStructOf typ) rows
  unfolding select_rows
  select_rows-IsStructOf typ builder w w' rows h =
      IfOk-ok (All (IsStructOf typ)) _ rows
        (query_with-IsStructOf typ (run.select_to_sql builder) w) (ap (λ r. r.1) h)

module _ (zero_field : Str → Str → Option Value) where
  entity_of-PointsTo :
      (typ : Str) (s : Scanned) (a : ℕ)
      → IsStructOf typ s
      → PointsTo typ (record { address = a; entity = entity_of zero_field s })
  entity_of-PointsTo typ (pointer_value (struct_value s fs)) a h = rw h (str_eq_refl typ)
  entity_of-PointsTo typ _ a h = absurd h

  pub allocate-PointsTo :
      (typ : Str) (rows : List Scanned) (h : Heap)
      → All (IsStructOf typ) rows
      → All (PointsTo typ) (allocate zero_field rows h).0
  unfolding allocate
  allocate-PointsTo typ [] h i = tt
  allocate-PointsTo typ (s ∷ rows) h i =
      (entity_of-PointsTo typ s h.next i.0, allocate-PointsTo typ rows (with_struct h) i.1)

All-occurrences :
    {A : Type 0} (P : A → Type 0) (v : A) (k : Str) (ks : List Str)
    → P v
    → All P (occurrences v k ks)
All-occurrences P v k [] h = tt
All-occurrences P v k (j ∷ ks) h = elim (Bool-cases (str_eq j k)) [
  | inl e ↦ rw e (h, All-occurrences P v k ks h)
  | inr e ↦ rw e (All-occurrences P v k ks h)
]

pub All-children_at :
    {A : Type 0} (P : A → Type 0) (keys : ObjectKeys A) (k : Str) (xs : List A)
    → All P xs
    → All P (children_at keys k xs)
All-children_at P keys k [] h = tt
All-children_at P keys k (x ∷ xs) h =
    All-append P (occurrences x k (keys.one_to_many_references x)) _
      (All-occurrences P x k (keys.one_to_many_references x) h.0) (All-children_at P keys k xs h.1)
