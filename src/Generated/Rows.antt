-- ===== src/Generated/Rows.antt =====
-- The steps that `query` and the loaders of the generated code share: ToSql, QueryContext, Scan and
-- Close, and the scope cache that gets what was scanned.
use goen.Prelude.{List, [], ◌∷◌, Str, Option}
use goen.Go.Result.{Result, ok, err, panic}
use goen.Go.Value.{Value}
use goen.Go.Map.{Map}
use goen.Squirrel.{Squirrel}
use goen.Squirrel.Select.{SelectBuilders}
use goen.Structs.{StructField}
use goen.RowKey.{MapRowKey, RowKey}
use goen.Meta.{MetaSchema}
use goen.Meta.KeyString.{Marshal}
use goen.DbContext.{Query}
use goen.Scan.{pointer_row, struct_row, SqlRows, Scanned, scan}
use goen.ScopeCache.{ObjectKeys, Cached, add_object}
use goen.Include.{Outcome, and_then}
use goen.Generated.Objects.{Object, Heap}

-- What generated code calls. `W` is the state of the database and of the rows that are open.
pub record Runtime (q : Squirrel) (W : Type 0) : Type 1 where
  pub builders : SelectBuilders q
  -- `ToSql` of the builder
  pub select_to_sql : builders.SelectBuilder → Result Query
  -- `QueryContext` of the context, `rows.Close()`
  pub query_context : Query → W → W × Result SqlRows
  pub close_rows : SqlRows → W → W
  -- what Scan and reflect.New ask of the types
  pub snake_case : Str → Str
  pub struct_fields : Str → List StructField
  pub field_by_name : Str → Str → Option StructField
  pub zero_field : Str → Str → Option Value
  pub schema : MetaSchema
  -- what the schema and the scope cache ask of an object and of a row key
  pub keys : ObjectKeys Object
  pub marshal : Marshal
  pub as_row_key : MapRowKey → RowKey q

-- The scope cache, the structs, and the state of the database.
pub record Session (W : Type 0) : Type 0 where
  pub cache : Map (Cached Object)
  pub heap : Heap
  pub world : W

module _ {q : Squirrel} {W : Type 0} (run : Runtime q W) where
  -- `rows.Close()` is called behind a scan that ended well and behind one with an error, and not
  -- when the scan panics.
  abbrev pub close_behind : SqlRows → W → Result (List Scanned) → W × Result (List Scanned)
  close_behind rows w (ok out) = (run.close_rows rows w, ok out)
  close_behind rows w (err e) = (run.close_rows rows w, err e)
  close_behind rows w (panic p) = (w, panic p)

  abbrev pub scan_rows : Str → W × Result SqlRows → W × Result (List Scanned)
  scan_rows typ (w, ok rows) = close_behind rows w (
      scan run.snake_case run.struct_fields run.field_by_name (pointer_row (struct_row typ)) []
        rows)
  scan_rows typ (w, err e) = (w, err e)
  scan_rows typ (w, panic p) = (w, panic p)

  abbrev pub query_with : Str → Result Query → W → W × Result (List Scanned)
  query_with typ (ok query) w = scan_rows typ (run.query_context query w)
  query_with typ (err e) w = (w, err e)
  query_with typ (panic p) w = (w, panic p)

  -- From `ToSql` to `rows.Close()`: the rows of a SELECT, as pointers to structs of the type.
  unfoldable pub select_rows : Str → (run.builders).SelectBuilder → W → W × Result (List Scanned)
  unfolding scan
  select_rows typ builder w = query_with typ (run.select_to_sql builder) w

abbrev pub with_cache :
    {W : Type 0} → Result (Map (Cached Object)) → Session W → Outcome (Session W)
with_cache (ok m) sn = (record sn { cache = m }, ok tt)
with_cache (err e) sn = (sn, err e)
with_cache (panic p) sn = (sn, panic p)

-- `for _, entity := range … { sc.AddObject(entity) }`
unfoldable pub add_objects :
    {W : Type 0} → ObjectKeys Object → List Object → Session W → Outcome (Session W)
unfolding add_object
add_objects keys [] sn = (sn, ok tt)
add_objects keys (x ∷ xs) sn =
    and_then (with_cache (add_object keys x sn.cache) sn) λ sn'. add_objects keys xs sn'
