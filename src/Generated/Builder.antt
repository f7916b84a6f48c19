-- ===== src/Generated/Builder.antt =====
-- The query builder that the template writes for an entity: its methods return a copy of it.
use goen.Prelude.{ℕ, List, [], ◌∷◌, map, Str, codes, ℤ}
use goen.Go.Result.{Result, ok, err, panic, ◌>>=◌}
use goen.Squirrel.{Squirrel}
use goen.Structs.{ptr_to, struct_type}
use goen.Meta.{MetaTable, load_of}
use goen.Scan.{Scanned}
use goen.DbContext.{DbContext, Query}
use goen.Include.{Loader, Outcome, and_then, load_list, include}
use goen.Include.Slices.{Arrays, Slice, append, elements}
use goen.Generated.Objects.{Object, Heap, Records, allocate}
use goen.Generated.Rows.{Runtime, Session, select_rows, add_objects}

-- `includeLoaders` is a slice, whose array copies of the builder share.
pub record QueryBuilder {q : Squirrel} {W : Type 0} (run : Runtime q W) : Type 0 where
  pub dbc : DbContext q
  pub include_loaders : Slice
  pub builder : (run.builders).SelectBuilder

abbrev pub nil_slice : Slice
nil_slice = record { array = 0; len = 0; cap = 0 }

module _ {q : Squirrel} {W : Type 0} (run : Runtime q W) where
  -- `metaSchema.LoadOf(&T{})`
  unfoldable pub table_of : Str → Result MetaTable
  unfolding load_of
  table_of entity =
      load_of run.snake_case run.struct_fields
        (record { typ = ptr_to (struct_type entity); field_by_name = run.zero_field entity })
        run.schema

  abbrev pub quoted_columns : DbContext q → MetaTable → List Str
  quoted_columns dbc tbl = map (λ c. (dbc.dialect).quote c.column_name) tbl.columns

  -- `newBlogQueryBuilder`, `Select`
  unfoldable pub new_query_builder : Str → DbContext q → Result (QueryBuilder run)
  unfolding table_of
  new_query_builder entity dbc = do
    tbl ← table_of entity
    let b = run.builders
    let stmt = q.placeholder_format q.statement_builder (dbc.dialect).placeholder_format
    ok (record {
      dbc = dbc;
      include_loaders = nil_slice;
      builder = b.from (b.select stmt []) ((dbc.dialect).quote tbl.table_name);
    })

  -- `Include`, on the arrays behind the slices of loaders.
  unfoldable pub include_with :
      {L : Type 0}
      → (ℕ → ℕ → ℕ)
      → List L
      → QueryBuilder run
      → Arrays L
      → Arrays L × QueryBuilder run
  unfolding append
  include_with grow loaders qb m =
      let (m', list) = append grow loaders (m, qb.include_loaders) in
      (m', record qb { include_loaders = list })

  -- `Where` and `WhereRaw`
  unfoldable pub where_all : List q.Sqlizer → QueryBuilder run → QueryBuilder run
  where_all [] qb = qb
  where_all (cond ∷ conds) qb =
      where_all conds (record qb { builder = (run.builders).select_where qb.builder cond })

  -- `Offset`, `Limit`, `OrderBy`
  unfoldable pub offset : ℕ → QueryBuilder run → QueryBuilder run
  offset n qb = record qb { builder = (run.builders).offset qb.builder n }

  unfoldable pub limit : ℕ → QueryBuilder run → QueryBuilder run
  limit n qb = record qb { builder = (run.builders).limit qb.builder n }

  unfoldable pub order_by : List Str → QueryBuilder run → QueryBuilder run
  order_by exprs qb = record qb { builder = (run.builders).order_by qb.builder exprs }

  -- `CountContext`: `row` is QueryRowContext of the context with `Scan` into the count.
  unfoldable pub count : (Query → W → W × Result ℤ) → QueryBuilder run → W → W × Result ℤ
  count row qb w =
      elim (run.select_to_sql ((run.builders).columns qb.builder (codes "count(*)" ∷ []))) [
        | ok query ↦ row query w
        | err e ↦ (w, err e)
        | panic p ↦ (w, panic p)
      ]

  -- `ToSqlizer`
  unfoldable pub to_sqlizer : Str → List Str → QueryBuilder run → Result q.Sqlizer
  unfolding table_of
  to_sqlizer entity (col ∷ cols) qb =
      let b = run.builders in ok (b.select_sqlizer (b.columns qb.builder (col ∷ cols)))
  to_sqlizer entity [] qb = do
    tbl ← table_of entity
    let b = run.builders
    ok (b.select_sqlizer (b.columns qb.builder (quoted_columns qb.dbc tbl)))

  -- The structs and the state of the database.
  abbrev pub Store : Type 0
  Store = Heap × W

  abbrev pub store_of : Session W → Store
  store_of sn = (sn.heap, sn.world)

  -- Behind the including: the records, or its error.
  abbrev pub included : List Object → Outcome (Session W) → Store × Result (List Object)
  included objects (sn, ok x) = (store_of sn, ok objects)
  included objects (sn, err e) = (store_of sn, err e)
  included objects (sn, panic p) = (store_of sn, panic p)

  -- Behind the rows: a new scope cache with the records, then `IncludeContext`.
  abbrev pub include_records :
      Str
      → DbContext q
      → List (Loader (Session W) Records)
      → List Object × Heap
      → W
      → Store × Result (List Object)
  include_records entity dbc loaders (objects, heap) w = included objects (
      and_then (add_objects run.keys objects (record { cache = []; heap = heap; world = w })) λ sn.
        include (load_list loaders) dbc.max_include_depth
          (record { points_to = entity; objects = objects }) sn)

  abbrev pub query_rows :
      Str
      → DbContext q
      → List (Loader (Session W) Records)
      → Heap
      → W × Result (List Scanned)
      → Store × Result (List Object)
  query_rows entity dbc loaders heap (w, ok rows) =
      include_records entity dbc loaders (allocate run.zero_field rows heap) w
  query_rows entity dbc loaders heap (w, err e) = ((heap, w), err e)
  query_rows entity dbc loaders heap (w, panic p) = ((heap, w), panic p)

  abbrev pub query_table :
      Str
      → Result MetaTable
      → QueryBuilder run
      → List (Loader (Session W) Records)
      → Store
      → Store × Result (List Object)
  query_table entity (ok tbl) qb loaders (heap, w) =
      query_rows entity qb.dbc loaders heap
        (select_rows run entity ((run.builders).columns qb.builder (quoted_columns qb.dbc tbl)) w)
  query_table entity (err e) qb loaders s = (s, err e)
  query_table entity (panic p) qb loaders s = (s, panic p)

  -- `query`, `QueryContext`: the loaders are what the builder's slice holds when it is called.
  unfoldable pub query :
      Str
      → QueryBuilder run
      → Arrays (Loader (Session W) Records)
      → Store
      → Store × Result (List Object)
  unfolding table_of select_rows allocate add_objects load_list include
  query entity qb m s = query_table entity (table_of entity) qb (elements m qb.include_loaders) s

  abbrev pub first_record : Result (List Object) → Result Object
  first_record (ok []) = err (codes "sql: no rows in result set")
  first_record (ok (x ∷ xs)) = ok x
  first_record (err e) = err e
  first_record (panic p) = panic p

  -- `QueryRowContext`
  unfoldable pub query_row :
      Str → QueryBuilder run → Arrays (Loader (Session W) Records) → Store → Store × Result Object
  unfolding query limit
  query_row entity qb m s = let (s', r) = query entity (limit 1 qb) m s in (s', first_record r)
