-- ===== src/Generated/Closing/Queries.antt =====
-- The rows that a query of the generated code opens and closes.
use goen.Prelude.{ℕ, List, [], Str, ◌≡◌, refl, All}
use goen.Go.Result.{Result, ok, err, panic}
use goen.Squirrel.{Squirrel}
use goen.Meta.{MetaTable}
use goen.Scan.{Scanned}
use goen.DbContext.{DbContext}
use goen.Include.{Loader, Outcome, and_then, load_list, include}
use goen.Include.Slices.{Arrays, elements}
use goen.Include.Invariants.{
  Keeps, Keeps-state, HasReturned, and_then-Keeps, IsKeeping, load_list-IsKeeping, include-Keeps,
}
use goen.Generated.Objects.{Object, Heap, Records, allocate}
use goen.Generated.Rows.{Runtime, Session, add_objects}
use goen.Generated.Builder.{QueryBuilder, table_of, included, query_rows, query_table, query}
use goen.Generated.Closing.{Counts, Open, IsOpen, add_objects-Keeps, select_rows-Keeps}

module _ {q : Squirrel} {W : Type 0} (run : Runtime q W) (opened : W → ℕ) (n : ℕ) where
  abbrev InStore : Heap × W → Type 0
  InStore s = opened s.1 ≡ n

  abbrev Closing : Loader (Session W) Records → Type 0
  Closing = IsKeeping (IsOpen run opened n)

  included-Keeps :
      (objects : List Object) (o : Outcome (Session W))
      → Keeps (IsOpen run opened n) o
      → Keeps InStore (included run objects o)
  included-Keeps objects (sn, ok x) h = h
  included-Keeps objects (sn, err e) h = h
  included-Keeps objects (sn, panic p) h = tt

  query_rows-Keeps :
      (entity : Str) (dbc : DbContext q) (loaders : List (Loader (Session W) Records)) (heap : Heap)
      (o : W × Result (List Scanned))
      → All Closing loaders
      → Keeps (Open run opened n) o
      → Keeps InStore (query_rows run entity dbc loaders heap o)
  query_rows-Keeps entity dbc loaders heap (w, ok rows) hl h =
      let (objects, heap') = allocate run.zero_field rows heap in
      let sn : Session W = record { cache = []; heap = heap'; world = w } in
      let rest : Session W → Outcome (Session W) = λ sn'.
        include (load_list loaders) dbc.max_include_depth
          (record { points_to = entity; objects = objects }) sn' in
      included-Keeps objects (and_then (add_objects run.keys objects sn) rest) (
        and_then-Keeps (IsOpen run opened n) (add_objects run.keys objects sn) rest
          (add_objects-Keeps run opened n run.keys objects sn h)
          λ sn' h'.
            include-Keeps (IsOpen run opened n) (load_list loaders) dbc.max_include_depth _ sn'
              (load_list-IsKeeping (IsOpen run opened n) loaders hl) h')
  query_rows-Keeps entity dbc loaders heap (w, err e) hl h = h
  query_rows-Keeps entity dbc loaders heap (w, panic p) hl h = tt

  query_table-Keeps :
      (entity : Str) (tbl : Result MetaTable) (qb : QueryBuilder run)
      (loaders : List (Loader (Session W) Records)) (s : Heap × W)
      → Counts run opened
      → All Closing loaders
      → InStore s
      → Keeps InStore (query_table run entity tbl qb loaders s)
  query_table-Keeps entity (ok tbl) qb loaders (heap, w) c hl h =
      query_rows-Keeps entity qb.dbc loaders heap _ hl
        (select_rows-Keeps run opened n entity _ w c h)
  query_table-Keeps entity (err e) qb loaders s c hl h = h
  query_table-Keeps entity (panic p) qb loaders s c hl h = tt

  query-Keeps :
      (entity : Str) (qb : QueryBuilder run) (m : Arrays (Loader (Session W) Records))
      (s : Heap × W)
      → Counts run opened
      → All Closing (elements m qb.include_loaders)
      → InStore s
      → Keeps InStore (query run entity qb m s)
  unfolding query
  query-Keeps entity qb m s c hl h =
      query_table-Keeps entity (table_of run entity) qb (elements m qb.include_loaders) s c hl h

module _ {q : Squirrel} {W : Type 0} (run : Runtime q W) (opened : W → ℕ) where
  -- A query that returns, with records or with an error, leaves as many rows open as there were, if
  -- its loaders do, as those of the relations do.
  pub query_closes :
      (entity : Str) (qb : QueryBuilder run) (m : Arrays (Loader (Session W) Records))
      (s : Heap × W)
      → Counts run opened
      → All (IsKeeping (IsOpen run opened (opened s.1))) (elements m qb.include_loaders)
      → HasReturned (query run entity qb m s).1
      → opened (query run entity qb m s).0.1 ≡ opened s.1
  query_closes entity qb m s c hl r =
      Keeps-state (InStore run opened (opened s.1)) (query run entity qb m s)
        (query-Keeps run opened (opened s.1) entity qb m s c hl refl) r
