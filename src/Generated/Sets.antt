-- ===== src/Generated/Sets.antt =====
-- The set that the template writes for a table, and the context that generator/templates/context.tgo
-- writes for a package.
use goen.Prelude.{List, map, Str}
use goen.Go.Result.{Result, ok, ◌>>=◌}
use goen.Go.Map.{Map}
use goen.Squirrel.{Squirrel}
use goen.Dialect.{Dialect}
use goen.Patch.{Patch}
use goen.Meta.{Entity, MetaTable, load_of}
use goen.Meta.Entities.{insert_patch_of, update_patch_of, delete_patch_of}
use goen.DbContext.{DbContext, Source, patch, new_db_context, use_tx}
use goen.Generator.{Table, Package}
use goen.Generated.Columns.{ColumnExpr, new_columns}
use goen.Generated.Rows.{Runtime}

-- The set of a table, without its loaders, which are functions of the set.
pub record DbSet (q : Squirrel) : Type 0 where
  pub dbc : DbContext q
  pub table : Table
  pub columns : List ColumnExpr

module _ {q : Squirrel} where
  -- `newBlogDBSet`
  unfoldable pub new_db_set : DbContext q → Table → DbSet q
  unfolding new_columns
  new_db_set dbc tbl = record {
    dbc = dbc;
    table = tbl;
    columns = new_columns dbc.dialect tbl.columns;
  }

  -- `String`, `QuotedString`
  unfoldable pub set_string : DbSet q → Str
  set_string set = (set.table).table_name

  unfoldable pub quoted_string : DbSet q → Str
  quoted_string set = ((set.dbc).dialect).quote (set.table).table_name

  abbrev set_for : DbContext q → Table → Str × DbSet q
  set_for dbc tbl = (tbl.entity, new_db_set dbc tbl)

  -- `NewDBContext` of the package: a context and a set for each table.
  unfoldable pub new_package_context :
      Package → Map (Dialect q) → Str → Result (DbContext q × Map (DbSet q))
  unfolding new_db_context new_db_set
  new_package_context pkg dialects dialect_name = do
    dbc ← new_db_context dialects dialect_name
    ok (dbc, map (set_for dbc) pkg.tables)

  -- `UseTx` of the package: the sets are made again, over the copy.
  unfoldable pub package_use_tx :
      Package → Str → DbContext q → List Source → (DbContext q × Map (DbSet q)) × List Source
  unfolding use_tx new_db_set
  package_use_tx pkg tx dbc cachers =
      let (clone, cachers') = use_tx tx dbc cachers in
      ((clone, map (set_for clone) pkg.tables), cachers')

module _ {q : Squirrel} {W : Type 0} (run : Runtime q W) where
  abbrev patch_with : Result (Patch q) → DbContext q → Result (DbContext q)
  patch_with r dbc = do p ← r; ok (patch p dbc)

  abbrev loaded : Entity → Result MetaTable
  loaded v = load_of run.snake_case run.struct_fields v run.schema

  -- `Insert`, `Update`, `Delete` of a set, which the template leaves out for a table that is read
  -- only: the context behind them.
  unfoldable pub set_insert : Entity → DbContext q → Result (DbContext q)
  unfolding insert_patch_of patch load_of
  set_insert v dbc = do tbl ← loaded v; patch_with (ok (insert_patch_of run.as_row_key tbl v)) dbc

  unfoldable pub set_update : Entity → DbContext q → Result (DbContext q)
  unfolding update_patch_of patch load_of
  set_update v dbc = do tbl ← loaded v; patch_with (update_patch_of run.as_row_key tbl v) dbc

  unfoldable pub set_delete : Entity → DbContext q → Result (DbContext q)
  unfolding delete_patch_of patch load_of
  set_delete v dbc = do tbl ← loaded v; patch_with (delete_patch_of run.as_row_key tbl v) dbc
