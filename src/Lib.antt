-- ===== src/Lib.antt =====
-- goen: a model of the library of this repository, an object-relational mapper for Go.
--
-- An entity is a Go struct whose tags name its table and columns. The schema (meta.go) reads the
-- tags through internal/ and makes row keys, identity texts and patches of entities. A context
-- (db_ctx.go) buffers patches and has a compiler (compiler.go) turn them into the SQL statements that
-- it runs; it also loads related entities depth by depth into a scope cache (scope_cache.go).
--
-- Which file models which part, with paths from the repository's root:
--   Prelude       names shared by all modules; Prelude/Lists, Text, Int and Tests over native numbers
--   Go/Result     errors and panics as values, `safeDo` of utils.go
--   Go/Value      values of any type, `isEmptyValue` of meta.go, reflect.DeepEqual
--   Go/Map        Go maps as association lists in the order of a visit
--   Squirrel      the parameter for github.com/Masterminds/squirrel, and its SELECT builders
--   Dialect       dialect.go, dialect/; Dialect/Quoting reads quoted names back
--   RowKey        row_key.go; RowKey/Sorting on the order of columns, RowKey/Iteration on the loop
--                 that changes the map it ranges over, as a relation over Go's choices
--   Patch         patch.go
--   Compiler      compiler.go: options and DefaultCompiler; Compiler/Bulk is BulkCompiler,
--                 Compiler/Bulk/Groups and Partition say what it promises, Compiler/Effect compares
--                 the statements of the two compilers by what they do to a database
--   StructTag     internal/struct_tag.go
--   Structs       internal/structs.go over internal/structs_r.go; Structs/Field is what tags say of
--                 fields of either view, Structs/Run has functions that may panic or run out of fuel
--   Meta          meta.go: Register, Compute, LoadOf; Meta/Entities has the keys and patches of an
--                 entity, Meta/KeyString is KeyStringFromRowKey
--   ScopeCache    scope_cache.go; ScopeCache/View is the cache as it is meant, ScopeCache/Dump its text
--   Logger        logger.go
--   TxScope       tx_scope.go, by the calls on the transaction
--   QueryRunner   query_runner.go
--   Include       include_loader.go and IncludeContext of db_ctx.go
--   DbContext     db_ctx.go: NewDBContext, Patch, CompilePatch, SaveChanges, QuerySqlizer,
--                 UseTx
--   Scan          db_ctx.go: Scan and the scanning of one row
--   Asts          internal/asts: the syntax of types; Asts/Lookup finds packages (asts.go, parse.go),
--                 Asts/Cache is cacher.go
--   AstTypes      internal/structs_a.go: struct types and their fields; AstTypes/Shown and Kinds are
--                 Name, PkgPath, Kind, Elem and NewStruct, AstTypes/Strings is StringWithPkgName
--   Generator     generator/types.go and the columns of generator/generator.go; Generator/Relations
--                 is the rest of walkStruct, Generator/Packages has walkFile, walkPkg and ParseDir
--   Command       cmd/goen/main.go, cmd/goen/filter.go
--   Generated     the code that generator/templates write, as in example/goen.go: Generated/Objects are
--                 structs and pointers to them, Generated/Rows the steps from ToSql to Close,
--                 Generated/Relations the loaders of relations, Generated/Builder the query builders,
--                 Generated/Shared what copies of a builder share,
--                 Generated/Columns and Sets the columns and sets; Include/Slices has the arrays behind
--                 the lists of loaders
--   TypedList     utils_gen.go and the constructors of utils.go, over a parameter for container/list;
--                 TypedList/Walk is the loop over a list
--   Tests         the theorems at concrete inputs
--
-- A pointer to a struct that a query made is an address with the columns of the struct, which do not
-- change; the fields that loaders fill are in a heap.
--
-- State is passed explicitly. A method that holds a lock throughout is one step. A function that
-- returns an error or panics gives a `Result`. Where other parts use the lists of
-- utils_gen.go, these are lists of their values.
--
-- Fuel: the outer loop of the bulk compiler has as much as there are patches, since each round takes
-- one or more. `Fields` of internal/structs_r.go has fuel for the depth of embedding, since on a type
-- that embeds itself the program does not end. `Fields` and `Kind` of internal/structs_a.go have fuel
-- for embedding and for declarations, of which a program has finitely many if none is cyclic
-- (Generator/Termination). All other loops are structural.
--
-- Parameters: squirrel's builders; what SQL does with the statements, which may fail or be too
-- large (`Database`, which a database in memory meets); marshalers and fmt.Sprint; strcase.SnakeCase; the preparer behind a statement cache;
-- the loaders of the caller; ToSql, and the runner's ExecContext and QueryContext; the rows of
-- database/sql; FieldByName of package reflect; go/ast, go/build, go/parser and path/filepath (`GoTools`); package flag, and files,
-- templates and formatters of the command (`Host`); what generated code calls (`Runtime`), with the keys of an object as
-- the schema answers them, and the capacity that Go gives a grown slice.
--
-- Not modelled: a panic of the schema on a struct without the fields of a key, where the scope cache
-- asks for the key; Scan on a pointer to anything but a slice; ScanTypeOf of the dialects, and what the other parts write to a logger;
-- importAstPkg, which nothing calls; the program that writes utils_gen.go; what the command logs;
-- the text of the templates, whose output is modelled as the functions that it declares; the interfaces
-- that keep the expressions of one entity from being used for another; benchmarks.
mod Prelude
pub mod Go
pub mod Squirrel
pub mod Dialect
pub mod RowKey
pub mod Patch
pub mod Compiler
pub mod StructTag
pub mod Asts
pub mod AstTypes
pub mod Generator
pub mod Command
pub mod Structs
pub mod Meta
pub mod ScopeCache
pub mod TxScope
pub mod QueryRunner
pub mod Include
pub mod DbContext
pub mod Scan
pub mod Logger
pub mod Generated
pub mod TypedList
mod Tests
