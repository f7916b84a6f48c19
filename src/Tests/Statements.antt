-- ===== src/Tests/Statements.antt =====
-- Runs of compiler.go, dialect/ and db_ctx.go, with squirrel and the database in memory.
use goen.Prelude.{
  str_eq, if◌then◌else◌, ℕ, ◌+◌, ◌*◌, ◌≤◌, length, Option, List, [], ◌∷◌, ◌++◌, Str, codes, pos,
  none, some, ◌≡◌, refl, All, map, true, false,
}
use goen.Go.Result.{Result, ok, err}
use goen.Go.Value.{Value}
use goen.Dialect.{Dialect}
use goen.Dialect.Postgres
use goen.Dialect.Sqlite3
use goen.Dialect.Quoting.{read_identifier, read_identifier-postgres, read_identifier-sqlite3}
use goen.RowKey.{RowKey}
use goen.Patch.{Patch, PatchKind, kind_eq}
use goen.Compiler.{CompilerOptions}
use goen.Compiler.Rounds.{map_result}
use goen.Compiler.Bulk.{bulk_compile, can_take_more_chunks, is_compat}
use goen.Compiler.Bulk.Groups.{Group, group_statement}
use goen.Compiler.Bulk.Bounds.{length-bulk_compile}
use goen.Compiler.Bulk.Partition.{all_members, IsGroup, IsMaximal, bulk_compile-partition}
use goen.Compiler.Effect.Default.{statement}
use goen.Compiler.Effect.Memory.{memory_squirrel}
use goen.DbContext.{db_runner, DbContext, Query, save_one, save_all}
use goen.DbContext.Saving.{save_all-err}

abbrev sqlite3 : Dialect memory_squirrel
sqlite3 = record { placeholder_format = 0; quote = Sqlite3.quote }

abbrev number : ℕ → Value
number n = Value.int (codes "int") (pos n)

abbrev key_of : ℕ → RowKey memory_squirrel
key_of n = record {
  table_name = codes "users";
  columns = codes "id" ∷ [];
  values = number n ∷ [];
  sqlizer = memory_squirrel.eq ((codes "id", number n) ∷ []);
  to_sqlizer_with_dialect = λ d. memory_squirrel.eq ((d.quote (codes "id"), number n) ∷ []);
}

abbrev inserted : ℕ → Patch memory_squirrel
inserted n = record {
  kind = PatchKind.insert;
  table_name = codes "users";
  row_key = none;
  columns = codes "id" ∷ [];
  values = number n ∷ [];
  nil_values = false;
}

abbrev deleted : ℕ → Patch memory_squirrel
deleted n = record {
  kind = PatchKind.delete;
  table_name = codes "users";
  row_key = some (key_of n);
  columns = [];
  values = [];
  nil_values = true;
}

abbrev five : List (Patch memory_squirrel)
five = inserted 1 ∷ inserted 2 ∷ deleted 1 ∷ deleted 7 ∷ inserted 3 ∷ []

abbrev options : CompilerOptions memory_squirrel
options = record { dialect = some sqlite3; patches = five; hook = none }

abbrev one_by_one : List memory_squirrel.Sqlizer
one_by_one = map (statement options) five

bulk_compile-partition_example :
    (gs : List (Group memory_squirrel)) × (bulk_compile (pos 2) options
      ≡ some (map_result (group_statement options) gs))
    × (all_members gs ≡ five)
    × All (IsGroup (pos 2)) gs
    × IsMaximal (pos 2) gs
bulk_compile-partition_example = bulk_compile-partition (pos 2) options

read_identifier-postgres_example :
    read_identifier b'"' (Postgres.quote (codes "a\"b") ++ codes " = 1")
    ≡ some (codes "a\"b", codes " = 1")
read_identifier-postgres_example = read_identifier-postgres (codes "a\"b") (codes " = 1") refl

read_identifier-sqlite3_example :
    read_identifier b'`' (Sqlite3.quote (codes "a`b") ++ codes " = 1")
    ≡ some (codes "a`b", codes " = 1")
read_identifier-sqlite3_example = read_identifier-sqlite3 (codes "a`b") (codes " = 1") refl

-- A runner that keeps a list of the queries it has seen, and that fails on the query `bad`.
abbrev run_query : Query → List Query → List Query × Result (Unit {0})
run_query query seen =
    if str_eq query.0 (codes "bad")
    then (seen, err (codes "syntax error"))
    else (seen ++ query ∷ [], ok tt)

abbrev query_text : Str → Result Query
query_text s = ok (s, [])

save_all-err_example :
    save_all query_text run_query (codes "a" ∷ codes "c" ∷ codes "bad" ∷ codes "d" ∷ []) []
    ≡ ((codes "a", []) ∷ (codes "c", []) ∷ [], err (codes "syntax error"))
unfolding save_one save_all str_eq
save_all-err_example =
    save_all-err query_text run_query (codes "a" ∷ codes "c" ∷ []) (codes "d" ∷ []) (codes "bad") []
      ((codes "a", []) ∷ (codes "c", []) ∷ []) ((codes "a", []) ∷ (codes "c", []) ∷ [])
      (codes "syntax error") refl refl

abbrev context : DbContext memory_squirrel
context = record {
  compiler = none;
  max_include_depth = pos 10;
  tx = none;
  runner = db_runner;
  dialect = sqlite3;
  patch_buffer = five;
}

-- Executing a statement of the database in memory counts the statements.
abbrev count_query : Query → ℕ → ℕ × Result (Unit {0})
count_query query n = (n + 1, ok tt)

abbrev any_query : memory_squirrel.Sqlizer → Result Query
any_query s = ok (codes "?", [])

abbrev returned : Option (Result (List memory_squirrel.Sqlizer)) → List memory_squirrel.Sqlizer
returned (some (ok stmts)) = stmts
returned _ = []

-- Two inserts, two deletes and one insert.
abbrev three : List memory_squirrel.Sqlizer
three = returned (bulk_compile (pos 2) options)

length-bulk_compile_example : (length three ≤ 5) × (5 ≤ 2 * length three)
unfolding bulk_compile can_take_more_chunks is_compat kind_eq str_eq
length-bulk_compile_example = length-bulk_compile 1 options three refl
