-- ===== src/Tests/Loading/Queries.antt =====
-- Runs of queries that include relations.
use goen.Prelude.{
  arith, ℕ, ℕ, suc, sym, ap, subst, List, [], ◌∷◌, Str, str_eq, codes, pos, none, ◌≡◌, refl, arith,
}
use goen.Go.Result.{Result, ok, err, panic}
use goen.Go.Map.{lookup, insert}
use goen.StructTag.{first_lookup, first_not_empty, column_spec_name, string_at, split}
use goen.Structs.{
  is_column_field, is_ignored_field, is_foreign_key_field, column_name, eq_column_name,
  field_by_column, strip_ptr,
}
use goen.Compiler.Effect.Memory.{memory_squirrel}
use goen.Scan.{SqlRows, scan, scan_loop, scan_row, scan_row_as_struct, fields_of_columns, addressed}
use goen.DbContext.{DbContext, db_runner}
use goen.Include.{Loader}
use goen.Include.Slices.{Arrays}
use goen.Generated.Objects.{Object, Records, allocate, entity_of}
use goen.Generated.Rows.{Session, select_rows}
use goen.Generated.Relations.{identity, related_row_key, related_select, include_many}
use goen.Generated.Builder.{QueryBuilder, query, table_of, include_with}
use goen.Generated.Closing.{Counts, include_many-IsKeeping}
use goen.Generated.Closing.Queries.{query_closes}
use goen.Include.Slices.{Arrays, Slice, elements}
use goen.Generated.Shared.{include_with-include_with}
use goen.Meta.{load_of}
use goen.Meta.KeyString.{key_string_of, value_string}
use goen.Tests.Loading.{dialect, in_memory, opened_by, rows_in, posts_of_blog, scanned, empty_heap}

abbrev blogs : List Object
blogs =
    (allocate in_memory.zero_field
      (scanned (codes "Blog") (codes "1") ∷ (scanned (codes "Blog") (codes "2") ∷ [])) empty_heap).0

abbrev posts : List Object
posts =
    (allocate in_memory.zero_field
      (scanned (codes "Post") (codes "2") ∷ (scanned (codes "Post") (codes "1") ∷ []))
      (record empty_heap { next = 2 })).0

abbrev loader : Loader (Session ℕ) Records
loader = include_many in_memory posts_of_blog (codes "Blog") dialect

abbrev context : DbContext memory_squirrel
context = record {
  compiler = none;
  max_include_depth = pos 10;
  tx = none;
  runner = db_runner;
  dialect = dialect;
  patch_buffer = [];
}

abbrev builder : QueryBuilder in_memory
builder = record {
  dbc = context;
  include_loaders = record { array = 1; len = 1; cap = 1 };
  builder = codes "blogs";
}

abbrev arrays : Arrays (Loader (Session ℕ) Records)
arrays = record { next = 2; contents = λ a. loader ∷ [] }

abbrev first_blog : Object
first_blog = record {
  address = 0;
  entity = entity_of in_memory.zero_field (scanned (codes "Blog") (codes "1"));
}

abbrev HasRows : Result SqlRows → Type 0
HasRows (ok x) = Unit
HasRows (err e) = ⊥
HasRows (panic p) = ⊥

opened-ok :
    (r : Result SqlRows) (w w' : ℕ) (rows : SqlRows) → opened_by r w ≡ (w', ok rows) → w' ≡ suc w
opened-ok (ok x) w w' rows e = sym (ap (λ p. p.0) e)
opened-ok (err x) w w' rows e = absurd (subst (λ p. HasRows p.1) (sym e) tt)
opened-ok (panic x) w w' rows e = absurd (subst (λ p. HasRows p.1) (sym e) tt)

opened-err : (r : Result SqlRows) (w w' : ℕ) (m : Str) → opened_by r w ≡ (w', err m) → w' ≡ w
opened-err (ok x) w w' m e = absurd (subst (λ p. HasRows p.1) e tt)
opened-err (err x) w w' m e = sym (ap (λ p. p.0) e)
opened-err (panic x) w w' m e = sym (ap (λ p. p.0) e)

in_memory-Counts : Counts in_memory (λ n. n)
in_memory-Counts = record {
  opens = λ x w w' rows e. opened-ok (rows_in x.0) w w' rows e;
  fails = λ x w w' m e. opened-err (rows_in x.0) w w' m e;
  closes = λ rows w n e. omega (arith, e);
}

query_closes_example : (query in_memory (codes "Blog") builder arrays (empty_heap, 5)).0.1 ≡ 5
unfolding select_rows scan scan_loop scan_row scan_row_as_struct fields_of_columns addressed
    field_by_column is_column_field is_ignored_field is_foreign_key_field eq_column_name column_name
    first_lookup first_not_empty column_spec_name string_at split str_eq lookup allocate table_of
    load_of related_row_key related_select strip_ptr identity key_string_of value_string insert
    query include_many
query_closes_example =
    query_closes in_memory (λ n. n) (codes "Blog") builder arrays (empty_heap, 5) in_memory-Counts
      (
        include_many-IsKeeping in_memory (λ n. n) 5 posts_of_blog (codes "Blog") dialect
            in_memory-Counts,
        tt,
      )
      tt

-- A list of loaders, known by numbers, in an array with room for two more.
abbrev one_loader : Slice
one_loader = record { array = 0; len = 1; cap = 3 }

abbrev one_array : Arrays ℕ
one_array = record { next = 1; contents = λ a. 7 ∷ [] }

-- A builder with that list.
abbrev with_one : QueryBuilder in_memory
with_one = record builder { include_loaders = one_loader }

include_with-include_with_example :
    let (m', first) = include_with in_memory (λ c n. n) (8 ∷ []) with_one one_array in
    let (m'', second) = include_with in_memory (λ c n. n) (9 ∷ []) with_one m' in
    elements m'' first.include_loaders ≡ 7 ∷ 9 ∷ []
include_with-include_with_example =
    include_with-include_with in_memory (λ c n. n) (8 ∷ []) (9 ∷ []) with_one one_array
      (record { made = omega arith; written = omega arith }) (omega arith) refl
