-- ===== src/Compiler/Bulk.antt =====
-- compiler.go: `BulkCompilerOptions`, which merges runs of compatible patches into one statement.
mod Loop
pub mod Groups
pub mod Partition
pub mod Bounds
use goen.Prelude.{
  ℕ, zero, suc, ◌+◌, Bool, true, false, ◌&&◌, not, List, [], ◌∷◌, ◌++◌, Str, ℤ, pos, negsuc, str_eq,
  length, ◌==◌, ltb, if◌then◌else◌, Option, none, some,
}
use goen.Go.Result.{Result, ok, panic, ◌>>=◌}
use goen.Go.Value.{Value, bool_eq, deep_equal_all}
use goen.Squirrel.{Squirrel}
use goen.Patch.{Patch, PatchKind, kind_eq}
use goen.Compiler.{
  CompilerOptions, row_key_to_sqlizer, post_insert_builder, post_update_builder,
  post_delete_builder, insert_into, update_table, delete_from, mismatched, default_compile,
}

-- `MaxPatches` is an int; at 0 or below it sets no limit.
unfoldable pub can_take_more_chunks : ℤ → ℕ → Bool
can_take_more_chunks (pos zero) chunks = true
can_take_more_chunks (pos (suc n)) chunks = ltb chunks (suc n)
can_take_more_chunks (negsuc n) chunks = true

-- The comparison of the columns, one by one.
unfoldable pub columns_eq : List Str → List Str → Bool
columns_eq [] [] = true
columns_eq (c ∷ cs) (d ∷ ds) = str_eq c d && columns_eq cs ds
columns_eq _ _ = false

module _ {q : Squirrel} where
  -- The second switch of `isCompat`: an update also compares the values.
  abbrev compat_values : PatchKind → Patch q → Patch q → Bool
  compat_values PatchKind.update p1 p2 =
      bool_eq p1.nil_values p2.nil_values && deep_equal_all p1.values p2.values
  compat_values _ p1 p2 = true

  unfoldable pub is_compat : Patch q → Patch q → Bool
  unfolding columns_eq bool_eq
  is_compat p1 p2 =
      kind_eq p1.kind p2.kind
      && str_eq p1.table_name p2.table_name
      && length p1.columns == length p2.columns
      && columns_eq p1.columns p2.columns
      && compat_values p1.kind p1 p2

module _ {q : Squirrel} (max_patches : ℤ) where
  -- The inner loop, which is the same for the three kinds: `add` is its body, `s` what the body
  -- changes, and `rest` the patches behind `curr`. The result has the patches that it left.
  unfoldable pub take_chunk {ℓ} :
      {S : Type ℓ} → Patch q → (S → Patch q → S) → ℕ → S → List (Patch q) → S × List (Patch q)
  take_chunk p add chunks s [] = (s, [])
  take_chunk p add chunks s (next ∷ rest) =
      let more = take_chunk p add (chunks + 1) (add s next) rest in
      if can_take_more_chunks max_patches chunks && is_compat p next then more else (s, next ∷ rest)

  module _ (opts : CompilerOptions q) where
    abbrev add_values : q.InsertBuilder → Patch q → q.InsertBuilder
    add_values stmt next = q.values stmt next.values

    abbrev add_condition : List q.Sqlizer → Patch q → List q.Sqlizer
    add_condition cond next = cond ++ row_key_to_sqlizer opts next.row_key ∷ []

    -- The switch of one round of the outer loop: the statements that it pushes and the patches left.
    unfoldable pub bulk_statement :
        PatchKind → Patch q → List (Patch q) → Result (List q.Sqlizer × List (Patch q))
    unfolding take_chunk
    bulk_statement PatchKind.insert p rest =
        let (stmt, left) =
          take_chunk p add_values 1 (q.values (insert_into opts p) p.values) rest in
        ok (post_insert_builder opts stmt ∷ [], left)
    bulk_statement PatchKind.delete p rest =
        let (cond, left) =
          take_chunk p add_condition 1 (row_key_to_sqlizer opts p.row_key ∷ []) rest in
        ok (
          post_delete_builder opts (q.delete_where (delete_from opts p) (q.or_any cond)) ∷ [],
          left,
        )
    bulk_statement PatchKind.update p rest =
        let (cond, left) =
          take_chunk p add_condition 1 (row_key_to_sqlizer opts p.row_key ∷ []) rest in
        ok (
          post_update_builder opts (q.update_where (update_table opts p) (q.or_any cond)) ∷ [],
          left,
        )
    bulk_statement (PatchKind.other n) p rest = do
      pushed ← default_compile (record opts { patches = p ∷ [] })
      ok (pushed, rest)

    unfoldable pub bulk_round : Patch q → List (Patch q) → Result (List q.Sqlizer × List (Patch q))
    unfolding bulk_statement
    bulk_round p rest =
        if not (length p.columns == length p.values)
        then panic mismatched
        else bulk_statement p.kind p rest

    -- The outer loop on fuel; `none` means that the fuel ran out.
    unfoldable pub bulk_loop :
        ℕ → List (Patch q) → List q.Sqlizer → Option (Result (List q.Sqlizer))
    bulk_loop fuel [] sqlizers = some (ok sqlizers)
    bulk_loop zero (p ∷ ps) sqlizers = none
    bulk_loop (suc fuel) (p ∷ ps) sqlizers = elim (bulk_round p ps) [
      | ok (pushed, left) ↦ bulk_loop fuel left (sqlizers ++ pushed)
      | Result.err e ↦ some (Result.err e)
      | panic m ↦ some (panic m)
    ]

    -- Each round takes at least one patch.
    unfoldable pub bulk_compile : Option (Result (List q.Sqlizer))
    unfolding bulk_loop bulk_round
    bulk_compile = bulk_loop (length opts.patches) opts.patches []
