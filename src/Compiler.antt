-- ===== src/Compiler.antt =====
-- compiler.go: options, the utilities over them, `DefaultCompiler` and `CompilerWithHook`. The bulk
-- compiler is the child `Bulk`. A SqlizerList is the list of its values, front to back.
pub mod Bulk
pub mod Rounds
pub mod Effect
use goen.Prelude.{
  List, [], ◌∷◌, ◌++◌, map, Str, length, ◌==◌, if◌then◌else◌, not, Option, none, some,
}
use goen.Go.Result.{Panic, Result, ok, panic, message, ◌>>=◌}
use goen.Go.Value.{Value}
use goen.Squirrel.{Squirrel}
use goen.Dialect.{Dialect}
use goen.RowKey.{RowKey}
use goen.Patch.{Patch, PatchKind}

-- `CompilerHook`; its methods are the caller's.
pub record Hook (q : Squirrel) : Type 0 where
  pub post_insert_builder : q.InsertBuilder → q.Sqlizer
  pub post_update_builder : q.UpdateBuilder → q.Sqlizer
  pub post_delete_builder : q.DeleteBuilder → q.Sqlizer

pub record CompilerOptions (q : Squirrel) : Type 0 where
  pub dialect : Option (Dialect q)
  pub patches : List (Patch q)
  pub hook : Option (Hook q)

module _ {q : Squirrel} (opts : CompilerOptions q) where
  unfoldable pub statement_builder : q.StatementBuilder
  statement_builder = elim opts.dialect [
    | none ↦ q.statement_builder
    | some d ↦ q.placeholder_format q.statement_builder d.placeholder_format
  ]

  unfoldable pub quote : Str → Str
  quote s = elim opts.dialect [ none ↦ s | some d ↦ d.quote s ]

  unfoldable pub quotes : List Str → List Str
  quotes l = map quote l

  -- `sqr.Eq{}` is always true.
  unfoldable pub row_key_to_sqlizer : Option (RowKey q) → q.Sqlizer
  row_key_to_sqlizer none = q.eq []
  row_key_to_sqlizer (some key) = elim opts.dialect [
    | none ↦ key.sqlizer
    | some d ↦ key.to_sqlizer_with_dialect d
  ]

  unfoldable pub post_insert_builder : q.InsertBuilder → q.Sqlizer
  post_insert_builder stmt = elim opts.hook [
    | none ↦ q.insert_sqlizer stmt
    | some h ↦ h.post_insert_builder stmt
  ]

  unfoldable pub post_update_builder : q.UpdateBuilder → q.Sqlizer
  post_update_builder stmt = elim opts.hook [
    | none ↦ q.update_sqlizer stmt
    | some h ↦ h.post_update_builder stmt
  ]

  unfoldable pub post_delete_builder : q.DeleteBuilder → q.Sqlizer
  post_delete_builder stmt = elim opts.hook [
    | none ↦ q.delete_sqlizer stmt
    | some h ↦ h.post_delete_builder stmt
  ]

  -- `stmtBuilder.Insert(table).Columns(columns...)`
  unfoldable pub insert_into : Patch q → q.InsertBuilder
  unfolding statement_builder quote quotes
  insert_into p = q.columns (q.insert statement_builder (quote p.table_name)) (quotes p.columns)

  -- `for i := range patch.Columns { stmt = stmt.Set(...) }`; the lengths have been compared before.
  unfoldable pub set_columns : List Str → List Value → q.UpdateBuilder → q.UpdateBuilder
  set_columns (c ∷ cs) (v ∷ vs) stmt = set_columns cs vs (q.set_column stmt (quote c) v)
  set_columns _ _ stmt = stmt

  unfoldable pub update_table : Patch q → q.UpdateBuilder
  unfolding statement_builder quote set_columns
  update_table p = set_columns p.columns p.values (q.update statement_builder (quote p.table_name))

  unfoldable pub delete_from : Patch q → q.DeleteBuilder
  unfolding statement_builder quote
  delete_from p = q.delete statement_builder (quote p.table_name)

abbrev pub mismatched : Panic
mismatched = message "goen: number of columns and values are mismatched" []

-- The text ends with the kind as a rune, which is left out.
abbrev pub unknown_kind : Panic
unknown_kind = message "goen: unable to make sql statement for unknown kind" []

module _ {q : Squirrel} (opts : CompilerOptions q) where
  -- The switch of `DefaultCompiler` on the kind.
  unfoldable pub default_statement : PatchKind → Patch q → Result q.Sqlizer
  default_statement PatchKind.insert p =
      ok (post_insert_builder opts (q.values (insert_into opts p) p.values))
  default_statement PatchKind.update p = ok (
      post_update_builder opts
        (q.update_where (update_table opts p) (row_key_to_sqlizer opts p.row_key)))
  default_statement PatchKind.delete p = ok (
      post_delete_builder opts
        (q.delete_where (delete_from opts p) (row_key_to_sqlizer opts p.row_key)))
  default_statement (PatchKind.other n) p = panic unknown_kind

  -- One round of the loop: the test on the lengths, and the switch.
  unfoldable pub default_round : Patch q → Result q.Sqlizer
  unfolding default_statement
  default_round p =
      if not (length p.columns == length p.values)
      then panic mismatched
      else default_statement p.kind p

  -- The loop over the patches; `sqlizers` is what it has pushed so far.
  unfoldable pub default_loop : List (Patch q) → List q.Sqlizer → Result (List q.Sqlizer)
  default_loop [] sqlizers = ok sqlizers
  default_loop (p ∷ ps) sqlizers = do s ← default_round p; default_loop ps (sqlizers ++ s ∷ [])

  unfoldable pub default_compile : Result (List q.Sqlizer)
  unfolding default_loop default_round
  default_compile = default_loop opts.patches []

-- `CompilerWithHook`: the given compiler runs with the hook put into its options.
unfoldable pub compiler_with_hook {ℓ} :
    {q : Squirrel} {A : Type ℓ} → (CompilerOptions q → A) → Hook q → CompilerOptions q → A
compiler_with_hook compile v opts = compile (record opts { hook = some v })
