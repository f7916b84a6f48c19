-- ===== src/Compiler/Effect/Default.antt =====
-- The default compiler on patches that it accepts, and the facts that `isCompat` gives.
use goen.Prelude.{
  true, List, [], ◌∷◌, map, Str, length, ==_iff, ◌≡◌, refl, arith, All, none, str_eq_iff,
  int_eq_iff,
}
use goen.Go.Result.{ok}
use goen.Squirrel.{Squirrel}
use goen.Patch.{Patch, PatchKind, kind_eq}
use goen.Compiler.{
  CompilerOptions, row_key_to_sqlizer, post_insert_builder, post_update_builder,
  post_delete_builder, insert_into, update_table, delete_from, default_statement, default_round,
  default_compile,
}
use goen.Compiler.Rounds.{map_result, default_compile-map_result}
use goen.Go.Value.{deep_equal_all}
use goen.Compiler.Bulk.{is_compat, columns_eq}
use goen.Compiler.Bulk.Partition.{is_known}

module _ {q : Squirrel} where
  -- A patch that the default compiler turns into a statement.
  pub record IsSound (p : Patch q) : Type 0 where
    pub known : is_known p.kind ≡ true
    pub paired : length p.columns ≡ length p.values

module _ {q : Squirrel} (opts : CompilerOptions q) where
  -- The statement that the default compiler makes of a patch of a known kind.
  unfoldable pub statement_of : PatchKind → Patch q → q.Sqlizer
  statement_of PatchKind.insert p = q.insert_sqlizer (q.values (insert_into opts p) p.values)
  statement_of PatchKind.update p =
      q.update_sqlizer (q.update_where (update_table opts p) (row_key_to_sqlizer opts p.row_key))
  statement_of PatchKind.delete p =
      q.delete_sqlizer (q.delete_where (delete_from opts p) (row_key_to_sqlizer opts p.row_key))
  statement_of (PatchKind.other n) p = q.eq []

  abbrev pub statement : Patch q → q.Sqlizer
  statement p = statement_of p.kind p

  module _ (no_hook : opts.hook ≡ none) where
    pub post_insert_lem : (b : q.InsertBuilder) → post_insert_builder opts b ≡ q.insert_sqlizer b
    unfolding post_insert_builder
    post_insert_lem b = rw no_hook

    pub post_update_lem : (b : q.UpdateBuilder) → post_update_builder opts b ≡ q.update_sqlizer b
    unfolding post_update_builder
    post_update_lem b = rw no_hook

    pub post_delete_lem : (b : q.DeleteBuilder) → post_delete_builder opts b ≡ q.delete_sqlizer b
    unfolding post_delete_builder
    post_delete_lem b = rw no_hook

    default_statement_lem :
        (k : PatchKind) (p : Patch q)
        → is_known k ≡ true
        → default_statement opts k p ≡ ok (statement_of k p)
    unfolding default_statement statement_of
    default_statement_lem PatchKind.insert p h = rw post_insert_lem
    default_statement_lem PatchKind.update p h = rw post_update_lem
    default_statement_lem PatchKind.delete p h = rw post_delete_lem
    default_statement_lem (PatchKind.other n) p h = cc

    default_round_lem : (p : Patch q) → IsSound p → default_round opts p ≡ ok (statement p)
    unfolding default_round
    default_round_lem p h = rw ((==_iff _ _).1 h.paired) (default_statement_lem p.kind p h.known)

    default_rounds_lem :
        (ps : List (Patch q))
        → All IsSound ps
        → map_result (default_round opts) ps ≡ ok (map statement ps)
    unfolding map_result
    default_rounds_lem [] h = refl
    default_rounds_lem (p ∷ ps) h = rw (default_round_lem p h.0, default_rounds_lem ps h.1)

    pub default_compile_lem :
        All IsSound opts.patches → default_compile opts ≡ ok (map statement opts.patches)
    default_compile_lem h = rw default_compile-map_result (default_rounds_lem opts.patches h)

kind_eq_sound : (k l : PatchKind) → kind_eq k l ≡ true → k ≡ l
unfolding kind_eq
kind_eq_sound (PatchKind.other m) (PatchKind.other n) h = ground (arith, int_eq_iff m n)
kind_eq_sound k l h = ground arith

columns_eq_sound : (cs ds : List Str) → columns_eq cs ds ≡ true → cs ≡ ds
unfolding columns_eq
columns_eq_sound [] [] h = refl
columns_eq_sound (c ∷ cs) (d ∷ ds) h = ground (arith, str_eq_iff c d, columns_eq_sound cs ds)
columns_eq_sound _ _ h = cc

-- Compatible patches have one kind, one table and the same columns.
pub is_compat_sound :
    {q : Squirrel} (p r : Patch q)
    → is_compat p r ≡ true
    → (r.kind ≡ p.kind) × (r.table_name ≡ p.table_name) × (r.columns ≡ p.columns)
unfolding is_compat
is_compat_sound p r h = ground (
  arith,
  kind_eq_sound p.kind r.kind,
  str_eq_iff p.table_name r.table_name,
  columns_eq_sound p.columns r.columns,
)

-- Compatible updates set values that `reflect.DeepEqual` takes for equal.
pub is_compat_values :
    {q : Squirrel} (p r : Patch q)
    → is_compat p r ≡ true
    → p.kind ≡ PatchKind.update
    → deep_equal_all p.values r.values ≡ true
unfolding is_compat
is_compat_values p r h e = ground arith
