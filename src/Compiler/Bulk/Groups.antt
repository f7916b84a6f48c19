-- ===== src/Compiler/Bulk/Groups.antt =====
-- What the bulk compiler promises: it cuts the patches into groups and makes one statement of each.
use mathlib.Core.List.{foldl}
use goen.Prelude.{
  ℕ, zero, suc, ◌≤◌, true, not, List, [], ◌∷◌, ◌++◌, map, ℤ, length, ◌==◌, if◌then◌else◌, ◌≡◌, refl,
  arith, Bool-cases, Option, some, inl, inr, append-nil, append_assoc, ap, ◌∙◌, sym,
}
use goen.Go.Result.{Result, ok, err, panic, ◌>>=◌}
use goen.Squirrel.{Squirrel}
use goen.Patch.{Patch, PatchKind}
use goen.Compiler.{
  CompilerOptions, row_key_to_sqlizer, post_insert_builder, post_update_builder,
  post_delete_builder, insert_into, update_table, delete_from, mismatched, unknown_kind,
  default_compile, default_loop, default_round, default_statement,
}
use goen.Compiler.Rounds.{map_result, behind, behind-cons, behind-nil}
use goen.Compiler.Bulk.{bulk_statement, bulk_round, bulk_loop, bulk_compile}
use goen.Compiler.Bulk.Loop.{run, take_chunk-run, run-append, length-run_left}

-- A patch and the patches that are merged into its statement.
pub record Group (q : Squirrel) : Type 0 where
  pub first : Patch q
  pub more : List (Patch q)

module _ {q : Squirrel} where
  abbrev pub members : Group q → List (Patch q)
  members g = g.first ∷ g.more

module _ {q : Squirrel} (max_patches : ℤ) where
  -- The cut behind one patch. A patch of an unknown kind is never merged.
  abbrev pub cut : PatchKind → Patch q → List (Patch q) → List (Patch q) × List (Patch q)
  cut (PatchKind.other n) p ps = ([], ps)
  cut _ p ps = run max_patches p 1 ps

  unfoldable pub groups : ℕ → List (Patch q) → List (Group q)
  groups fuel [] = []
  groups zero (p ∷ ps) = []
  groups (suc fuel) (p ∷ ps) =
      let (taken, left) = cut p.kind p ps in record { first = p; more = taken } ∷ groups fuel left

module _ {q : Squirrel} (opts : CompilerOptions q) where
  abbrev pub conditions : Group q → List q.Sqlizer
  conditions g = map (λ p. row_key_to_sqlizer opts p.row_key) (members g)

  -- The one statement of a group: all rows in one INSERT, or one condition that any of the keys
  -- meets.
  abbrev pub merged_statement : PatchKind → Group q → Result q.Sqlizer
  merged_statement PatchKind.insert g = ok (
      post_insert_builder opts
        (foldl (λ b p. q.values b p.values) (insert_into opts g.first) (members g)))
  merged_statement PatchKind.delete g = ok (
      post_delete_builder opts
        (q.delete_where (delete_from opts g.first) (q.or_any (conditions g))))
  merged_statement PatchKind.update g = ok (
      post_update_builder opts
        (q.update_where (update_table opts g.first) (q.or_any (conditions g))))
  merged_statement (PatchKind.other n) g = panic unknown_kind

  unfoldable pub group_statement : Group q → Result q.Sqlizer
  group_statement g =
      if not (length g.first.columns == length g.first.values)
      then panic mismatched
      else merged_statement g.first.kind g

module _ {q : Squirrel} (max_patches : ℤ) where
  pub length-cut :
      (k : PatchKind) (p : Patch q) (ps : List (Patch q))
      → length (cut max_patches k p ps).1 ≤ length ps
  length-cut PatchKind.insert p ps = length-run_left max_patches p 1 ps
  length-cut PatchKind.update p ps = length-run_left max_patches p 1 ps
  length-cut PatchKind.delete p ps = length-run_left max_patches p 1 ps
  length-cut (PatchKind.other n) p ps = omega arith

  pub cut-append :
      (k : PatchKind) (p : Patch q) (ps : List (Patch q))
      → (cut max_patches k p ps).0 ++ (cut max_patches k p ps).1 ≡ ps
  cut-append PatchKind.insert p ps = run-append max_patches p 1 ps
  cut-append PatchKind.update p ps = run-append max_patches p 1 ps
  cut-append PatchKind.delete p ps = run-append max_patches p 1 ps
  cut-append (PatchKind.other n) p ps = refl

module _ {q : Squirrel} (max_patches : ℤ) (opts : CompilerOptions q) where
  foldl-conditions :
      (cs : List q.Sqlizer) (ps : List (Patch q))
      → foldl (λ cond next. cond ++ row_key_to_sqlizer opts next.row_key ∷ []) cs ps
        ≡ cs ++ map (λ p. row_key_to_sqlizer opts p.row_key) ps
  foldl-conditions cs [] = sym (append-nil cs)
  foldl-conditions cs (p ∷ ps) =
      foldl-conditions (cs ++ row_key_to_sqlizer opts p.row_key ∷ []) ps ∙ append_assoc cs _ _

  -- One round pushes the statement of the group that it takes.
  bulk_statement-merged :
      (k : PatchKind) (p : Patch q) (ps : List (Patch q))
      → p.kind ≡ k
      → (length p.columns == length p.values) ≡ true
      → bulk_statement max_patches opts k p ps ≡ (
          merged_statement opts k (record { first = p; more = (cut max_patches k p ps).0 }) >>= λ s.
          ok (s ∷ [], (cut max_patches k p ps).1))
  unfolding bulk_statement
  bulk_statement-merged PatchKind.insert p ps e h = rw take_chunk-run
  bulk_statement-merged PatchKind.update p ps e h = rw (take_chunk-run, foldl-conditions)
  bulk_statement-merged PatchKind.delete p ps e h = rw (take_chunk-run, foldl-conditions)
  bulk_statement-merged (PatchKind.other n) p ps e h =
      unfold default_compile default_loop default_round default_statement in rw (h, e)

  abbrev group_at : Patch q → List (Patch q) → Group q
  group_at p ps = record { first = p; more = (cut max_patches p.kind p ps).0 }

  bulk_round-group :
      (p : Patch q) (ps : List (Patch q))
      → bulk_round max_patches opts p ps ≡ (
          group_statement opts (group_at p ps) >>= λ s.
          ok (s ∷ [], (cut max_patches p.kind p ps).1))
  unfolding bulk_round group_statement
  bulk_round-group p ps = elim (Bool-cases (length p.columns == length p.values)) [
    | inl h ↦ rw h (bulk_statement-merged p.kind p ps refl h)
    | inr h ↦ rw h
  ]

  -- What the outer loop does with the result of a round.
  abbrev proceed :
      ℕ
      → List q.Sqlizer
      → Result (List q.Sqlizer × List (Patch q))
      → Option (Result (List q.Sqlizer))
  proceed fuel out r = elim r [
    | ok (pushed, left) ↦ bulk_loop max_patches opts fuel left (out ++ pushed)
    | err e ↦ some (err e)
    | panic m ↦ some (panic m)
  ]

  module _ (fuel : ℕ) (out : List q.Sqlizer) (left : List (Patch q))
      (rest : Result (List q.Sqlizer)) where
    proceed-behind :
        (r : Result q.Sqlizer)
        → ((s : q.Sqlizer)
            → bulk_loop max_patches opts fuel left (out ++ s ∷ [])
              ≡ some (behind (out ++ s ∷ []) rest))
        → proceed fuel out (r >>= λ s. ok (s ∷ [], left))
          ≡ some (behind out (r >>= λ y. rest >>= λ ys. ok (y ∷ ys)))
    proceed-behind (ok s) ih = ih s ∙ ap some (behind-cons out s rest)
    proceed-behind (err e) ih = unfold behind in refl
    proceed-behind (panic m) ih = unfold behind in refl

  bulk_loop-groups :
      (fuel : ℕ) (ps : List (Patch q)) (out : List q.Sqlizer)
      → length ps ≤ fuel
      → bulk_loop max_patches opts fuel ps out
        ≡ some (behind out (map_result (group_statement opts) (groups max_patches fuel ps)))
  unfolding bulk_loop groups map_result
  bulk_loop-groups zero [] out h = unfold behind in ap (λ l. some (ok l)) (sym (append-nil out))
  bulk_loop-groups (suc fuel) [] out h =
      unfold behind in ap (λ l. some (ok l)) (sym (append-nil out))
  bulk_loop-groups zero (p ∷ ps) out h = absurd (omega arith)
  bulk_loop-groups (suc fuel) (p ∷ ps) out h =
      ap (proceed fuel out) (bulk_round-group p ps)
      ∙ proceed-behind fuel out _ _ (group_statement opts (group_at p ps)) λ s.
        bulk_loop-groups fuel (cut max_patches p.kind p ps).1 (out ++ s ∷ [])
          (omega (arith, length-cut max_patches p.kind p ps))

  -- The bulk compiler always returns, and its result is that of making one statement of each group
  -- in order, stopping at the first panic.
  pub bulk_compile-groups :
      bulk_compile max_patches opts
      ≡ some (
          map_result (group_statement opts) (groups max_patches (length opts.patches) opts.patches))
  unfolding bulk_compile
  bulk_compile-groups =
      bulk_loop-groups (length opts.patches) opts.patches [] (omega arith) ∙ ap some (behind-nil _)
