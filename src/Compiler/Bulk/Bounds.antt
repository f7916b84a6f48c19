-- ===== src/Compiler/Bulk/Bounds.antt =====
-- How many statements the bulk compiler makes.
use mathlib.Core.Option.{some-injective}
use goen.Prelude.{
  ℕ, suc, ◌+◌, ◌*◌, ◌≤◌, List, [], ◌∷◌, pos, length, length-append, ◌≡◌, refl, sym, ap, subst, ◌∙◌,
  some, arith, All,
}
use goen.Go.Result.{Result, ok}
use goen.Go.Succeeding.{IfOk, IfOk-bind, IfOk-any, IfOk-ok}
use goen.Squirrel.{Squirrel}
use goen.Compiler.{CompilerOptions}
use goen.Compiler.Rounds.{map_result}
use goen.Compiler.Bulk.{bulk_compile}
use goen.Compiler.Bulk.Groups.{Group, members, group_statement}
use goen.Compiler.Bulk.Partition.{IsGroup, all_members, bulk_compile-partition}

length-map_result :
    {A : Type 0} {B : Type 0} (f : A → Result B) (l : List A)
    → IfOk (λ ys. length ys ≡ length l) (map_result f l)
unfolding map_result
length-map_result f [] = refl
length-map_result f (x ∷ l) =
    IfOk-bind _ _ (f x) _ (IfOk-any (f x))
      (λ y h. IfOk-bind _ _ (map_result f l) _ (length-map_result f l) (λ ys e. ap suc e))

times_suc : (a b : ℕ) → a * suc b ≡ a + a * b
times_suc a b = omega arith

module _ {q : Squirrel} where
  groups_within :
      (n : ℕ) (gs : List (Group q))
      → All (IsGroup (pos (suc n))) gs
      → (length gs ≤ length (all_members gs)) × (length (all_members gs) ≤ suc n * length gs)
  groups_within n [] h = (omega arith, omega arith)
  groups_within n (g ∷ gs) (h, hs) =
      let (low, high) = groups_within n gs hs in
      let size : length (all_members (g ∷ gs)) ≡ length (members g) + length (all_members gs) =
        length-append (members g) (all_members gs) in
      let limit : length (members g) ≤ suc n = h.within in
      (omega (arith, size, low), omega (arith, size, high, limit, times_suc (suc n) (length gs)))

  -- If MaxPatches is positive and the bulk compiler returns statements, they are no more than the
  -- patches, and there are at most MaxPatches times as many patches as statements.
  pub length-bulk_compile :
      (n : ℕ) (opts : CompilerOptions q) (stmts : List q.Sqlizer)
      → bulk_compile (pos (suc n)) opts ≡ some (ok stmts)
      → (length stmts ≤ length opts.patches) × (length opts.patches ≤ suc n * length stmts)
  length-bulk_compile n opts stmts e =
      let (gs, made, same, valid, maximal) = bulk_compile-partition (pos (suc n)) opts in
      let count : length stmts ≡ length gs =
        IfOk-ok (λ ys. length ys ≡ length gs) (map_result (group_statement opts) gs) stmts
          (length-map_result (group_statement opts) gs) (some-injective _ _ (sym made ∙ e)) in
      subst (λ ps. (length stmts ≤ length ps) × (length ps ≤ suc n * length stmts)) same
        (subst (λ k. (k ≤ length (all_members gs)) × (length (all_members gs) ≤ suc n * k))
          (sym count) (groups_within n gs valid))
