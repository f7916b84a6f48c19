-- ===== src/Compiler/Bulk/Loop.antt =====
-- The inner loop of the bulk compiler as a split of the patches behind the first one.
use mathlib.Core.List.{foldl}
use goen.Prelude.{
  ℕ, ◌+◌, ◌≤◌, ◌&&◌, List, [], ◌∷◌, ◌++◌, ℤ, length, if◌then◌else◌, ◌≡◌, refl, arith, Bool-cases,
  inl, inr,
}
use goen.Squirrel.{Squirrel}
use goen.Patch.{Patch}
use goen.Compiler.Bulk.{can_take_more_chunks, is_compat, take_chunk}

module _ {q : Squirrel} (max_patches : ℤ) (p : Patch q) where
  -- The patches that join `p`, and those that are left, with `chunks` patches taken so far.
  unfoldable pub run : ℕ → List (Patch q) → List (Patch q) × List (Patch q)
  run chunks [] = ([], [])
  run chunks (next ∷ rest) =
      let (taken, left) = run (chunks + 1) rest in
      if can_take_more_chunks max_patches chunks && is_compat p next
      then (next ∷ taken, left)
      else ([], next ∷ rest)

  pub take_chunk-run {ℓ} :
      {S : Type ℓ} (add : S → Patch q → S) (chunks : ℕ) (s : S) (ps : List (Patch q))
      → take_chunk max_patches p add chunks s ps
        ≡ (foldl add s (run chunks ps).0, (run chunks ps).1)
  unfolding take_chunk run
  take_chunk-run add chunks s [] = refl
  take_chunk-run add chunks s (next ∷ rest) =
      elim (Bool-cases (can_take_more_chunks max_patches chunks && is_compat p next)) [
        | inl more ↦ rw more (take_chunk-run add (chunks + 1) (add s next) rest)
        | inr stop ↦ rw stop
      ]

  pub run-append : (chunks : ℕ) (ps : List (Patch q)) → (run chunks ps).0 ++ (run chunks ps).1 ≡ ps
  unfolding run
  run-append chunks [] = refl
  run-append chunks (next ∷ rest) = ground (arith, run-append (chunks + 1) rest)

  pub length-run_left : (chunks : ℕ) (ps : List (Patch q)) → length (run chunks ps).1 ≤ length ps
  unfolding run
  length-run_left chunks [] = omega arith
  length-run_left chunks (next ∷ rest) = ground (arith, length-run_left (chunks + 1) rest)
