-- ===== src/Compiler/Bulk/Partition.antt =====
-- The groups of the bulk compiler partition the patches: in order, compatible, bounded and maximal.
use goen.Prelude.{
  ℕ, zero, suc, ◌+◌, ◌≤◌, Bool, true, false, ◌&&◌, List, [], ◌∷◌, ◌++◌, ℤ, pos, negsuc, length, ◌≡◌,
  refl, arith, All, ap, some, subst, Bool-cases, inl, inr,
}
use goen.Squirrel.{Squirrel}
use goen.Patch.{Patch, PatchKind}
use goen.Compiler.{CompilerOptions}
use goen.Compiler.Rounds.{map_result}
use goen.Compiler.Bulk.{bulk_compile, can_take_more_chunks, is_compat}
use goen.Compiler.Bulk.Loop.{run}
use goen.Compiler.Bulk.Groups.{
  Group, members, cut, groups, length-cut, cut-append, group_statement, bulk_compile-groups,
}

-- A statement merges at most MaxPatches patches, if that is positive.
abbrev pub WithinLimit : ℤ → ℕ → Type 0
WithinLimit (pos zero) k = Unit
WithinLimit (pos (suc n)) k = k ≤ suc n
WithinLimit (negsuc n) k = Unit

abbrev pub is_known : PatchKind → Bool
is_known (PatchKind.other n) = false
is_known _ = true

WithinLimit-one : (max : ℤ) → WithinLimit max 1
WithinLimit-one (pos zero) = tt
WithinLimit-one (pos (suc n)) = omega arith
WithinLimit-one (negsuc n) = tt

WithinLimit-suc : (max : ℤ) (k : ℕ) → can_take_more_chunks max k ≡ true → WithinLimit max (k + 1)
unfolding can_take_more_chunks
WithinLimit-suc (pos zero) k h = tt
WithinLimit-suc (pos (suc n)) k h = ground arith
WithinLimit-suc (negsuc n) k h = tt

and_left : (a b : Bool) → (a && b) ≡ true → a ≡ true
and_left a b h = ground arith

plus_shift : (k n : ℕ) → k + 1 + n ≡ k + suc n
plus_shift k n = omega arith

-- The patches of all groups, one after the other.
abbrev pub all_members : {q : Squirrel} → List (Group q) → List (Patch q)
all_members [] = []
all_members (g ∷ gs) = members g ++ all_members gs

one_plus : (n : ℕ) → 1 + n ≡ suc n
one_plus n = omega arith

module _ {q : Squirrel} (max_patches : ℤ) where
  pub record IsGroup (g : Group q) : Type 0 where
    pub compatible : All (λ p. is_compat g.first p ≡ true) g.more
    pub within : WithinLimit max_patches (length (members g))

  -- Whether the patch behind a group could have joined it.
  abbrev pub could_take : Group q → Patch q → Bool
  could_take g p =
      is_known g.first.kind
      && can_take_more_chunks max_patches (length (members g))
      && is_compat g.first p

  abbrev pub IsMaximal : List (Group q) → Type 0
  IsMaximal [] = Unit
  IsMaximal (g ∷ []) = Unit
  IsMaximal (g ∷ h ∷ gs) = (could_take g h.first ≡ false) × IsMaximal (h ∷ gs)

  run-compatible :
      (p : Patch q) (k : ℕ) (ps : List (Patch q))
      → All (λ x. is_compat p x ≡ true) (run max_patches p k ps).0
  unfolding run
  run-compatible p k [] = tt
  run-compatible p k (x ∷ xs) = ground (arith, run-compatible p (k + 1) xs)

  run-within :
      (p : Patch q) (k : ℕ) (ps : List (Patch q))
      → WithinLimit max_patches k
      → WithinLimit max_patches (k + length (run max_patches p k ps).0)
  unfolding run
  run-within p k [] w = subst (WithinLimit max_patches) (omega arith) w
  run-within p k (x ∷ xs) w =
      elim (Bool-cases (can_take_more_chunks max_patches k && is_compat p x)) [
        | inl more ↦ rw more (
            subst (WithinLimit max_patches) (plus_shift k _)
              (run-within p (k + 1) xs (WithinLimit-suc max_patches k (and_left _ _ more))))
        | inr stop ↦ rw stop (subst (WithinLimit max_patches) (omega arith) w)
      ]

  -- The first patch that is left could not have been taken.
  abbrev Stops : Patch q → ℕ → List (Patch q) → Type 0
  Stops p k [] = Unit
  Stops p k (x ∷ xs) = (can_take_more_chunks max_patches k && is_compat p x) ≡ false

  run-Stops :
      (p : Patch q) (k : ℕ) (ps : List (Patch q))
      → Stops p (k + length (run max_patches p k ps).0) (run max_patches p k ps).1
  unfolding run
  run-Stops p k [] = tt
  run-Stops p k (x ∷ xs) = elim (Bool-cases (can_take_more_chunks max_patches k && is_compat p x)) [
    | inl more ↦ rw more (
        subst (λ n. Stops p n (run max_patches p (k + 1) xs).1) (plus_shift k _)
          (run-Stops p (k + 1) xs))
    | inr stop ↦ rw stop (
        subst (λ n. (can_take_more_chunks max_patches n && is_compat p x) ≡ false) (omega arith)
          stop)
  ]

  cut-IsGroup :
      (k : PatchKind) (p : Patch q) (ps : List (Patch q))
      → IsGroup (record { first = p; more = (cut max_patches k p ps).0 })
  cut-IsGroup (PatchKind.other n) p ps = record {
    compatible = tt;
    within = WithinLimit-one max_patches;
  }
  cut-IsGroup _ p ps = record {
    compatible = run-compatible p 1 ps;
    within =
        subst (WithinLimit max_patches) (omega arith)
          (run-within p 1 ps (WithinLimit-one max_patches));
  }

  all_members-groups :
      (fuel : ℕ) (ps : List (Patch q))
      → length ps ≤ fuel
      → all_members (groups max_patches fuel ps) ≡ ps
  unfolding groups
  all_members-groups zero [] h = refl
  all_members-groups (suc fuel) [] h = refl
  all_members-groups zero (p ∷ ps) h = absurd (omega arith)
  all_members-groups (suc fuel) (p ∷ ps) h =
      rw
        (all_members-groups fuel (cut max_patches p.kind p ps).1
          (omega (arith, length-cut max_patches p.kind p ps)))
        (ap (λ l. p ∷ l) (cut-append max_patches p.kind p ps))

  groups-IsGroup : (fuel : ℕ) (ps : List (Patch q)) → All IsGroup (groups max_patches fuel ps)
  unfolding groups
  groups-IsGroup zero [] = tt
  groups-IsGroup (suc fuel) [] = tt
  groups-IsGroup zero (p ∷ ps) = tt
  groups-IsGroup (suc fuel) (p ∷ ps) =
      (cut-IsGroup p.kind p ps, groups-IsGroup fuel (cut max_patches p.kind p ps).1)

  -- `Stops` for the patches behind a group.
  abbrev StopsBehind : PatchKind → Patch q → ℕ → List (Patch q) → Type 0
  StopsBehind k p n [] = Unit
  StopsBehind k p n (x ∷ xs) =
      (is_known k && can_take_more_chunks max_patches n && is_compat p x) ≡ false

  StopsBehind-run :
      (k : PatchKind) (p : Patch q) (n : ℕ) (left : List (Patch q))
      → Stops p n left
      → StopsBehind k p n left
  StopsBehind-run k p n [] h = tt
  StopsBehind-run (PatchKind.other m) p n (x ∷ xs) h = refl
  StopsBehind-run _ p n (x ∷ xs) h = h

  StopsBehind-cut :
      (k : PatchKind) (p : Patch q) (ps : List (Patch q))
      → StopsBehind k p (suc (length (cut max_patches k p ps).0)) (cut max_patches k p ps).1
  StopsBehind-cut (PatchKind.other m) p [] = tt
  StopsBehind-cut (PatchKind.other m) p (x ∷ xs) = refl
  StopsBehind-cut k p ps =
      StopsBehind-run k p _ (run max_patches p 1 ps).1
        (subst (λ n. Stops p n (run max_patches p 1 ps).1) (one_plus _) (run-Stops p 1 ps))

  IsMaximal-cons :
      (fuel : ℕ) (g : Group q) (left : List (Patch q))
      → StopsBehind g.first.kind g.first (length (members g)) left
      → IsMaximal (groups max_patches fuel left)
      → IsMaximal (g ∷ groups max_patches fuel left)
  unfolding groups
  IsMaximal-cons zero g [] h m = tt
  IsMaximal-cons (suc fuel) g [] h m = tt
  IsMaximal-cons zero g (x ∷ xs) h m = tt
  IsMaximal-cons (suc fuel) g (x ∷ xs) h m = (h, m)

  groups-IsMaximal : (fuel : ℕ) (ps : List (Patch q)) → IsMaximal (groups max_patches fuel ps)
  unfolding groups
  groups-IsMaximal zero [] = tt
  groups-IsMaximal (suc fuel) [] = tt
  groups-IsMaximal zero (p ∷ ps) = tt
  groups-IsMaximal (suc fuel) (p ∷ ps) =
      let g : Group q = record { first = p; more = (cut max_patches p.kind p ps).0 } in
      IsMaximal-cons fuel g (cut max_patches p.kind p ps).1 (StopsBehind-cut p.kind p ps)
        (groups-IsMaximal fuel (cut max_patches p.kind p ps).1)

  pub groups_partition :
      (ps : List (Patch q))
      → (all_members (groups max_patches (length ps) ps) ≡ ps)
        × All IsGroup (groups max_patches (length ps) ps)
        × IsMaximal (groups max_patches (length ps) ps)
  groups_partition ps = (
    all_members-groups (length ps) ps (omega arith),
    groups-IsGroup (length ps) ps,
    groups-IsMaximal (length ps) ps,
  )

  -- The bulk compiler always returns, and its result is that of making one statement of each of some
  -- groups, in order, up to the first panic. The groups hold every patch once and in order; the
  -- members of a group are compatible with its first patch and, if MaxPatches is positive, no more
  -- than that; and no group could also have taken the first patch of the next one.
  pub bulk_compile-partition :
      (opts : CompilerOptions q)
      → (gs : List (Group q)) × (bulk_compile max_patches opts
          ≡ some (map_result (group_statement opts) gs))
        × (all_members gs ≡ opts.patches)
        × All IsGroup gs
        × IsMaximal gs
  bulk_compile-partition opts =
      let (same, valid, maximal) = groups_partition opts.patches in
      (
        groups max_patches (length opts.patches) opts.patches,
        bulk_compile-groups max_patches opts,
        same,
        valid,
        maximal,
      )
