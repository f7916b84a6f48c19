-- ===== src/Compiler/Rounds.antt =====
-- The loop of `DefaultCompiler` as one statement for each patch.
use goen.Prelude.{List, [], ◌∷◌, ◌++◌, ◌≡◌, refl, ◌∙◌, append-nil, append_assoc, sym, ap}
use goen.Go.Result.{Result, ok, err, panic, ◌>>=◌}
use goen.Squirrel.{Squirrel}
use goen.Patch.{Patch}
use goen.Compiler.{CompilerOptions, default_round, default_loop, default_compile}

-- The results of a function on each element, or the first error or panic.
unfoldable pub map_result {ℓ κ} :
    {A : Type ℓ} {B : Type κ} → (A → Result B) → List A → Result (List B)
map_result f [] = ok []
map_result f (x ∷ xs) = do y ← f x; ys ← map_result f xs; ok (y ∷ ys)

-- What stands in front of a result.
unfoldable pub behind {ℓ} : {B : Type ℓ} → List B → Result (List B) → Result (List B)
behind out r = r >>= λ ys. ok (out ++ ys)

pub behind-cons {ℓ} :
    {B : Type ℓ} (out : List B) (y : B) (r : Result (List B))
    → behind (out ++ y ∷ []) r ≡ behind out (r >>= λ ys. ok (y ∷ ys))
unfolding behind
behind-cons out y (ok ys) = ap ok (append_assoc out (y ∷ []) ys)
behind-cons out y (err e) = refl
behind-cons out y (panic m) = refl

pub behind-nil {ℓ} : {B : Type ℓ} (r : Result (List B)) → behind [] r ≡ r
unfolding behind
behind-nil (ok ys) = refl
behind-nil (err e) = refl
behind-nil (panic m) = refl

module _ {q : Squirrel} (opts : CompilerOptions q) where
  default_loop-behind :
      (ps : List (Patch q)) (out : List q.Sqlizer)
      → default_loop opts ps out ≡ behind out (map_result (default_round opts) ps)
  unfolding default_loop map_result behind
  default_loop-behind [] out = ap ok (sym (append-nil out))
  default_loop-behind (p ∷ ps) out =
      go (default_round opts p) (λ s. default_loop-behind ps (out ++ s ∷ []))
    where
      go :
          (r : Result q.Sqlizer)
          → ((s : q.Sqlizer)
              → default_loop opts ps (out ++ s ∷ [])
                ≡ behind (out ++ s ∷ []) (map_result (default_round opts) ps))
          → (r >>= λ s. default_loop opts ps (out ++ s ∷ []))
            ≡ behind out (r >>= λ y. map_result (default_round opts) ps >>= λ ys. ok (y ∷ ys))
      go (ok s) ih = ih s ∙ behind-cons out s (map_result (default_round opts) ps)
      go (err e) ih = refl
      go (panic m) ih = refl

  -- The default compiler makes the statement of each patch, in the order of the patches, and stops
  -- at the first panic.
  pub default_compile-map_result :
      default_compile opts ≡ map_result (default_round opts) opts.patches
  unfolding default_compile
  default_compile-map_result = default_loop-behind opts.patches [] ∙ behind-nil _
