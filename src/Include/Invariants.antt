-- ===== src/Include/Invariants.antt =====
-- What including keeps, if the loaders keep it.
use goen.Prelude.{ℕ, zero, suc, List, [], ◌∷◌, ℤ, All}
use goen.Go.Result.{Result, ok, err, panic}
use goen.Include.{
  IncludeState, Outcome, Loader, and_then, max_rounds, load_list, include_depth, next_depth,
  include_loop, include,
}

-- What holds of the state behind a step that ended without a panic.
abbrev pub Keeps {ℓ} : {St : Type 0} {A : Type ℓ} → (St → Type 0) → St × Result A → Type 0
Keeps P (s, ok x) = P s
Keeps P (s, err e) = P s
Keeps P (s, panic p) = Unit

abbrev pub HasReturned {ℓ} : {A : Type ℓ} → Result A → Type 0
HasReturned (ok x) = Unit
HasReturned (err e) = Unit
HasReturned (panic p) = ⊥

pub Keeps-state {ℓ} :
    {St : Type 0} {A : Type ℓ} (P : St → Type 0) (o : St × Result A)
    → Keeps P o
    → HasReturned o.1
    → P o.0
Keeps-state P (s, ok x) h r = h
Keeps-state P (s, err e) h r = h
Keeps-state P (s, panic p) h r = absurd r

pub and_then-Keeps :
    {St : Type 0} (P : St → Type 0) (o : Outcome St) (f : St → Outcome St)
    → Keeps P o
    → ((s : St) → P s → Keeps P (f s))
    → Keeps P (and_then o f)
and_then-Keeps P (s, ok x) f h k = k s h
and_then-Keeps P (s, err e) f h k = h
and_then-Keeps P (s, panic p) f h k = tt

module _ {S R : Type 0} (P : S → Type 0) where
  -- The property of the scope cache, whatever is in the include buffer.
  abbrev pub OfCache : IncludeState S R → Type 0
  OfCache (later, sc) = P sc

  abbrev pub IsKeeping : Loader S R → Type 0
  IsKeeping loader = (r : R) (s : IncludeState S R) → OfCache s → Keeps OfCache (loader r s)

  pub load_list-IsKeeping :
      (list : List (Loader S R)) → All IsKeeping list → IsKeeping (load_list list)
  unfolding load_list
  load_list-IsKeeping [] h r s p = p
  load_list-IsKeeping (loader ∷ list) h r s p =
      and_then-Keeps OfCache (loader r s) _ (h.0 r s p)
        λ s' p'. load_list-IsKeeping list h.1 r s' p'

  include_depth-Keeps :
      (loader : Loader S R) (rs : List R) (s : IncludeState S R)
      → IsKeeping loader
      → OfCache s
      → Keeps OfCache (include_depth loader rs s)
  unfolding include_depth
  include_depth-Keeps loader [] s h p = p
  include_depth-Keeps loader (r ∷ rs) s h p =
      and_then-Keeps OfCache (loader r s) _ (h r s p) λ s' p'. include_depth-Keeps loader rs s' h p'

  next_depth-Keeps :
      (go : List R → S → Outcome S) (o : Outcome (IncludeState S R))
      → Keeps OfCache o
      → ((rs : List R) (sc : S) → P sc → Keeps P (go rs sc))
      → Keeps P (next_depth go o)
  next_depth-Keeps go (([], sc), ok x) h k = h
  next_depth-Keeps go ((r ∷ next, sc), ok x) h k = k (r ∷ next) sc h
  next_depth-Keeps go ((next, sc), err e) h k = h
  next_depth-Keeps go ((next, sc), panic p) h k = tt

  include_loop-Keeps :
      (loader : Loader S R) (n : ℕ) (rs : List R) (sc : S)
      → IsKeeping loader
      → P sc
      → Keeps P (include_loop loader n rs sc)
  unfolding include_loop
  include_loop-Keeps loader zero rs sc h p = p
  include_loop-Keeps loader (suc n) rs sc h p =
      next_depth-Keeps _ (include_depth loader rs ([], sc))
        (include_depth-Keeps loader rs ([], sc) h p)
        λ next sc' p'. include_loop-Keeps loader n next sc' h p'

  pub include-Keeps :
      (loader : Loader S R) (depth : ℤ) (r : R) (sc : S)
      → IsKeeping loader
      → P sc
      → Keeps P (include loader depth r sc)
  unfolding include
  include-Keeps loader depth r sc h p = include_loop-Keeps loader (max_rounds depth) (r ∷ []) sc h p
