-- ===== src/Include.antt =====
-- include_loader.go, and `IncludeContext` of db_ctx.go. The scope cache is the state `S`, which the
-- loaders of the caller change; the records that a loader is given are an `R`.
pub mod Levels
pub mod Slices
pub mod Invariants
use goen.Prelude.{ℕ, zero, suc, List, [], ◌∷◌, ◌++◌, Str, ℤ, pos, negsuc}
use goen.Go.Result.{Result, ok, err, panic, message}
use goen.Structs.{GoType, Kind, kind, slice}

-- The include buffer and the scope cache.
abbrev pub IncludeState : Type 0 → Type 0 → Type 0
IncludeState S R = List R × S

-- What a method with the result `error` does: the state behind it, and how it ends.
abbrev pub Outcome : Type 0 → Type 0
Outcome St = St × Result (Unit {0})

-- `IncludeLoader.Load`; the context is left out.
abbrev pub Loader : Type 0 → Type 0 → Type 0
Loader S R = R → IncludeState S R → Outcome (IncludeState S R)

-- `AddRecords`, on the kind of the type of its argument; the text of the panic ends with the type,
-- which is left out.
unfoldable pub add_records :
    {S R : Type 0} → Kind → R → IncludeState S R → Outcome (IncludeState S R)
add_records slice records (l, sc) = ((l ++ records ∷ [], sc), ok tt)
add_records k records s =
    (s, panic (message "goen: AddRecords only accepts a slice of entities, not " []))

-- Behind an error or a panic nothing is done.
abbrev pub and_then : {St : Type 0} → Outcome St → (St → Outcome St) → Outcome St
and_then (s, ok x) f = f s
and_then (s, err e) f = (s, err e)
and_then (s, panic p) f = (s, panic p)

-- `depth < dbc.MaxIncludeDepth` from 0 up
abbrev pub max_rounds : ℤ → ℕ
max_rounds (pos n) = n
max_rounds (negsuc n) = 0

module _ {S R : Type 0} where
  -- `IncludeLoaderList.Load`
  unfoldable pub load_list : List (Loader S R) → Loader S R
  load_list [] records s = (s, ok tt)
  load_list (loader ∷ list) records s = and_then (loader records s) λ s'. load_list list records s'

  -- The inner loop of `IncludeContext`: all records of one depth.
  unfoldable pub include_depth : Loader S R → List R → IncludeState S R → Outcome (IncludeState S R)
  include_depth loader [] s = (s, ok tt)
  include_depth loader (r ∷ records) s = and_then (loader r s) λ s'. include_depth loader records s'

  -- Behind the inner loop: the end if no records are left, else `go`, the rest of the outer loop.
  abbrev pub next_depth : (List R → S → Outcome S) → Outcome (IncludeState S R) → Outcome S
  next_depth go (([], sc), ok x) = (sc, ok tt)
  next_depth go ((r ∷ next, sc), ok x) = go (r ∷ next) sc
  next_depth go ((next, sc), err e) = (sc, err e)
  next_depth go ((next, sc), panic p) = (sc, panic p)

  -- The outer loop: the number is that of the rounds it may still make.
  unfoldable pub include_loop : Loader S R → ℕ → List R → S → Outcome S
  unfolding include_depth
  include_loop loader zero records sc = (sc, ok tt)
  include_loop loader (suc n) records sc =
      next_depth (λ next sc'. include_loop loader n next sc')
        (include_depth loader records ([], sc))

  -- `IncludeContext`
  unfoldable pub include : Loader S R → ℤ → R → S → Outcome S
  unfolding include_loop
  include loader max_include_depth v sc =
      include_loop loader (max_rounds max_include_depth) (v ∷ []) sc
