-- ===== src/Include/Levels.antt =====
-- Which records `IncludeContext` of db_ctx.go loads, and in which order.
use goen.Prelude.{
  ℕ, zero, suc, List, [], ◌∷◌, ◌++◌, pos, ◌≡◌, refl, ap, ◌∙◌, sym, append_assoc, append-nil,
}
use goen.Go.Result.{ok, err, panic}
use goen.Include.{
  Loader, IncludeState, Outcome, and_then, load_list, include_depth, include_loop, include,
  next_depth,
}

module _ {S R : Type 0} where
  -- The records of a buffer in front of those that a loader left.
  abbrev pub in_front : List R → Outcome (IncludeState S R) → Outcome (IncludeState S R)
  in_front buffer ((later, sc), x) = ((buffer ++ later, sc), x)

  -- A loader that only adds behind what the buffer has: AddRecords is all that *IncludeBuffer offers.
  abbrev pub Appends : Loader S R → Type 0
  Appends loader =
      (r : R) (buffer : List R) (sc : S)
      → loader r (buffer, sc) ≡ in_front buffer (loader r ([], sc))

  abbrev pub then_visit :
      Outcome (IncludeState S R) → (S → Outcome (IncludeState S R)) → Outcome (IncludeState S R)
  then_visit ((later, sc), ok x) f = in_front later (f sc)
  then_visit ((later, sc), err e) f = ((later, sc), err e)
  then_visit ((later, sc), panic p) f = ((later, sc), panic p)

  -- Loading records one by one up to the first that fails, each into a buffer of its own; what came
  -- with them, in order.
  unfoldable pub visit : Loader S R → List R → S → Outcome (IncludeState S R)
  visit loader [] sc = (([], sc), ok tt)
  visit loader (r ∷ rs) sc = then_visit (loader r ([], sc)) λ sc'. visit loader rs sc'

  abbrev pub next_level : (List R → S → Outcome S) → Outcome (IncludeState S R) → Outcome S
  next_level go ((next, sc), ok x) = go next sc
  next_level go ((next, sc), err e) = (sc, err e)
  next_level go ((next, sc), panic p) = (sc, panic p)

  -- The records of `n` depths from the top: those given, then all that came with them.
  unfoldable pub levels : Loader S R → ℕ → List R → S → Outcome S
  unfolding visit
  levels loader zero rs sc = (sc, ok tt)
  levels loader (suc n) rs sc =
      next_level (λ next sc'. levels loader n next sc') (visit loader rs sc)

  levels-nil : (loader : Loader S R) (n : ℕ) (sc : S) → levels loader n [] sc ≡ (sc, ok tt)
  unfolding levels
  levels-nil loader zero sc = refl
  levels-nil loader (suc n) sc = levels-nil loader n sc

  in_front-append :
      (a b : List R) (o : Outcome (IncludeState S R))
      → in_front (a ++ b) o ≡ in_front a (in_front b o)
  in_front-append a b ((later, sc), x) = ap (λ l. ((l, sc), x)) (append_assoc a b later)

  module _ (loader : Loader S R) (h : Appends loader) where
    depth_behind :
        (rs buffer : List R) (o : Outcome (IncludeState S R))
        → ((b : List R) (sc : S)
            → include_depth loader rs (b, sc) ≡ in_front b (visit loader rs sc))
        → and_then (in_front buffer o) (λ s. include_depth loader rs s)
          ≡ in_front buffer (then_visit o λ sc. visit loader rs sc)
    depth_behind rs buffer ((later, sc), ok x) ih =
        ih (buffer ++ later) sc ∙ in_front-append buffer later (visit loader rs sc)
    depth_behind rs buffer ((later, sc), err e) ih = refl
    depth_behind rs buffer ((later, sc), panic p) ih = refl

    include_depth_lem :
        (rs buffer : List R) (sc : S)
        → include_depth loader rs (buffer, sc) ≡ in_front buffer (visit loader rs sc)
    unfolding include_depth visit
    include_depth_lem [] buffer sc = ap (λ b. ((b, sc), ok tt)) (sym (append-nil buffer))
    include_depth_lem (r ∷ rs) buffer sc =
        ap (λ o. and_then o λ s. include_depth loader rs s) (h r buffer sc)
        ∙ depth_behind rs buffer (loader r ([], sc)) λ b sc'. include_depth_lem rs b sc'

    next_depth_lem :
        (n : ℕ) (o : Outcome (IncludeState S R))
        → ((rs : List R) (sc : S) → include_loop loader n rs sc ≡ levels loader n rs sc)
        → next_depth (λ rs sc. include_loop loader n rs sc) (in_front [] o)
          ≡ next_level (λ rs sc. levels loader n rs sc) o
    next_depth_lem n (([], sc), ok x) ih = sym (levels-nil loader n sc)
    next_depth_lem n ((r ∷ next, sc), ok x) ih = ih (r ∷ next) sc
    next_depth_lem n ((next, sc), err e) ih = refl
    next_depth_lem n ((next, sc), panic p) ih = refl

    include_loop_lem :
        (n : ℕ) (rs : List R) (sc : S) → include_loop loader n rs sc ≡ levels loader n rs sc
    unfolding include_loop levels
    include_loop_lem zero rs sc = refl
    include_loop_lem (suc n) rs sc =
        ap (next_depth λ rs' sc'. include_loop loader n rs' sc') (include_depth_lem rs [] sc)
        ∙ next_depth_lem n (visit loader rs sc) λ rs' sc'. include_loop_lem n rs' sc'

    -- With a loader that only adds behind what the buffer has, `IncludeContext` loads the records
    -- breadth first: each record of a depth once, in the order in which they came with those of the
    -- depth above, for the first `MaxIncludeDepth` depths, up to the first record that fails, whose
    -- error or panic it ends with.
    pub include-levels :
        (n : ℕ) (v : R) (sc : S) → include loader (pos n) v sc ≡ levels loader n (v ∷ []) sc
    unfolding include
    include-levels n v sc = include_loop_lem n (v ∷ []) sc

module _ {S R : Type 0} where
  alone : (o : Outcome (IncludeState S R)) → and_then o (λ s. (s, ok tt)) ≡ o
  alone (s, ok x) = refl
  alone (s, err e) = refl
  alone (s, panic p) = refl

  load_list-alone :
      (loader : Loader S R) (r : R) (s : IncludeState S R)
      → load_list (loader ∷ []) r s ≡ loader r s
  unfolding load_list
  load_list-alone loader r s = alone (loader r s)

  one_record :
      (loader : Loader S R) (r : R) (s : IncludeState S R)
      → include_depth (load_list (loader ∷ [])) (r ∷ []) s ≡ loader r s
  unfolding include_depth
  one_record loader r s = alone (load_list (loader ∷ []) r s) ∙ load_list-alone loader r s

  -- A loader that asks for one further record, for which it then does nothing.
  pub include-once :
      (loader : Loader S R) (n : ℕ) (r later : R) (sc sc' : S)
      → loader r ([], sc) ≡ ((later ∷ [], sc'), ok tt)
      → loader later ([], sc') ≡ (([], sc'), ok tt)
      → include (load_list (loader ∷ [])) (pos (suc n)) r sc ≡ (sc', ok tt)
  unfolding include include_loop
  include-once loader n r later sc sc' h k =
      let go = λ (m : ℕ) (next : List R) (t : S). include_loop (load_list (loader ∷ [])) m next t in
      ap (next_depth (go n)) (one_record loader r ([], sc) ∙ h) ∙ second n
    where
      second : (m : ℕ) → include_loop (load_list (loader ∷ [])) m (later ∷ []) sc' ≡ (sc', ok tt)
      second zero = refl
      second (suc m) =
          ap (next_depth λ next t. include_loop (load_list (loader ∷ [])) m next t)
            (one_record loader later ([], sc') ∙ k)
