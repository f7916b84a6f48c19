-- ===== src/Tests/Scopes.antt =====
-- Runs of scope_cache.go, tx_scope.go, query_runner.go and the including of db_ctx.go.
use goen.Prelude.{
  sym, ap, append-nil, Bool, false, ◌||◌, ◌==◌, ltb, if◌then◌else◌, Bool-cases, inl, inr, ◌↔◌, ℕ,
  ◌+◌, List, [], ◌∷◌, ◌++◌, Str, codes, pos, length, Option, none, ◌≡◌, refl,
}
use goen.Go.Result.{Result, ok, err}
use goen.ScopeCache.{ObjectKeys, add_object, remove_object}
use goen.ScopeCache.View.{no_view, no_view-Represents}
use goen.ScopeCache.Laws.{
  IsTyped, Returns, HasKeys, add_to_view, remove_from_view, add_object-Represents,
  remove_object-Represents,
}
use goen.TxScope.{used, CommitError, tx_scope_do}
use goen.TxScope.Outcomes.{final_state, open_tx, rolled_back_tx, tx_scope_do-state, tx_scope_do-ok}
use goen.QueryRunner.{Preparer, StmtCacher, new_stmt_cacher, prepare, stmt_stats}
use goen.QueryRunner.Caching.{created, prepared, stmt_stats-Reached}
use goen.Include.{Loader, include}
use goen.Include.Levels.{Appends, levels, include-levels}
use goen.Tests.Deciding.{lacks-Lacks}

-- An entity by its number: a child of the blog 1, and the parent of what refers to its own key.
abbrev keys : ObjectKeys ℕ
keys = record {
  primary = λ n. b'p' ∷ n ∷ [];
  references = λ n. codes "b1" ∷ [];
  one_to_many_references = λ n. codes "b1" ∷ [];
  many_to_one_references = λ n. codes "m" ∷ [];
}

keys-HasKeys : HasKeys keys 7
keys-HasKeys = record {
  primary = lacks-Lacks b'#' (b'p' ∷ 7 ∷ []) refl;
  references = (lacks-Lacks b'#' (codes "b1") refl, tt);
  one_to_many = (lacks-Lacks b'#' (codes "b1") refl, tt);
  many_to_one = (lacks-Lacks b'#' (codes "m") refl, tt);
}

add_object-Represents_example :
    Returns (add_object keys 7 []) (add_to_view keys 7 no_view)
    × IsTyped (add_to_view keys 7 no_view)
add_object-Represents_example =
    add_object-Represents keys 7 [] no_view keys-HasKeys (λ k. refl) no_view-Represents

remove_object-Represents_example :
    Returns (remove_object keys 7 []) (remove_from_view keys 7 no_view)
remove_object-Represents_example =
    remove_object-Represents keys 7 [] no_view keys-HasKeys no_view-Represents

abbrev commits : CommitError
commits calls = none

tx_scope_do-state_example :
    final_state
      (commits (used (codes "q") ∷ []))
      open_tx
      (tx_scope_do commits none (used (codes "q") ∷ [], err (codes "e"))).0
    ≡ rolled_back_tx
tx_scope_do-state_example = tx_scope_do-state commits (used (codes "q") ∷ []) (err (codes "e")) tt

abbrev no_error : Option Str
no_error = none

abbrev returned : Result (Unit {0})
returned = ok tt

-- A preparer that numbers its statements.
abbrev numbers : Preparer ℕ ℕ
numbers query n = (n + 1, ok n)

abbrev after_q : StmtCacher ℕ ℕ
after_q = (prepare numbers (codes "q") (new_stmt_cacher 0)).0

stmt_stats-Reached_example : after_q.db ≡ length after_q.closed + stmt_stats after_q
stmt_stats-Reached_example =
    stmt_stats-Reached numbers (λ n. n) 0 refl (λ q d. refl) after_q
      (prepared (codes "q") (new_stmt_cacher 0) created)

abbrev is_seen : ℕ → List ℕ → Bool
is_seen n [] = false
is_seen n (m ∷ ms) = n == m || is_seen n ms

-- What comes with a record of a number below 5 is twice its number, if its number was not loaded
-- before, and one more; a record of a greater number fails. The numbers loaded are the state.
abbrev doubles : Loader (List ℕ) ℕ
doubles n (buffer, seen) =
    if ltb n 5
    then (
      (buffer ++ ((if is_seen n seen then [] else (n + n) ∷ []) ++ (n + 1) ∷ []), seen ++ n ∷ []),
      ok tt,
    )
    else ((buffer, seen), err (codes "too large"))

doubles-Appends : Appends doubles
doubles-Appends n buffer seen = elim (Bool-cases (ltb n 5)) [
  | inl e ↦ rw e refl
  | inr e ↦ rw e (ap (λ b. ((b, seen), err (codes "too large"))) (sym (append-nil buffer)))
]

include-levels_example : include doubles (pos 3) 1 [] ≡ levels doubles 3 (1 ∷ []) []
include-levels_example = include-levels doubles doubles-Appends 3 1 []

tx_scope_do-ok_example :
    ((tx_scope_do commits none (used (codes "q") ∷ [], returned)).1 ≡ ok tt)
    ↔ ((no_error ≡ none) × (returned ≡ ok tt) × (commits (used (codes "q") ∷ []) ≡ none))
tx_scope_do-ok_example = tx_scope_do-ok commits no_error (used (codes "q") ∷ []) returned
