-- ===== src/QueryRunner/Caching.antt =====
-- What `StmtCacher` of query_runner.go keeps.
use goen.Prelude.{
  ℕ, ◌+◌, [], ◌∷◌, map, Str, str_eq_refl, ◌≡◌, refl, ◌∙◌, sym, subst, length, length-append,
  length-map, none, some, arith, inl, inr, Option-cases,
}
use goen.Go.Result.{Result, ok, err, panic}
use goen.Go.Map.{Map, lookup, insert, lookup-insert}
use goen.QueryRunner.{Preparer, StmtCacher, stmt_stats, store, prepare, close, new_stmt_cacher}

length-insert :
    {V : Type 0} (k : Str) (v : V) (m : Map V)
    → lookup k m ≡ none
    → length (insert k v m) ≡ length m + 1
unfolding insert lookup
length-insert k v [] h = refl
length-insert k v ((i, w) ∷ m) h = ground (arith, length-insert k v m)

ok-some : {A : Type 0} {x y : A} → ok x ≡ ok y → some x ≡ some y
ok-some h = cc

module _ {DB Stmt : Type 0} where
  prepare-cached :
      (prep : Preparer DB Stmt) (query : Str) (c : StmtCacher DB Stmt) (stmt : Stmt)
      → lookup query c.cache ≡ some stmt
      → prepare prep query c ≡ (c, ok stmt)
  unfolding prepare
  prepare-cached prep query c stmt h = rw (h, prepare) refl

  prepare-missing :
      (prep : Preparer DB Stmt) (query : Str) (c : StmtCacher DB Stmt)
      → lookup query c.cache ≡ none
      → prepare prep query c ≡ store query (prep query c.db) c
  unfolding prepare
  prepare-missing prep query c h = rw (h, prepare) refl

  store-ok :
      (query : Str) (r : DB × Result Stmt) (c : StmtCacher DB Stmt) (stmt : Stmt)
      → (store query r c).1 ≡ ok stmt
      → lookup query (store query r c).0.cache ≡ some stmt
  store-ok query (db, ok x) c stmt h =
      lookup-insert query query x c.cache ∙ rw (str_eq_refl query) (ok-some h)
  store-ok query (db, err e) c stmt h = cc
  store-ok query (db, panic e) c stmt h = cc

  abbrev Answers : Str → Stmt → StmtCacher DB Stmt × Result Stmt → Type 0
  Answers query stmt r = r.1 ≡ ok stmt → lookup query r.0.cache ≡ some stmt

  prepare-ok :
      (prep : Preparer DB Stmt) (query : Str) (c : StmtCacher DB Stmt) (stmt : Stmt)
      → (prepare prep query c).1 ≡ ok stmt
      → lookup query (prepare prep query c).0.cache ≡ some stmt
  unfolding prepare
  prepare-ok prep query c stmt h = elim (Option-cases (lookup query c.cache)) [
    | inl e ↦
        subst (Answers query stmt) (sym (prepare-missing prep query c e)) (store-ok query _ c stmt)
          h
    | inr (x, e) ↦
        subst (Answers query stmt) (sym (prepare-cached prep query c x e)) (λ r. e ∙ ok-some r) h
  ]

  -- A query that was prepared without an error is answered from the cache when it is prepared again:
  -- with the same statement, and whatever the preparer would do now, without a change of the
  -- database or of the cache.
  pub prepare-prepare :
      (prep prep' : Preparer DB Stmt) (query : Str) (c : StmtCacher DB Stmt) (stmt : Stmt)
      → (prepare prep query c).1 ≡ ok stmt
      → prepare prep' query (prepare prep query c).0 ≡ ((prepare prep query c).0, ok stmt)
  prepare-prepare prep prep' query c stmt h =
      prepare-cached prep' query _ stmt (prepare-ok prep query c stmt h)

  -- The states that a new cacher gets into.
  pub data Reached (prep : Preparer DB Stmt) (db : DB) : StmtCacher DB Stmt → Type 0 where
    created : Reached prep db (new_stmt_cacher db)
    prepared :
        (query : Str) (c : StmtCacher DB Stmt)
        → Reached prep db c
        → Reached prep db (prepare prep query c).0
    emptied : (c : StmtCacher DB Stmt) → Reached prep db c → Reached prep db (close c)

  -- The count of the statements that a preparer has made goes up with each of them.
  abbrev pub IsCounted : (DB → ℕ) → DB → DB × Result Stmt → Type 0
  IsCounted count db (db', ok stmt) = count db' ≡ count db + 1
  IsCounted count db (db', err e) = count db' ≡ count db
  IsCounted count db (db', panic p) = count db' ≡ count db

  -- Every statement is cached or was closed.
  abbrev IsAccounted : (DB → ℕ) → StmtCacher DB Stmt → Type 0
  IsAccounted count c = count c.db ≡ length c.closed + length c.cache

  store-IsAccounted :
      (count : DB → ℕ) (query : Str) (c : StmtCacher DB Stmt) (r : DB × Result Stmt)
      → IsCounted count c.db r
      → lookup query c.cache ≡ none
      → IsAccounted count c
      → IsAccounted count (store query r c).0
  store-IsAccounted count query c (db, ok stmt) k e h =
      omega (arith, length-insert query stmt c.cache e)
  store-IsAccounted count query c (db, err x) k e h = k ∙ h
  store-IsAccounted count query c (db, panic x) k e h = k ∙ h

  prepare-IsAccounted :
      (prep : Preparer DB Stmt) (count : DB → ℕ) (query : Str) (c : StmtCacher DB Stmt)
      → IsCounted count c.db (prep query c.db)
      → IsAccounted count c
      → IsAccounted count (prepare prep query c).0
  prepare-IsAccounted prep count query c k h = elim (Option-cases (lookup query c.cache)) [
    | inl e ↦ rw (prepare-missing prep query c e) (store-IsAccounted count query c _ k e h)
    | inr (x, e) ↦ rw (prepare-cached prep query c x e) h
  ]

  close-IsAccounted :
      (count : DB → ℕ) (c : StmtCacher DB Stmt) → IsAccounted count c → IsAccounted count (close c)
  unfolding close
  close-IsAccounted count c h =
      omega (arith, length-append c.closed (map (λ e. e.1) c.cache), length-map (λ e. e.1) c.cache)

  Reached-IsAccounted :
      (prep : Preparer DB Stmt) (count : DB → ℕ) (db : DB)
      → count db ≡ 0
      → ((query : Str) (d : DB) → IsCounted count d (prep query d))
      → (c : StmtCacher DB Stmt) → Reached prep db c
      → IsAccounted count c
  Reached-IsAccounted prep count db z k c created = z
  Reached-IsAccounted prep count db z k c (prepared query c' r) =
      prepare-IsAccounted prep count query c' (k query c'.db)
        (Reached-IsAccounted prep count db z k c' r)
  Reached-IsAccounted prep count db z k c (emptied c' r) =
      close-IsAccounted count c' (Reached-IsAccounted prep count db z k c' r)

  -- No statement is lost: after any preparations and closings, the statements that the preparer has
  -- made are those that were closed and those that `StmtStats` counts. `count` is the number of
  -- statements made, which goes up by one with each of them and not on an error.
  pub stmt_stats-Reached :
      (prep : Preparer DB Stmt) (count : DB → ℕ) (db : DB)
      → count db ≡ 0
      → ((query : Str) (d : DB) → IsCounted count d (prep query d))
      → (c : StmtCacher DB Stmt) → Reached prep db c
      → count c.db ≡ length c.closed + stmt_stats c
  unfolding stmt_stats
  stmt_stats-Reached prep count db z k c r = Reached-IsAccounted prep count db z k c r
