-- ===== src/RowKey/Iteration.antt =====
-- The loop of `ToSqlizerWithDialect` in row_key.go. It deletes from and adds to the map that it
-- ranges over. Go visits the entries in any order, and an entry that is added during the iteration
-- "may be produced during the iteration or may be skipped".
use goen.Prelude.{
  ℕ, zero, suc, true, false, List, Bool-cases, inl, inr, [], ◌∷◌, ◌++◌, Str, str_eq, str_eq_iff,
  str_eq_refl, ◌≡◌, refl, sym, ap, ◌∙◌, arith, none, some,
}
use goen.Go.Value.{Value}
use goen.Go.Map.{Map, lookup, insert, delete, lookup-insert, lookup-delete}
use goen.RowKey.{requote, found}

module _ (quote : Str → Str) where
  -- From `eq` to `eq'`: `old` are the columns that were there at the start and are still to be
  -- visited, `new` the ones added by the loop, which need not be visited. A column that is gone is
  -- not visited.
  pub data Run : List Str → List Str → Map Value → Map Value → Type 0 where
    done : {new : List Str} {eq : Map Value} → Run [] new eq eq
    visit_old :
        {old new : List Str} {eq eq' : Map Value} (before after : List Str) (col : Str)
        → old ≡ before ++ col ∷ after
        → (v : Value) → lookup col eq ≡ some v
        → Run (before ++ after) (quote col ∷ new) (requote quote col eq) eq'
        → Run old new eq eq'
    skip_old :
        {old new : List Str} {eq eq' : Map Value} (before after : List Str) (col : Str)
        → old ≡ before ++ col ∷ after
        → lookup col eq ≡ none
        → Run (before ++ after) new eq eq'
        → Run old new eq eq'
    visit_new :
        {old new : List Str} {eq eq' : Map Value} (before after : List Str) (col : Str)
        → new ≡ before ++ col ∷ after
        → (v : Value) → lookup col eq ≡ some v
        → Run old (before ++ quote col ∷ after) (requote quote col eq) eq'
        → Run old new eq eq'

  requote_one : (col : Str) (v : Value) → requote quote col ((col, v) ∷ []) ≡ (quote col, v) ∷ []
  unfolding requote insert delete lookup
  requote_one col v = rw str_eq_refl

  lookup_one : (col : Str) (v : Value) → lookup col ((col, v) ∷ []) ≡ some v
  unfolding lookup
  lookup_one col v = rw str_eq_refl

  -- For every key of one column, whatever the dialect's quote, Go may end the loop with the column
  -- quoted twice.
  pub Run-quoted_twice :
      (col : Str) (v : Value) → Run (col ∷ []) [] ((col, v) ∷ []) ((quote (quote col), v) ∷ [])
  Run-quoted_twice col v = visit_old [] [] col refl v (lookup_one col v) (
      rw requote_one
        (visit_new [] [] (quote col) refl v (lookup_one (quote col) v) (rw requote_one done)))

  abbrev pub quote_times : ℕ → Str → Str
  quote_times zero s = s
  quote_times (suc n) s = quote (quote_times n s)

  -- An entry that was in the map under its column, quoted some times since.
  abbrev pub Derived : Map Value → Str → Value → Type 0
  Derived m k v = (n : ℕ) × (c : Str) × (k ≡ quote_times n c) × (lookup c m ≡ some v)

  abbrev AllDerived : Map Value → Map Value → Type 0
  AllDerived m eq = (k : Str) (v : Value) → lookup k eq ≡ some v → Derived m k v

  requote_here :
      (eq : Map Value) (col k : Str) (w v : Value)
      → str_eq (quote col) k ≡ true
      → lookup col eq ≡ some w
      → lookup k (requote quote col eq) ≡ some v
      → (quote col ≡ k) × (w ≡ v)
  unfolding requote
  requote_here eq col k w v same e h = ground (
    arith,
    str_eq_iff (quote col) k,
    lookup-insert (quote col) k (found (lookup col eq)) (delete col eq),
  )

  requote_there :
      (eq : Map Value) (col k : Str) (v : Value)
      → str_eq (quote col) k ≡ false
      → lookup k (requote quote col eq) ≡ some v
      → lookup k eq ≡ some v
  unfolding requote
  requote_there eq col k v other h = ground (
    arith,
    lookup-insert (quote col) k (found (lookup col eq)) (delete col eq),
    lookup-delete col k eq,
  )

  requote-AllDerived :
      (m eq : Map Value) (col : Str) (w : Value)
      → lookup col eq ≡ some w
      → AllDerived m eq
      → AllDerived m (requote quote col eq)
  requote-AllDerived m eq col w e all k v h = elim (Bool-cases (str_eq (quote col) k)) [
    | inl same ↦
        let (name, value) = requote_here eq col k w v same e h in
        let (n, c, shape, at) = all col w e in
        (suc n, c, sym name ∙ ap quote shape, at ∙ ap some value)
    | inr other ↦ all k v (requote_there eq col k v other h)
  ]

  Run-AllDerived :
      (m : Map Value) {old new : List Str} {eq eq' : Map Value}
      → AllDerived m eq
      → Run old new eq eq'
      → AllDerived m eq'
  Run-AllDerived m all done = all
  Run-AllDerived m all (visit_old before after col e v h r) =
      Run-AllDerived m (requote-AllDerived m _ col v h all) r
  Run-AllDerived m all (skip_old before after col e h r) = Run-AllDerived m all r
  Run-AllDerived m all (visit_new before after col e v h r) =
      Run-AllDerived m (requote-AllDerived m _ col v h all) r

  -- However Go orders the visits, every entry that the loop ends with has the value of an entry that
  -- the key had, under its column quoted a number of times.
  pub Run-Derived :
      (old new : List Str) (eq eq' : Map Value) (k : Str) (v : Value)
      → Run old new eq eq'
      → lookup k eq' ≡ some v
      → Derived eq k v
  Run-Derived old new eq eq' k v r h = Run-AllDerived eq (λ c w e. (0, c, refl, e)) r k v h
