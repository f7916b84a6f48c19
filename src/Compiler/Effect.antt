-- ===== src/Compiler/Effect.antt =====
-- What the compiled statements do to a database. The database and the SQL that squirrel writes are
-- not part of this repository: they are the parameter `Database`.
pub mod Default
pub mod Merged
pub mod Memory
use mathlib.Core.List.{foldl}
use goen.Prelude.{Bool, true, List, [], ◌∷◌, Str, Option, none, some, ◌≡◌}
use goen.Go.Value.{Value, deep_equal_all}
use goen.Squirrel.{Squirrel}

-- SET of each column to its value.
abbrev pub set_all : (q : Squirrel) → List Str → List Value → q.UpdateBuilder → q.UpdateBuilder
set_all q (c ∷ cs) (v ∷ vs) b = set_all q cs vs (q.set_column b c v)
set_all q [] vs b = b
set_all q (c ∷ cs) [] b = b

-- Executing a statement: the state behind it, or none if it fails, which leaves the database as it
-- was. A statement may be too large for the database (`Fits`: the number of its parameters, its
-- length); one with fewer rows or conditions is no larger. What SQL documents of the three
-- statements, where they succeed one by one and the larger statement fits:
-- an INSERT of several rows does what one INSERT for each of them does in order; WHERE with OR
-- selects the rows that any of the conditions selects, so that one DELETE or UPDATE does what one
-- for each condition does (constraints hold behind a statement if they hold behind the single ones,
-- and an UPDATE that sets constants sets them once or twice with one result); values that
-- `reflect.DeepEqual` takes for equal are one value of the database.
pub record Database (q : Squirrel) : Type 1 where
  pub State : Type 0
  pub exec : q.Sqlizer → State → Option State
  pub Fits : q.Sqlizer → Type 0
  pub insert_fewer :
      (sb : q.StatementBuilder) (table : Str) (cols : List Str)
      → let base = q.columns (q.insert sb table) cols in
        (r r' : List Value) (rows : List (List Value))
        → Fits (q.insert_sqlizer (foldl q.values (q.values (q.values base r) r') rows))
        → Fits (q.insert_sqlizer (foldl q.values (q.values base r') rows))
  pub insert_cons :
      (sb : q.StatementBuilder) (table : Str) (cols : List Str)
      → let base = q.columns (q.insert sb table) cols in
        (r r' : List Value) (rows : List (List Value)) (s t u : State)
        → Fits (q.insert_sqlizer (foldl q.values (q.values (q.values base r) r') rows))
        → exec (q.insert_sqlizer (q.values base r)) s ≡ some t
        → exec (q.insert_sqlizer (foldl q.values (q.values base r') rows)) t ≡ some u
        → exec (q.insert_sqlizer (foldl q.values (q.values (q.values base r) r') rows)) s ≡ some u
  pub delete_one :
      (sb : q.StatementBuilder) (table : Str) (c : q.Sqlizer) (s : State)
      → let base = q.delete sb table in
        exec (q.delete_sqlizer (q.delete_where base (q.or_any (c ∷ [])))) s
        ≡ exec (q.delete_sqlizer (q.delete_where base c)) s
  pub delete_fewer :
      (sb : q.StatementBuilder) (table : Str) (c c' : q.Sqlizer) (cs : List q.Sqlizer)
      → let base = q.delete sb table in
        Fits (q.delete_sqlizer (q.delete_where base (q.or_any (c ∷ c' ∷ cs))))
        → Fits (q.delete_sqlizer (q.delete_where base (q.or_any (c' ∷ cs))))
  pub delete_cons :
      (sb : q.StatementBuilder) (table : Str) (c c' : q.Sqlizer) (cs : List q.Sqlizer)
      (s t u : State)
      → let base = q.delete sb table in
        Fits (q.delete_sqlizer (q.delete_where base (q.or_any (c ∷ c' ∷ cs))))
        → exec (q.delete_sqlizer (q.delete_where base c)) s ≡ some t
        → exec (q.delete_sqlizer (q.delete_where base (q.or_any (c' ∷ cs)))) t ≡ some u
        → exec (q.delete_sqlizer (q.delete_where base (q.or_any (c ∷ c' ∷ cs)))) s ≡ some u
  pub update_one :
      (sb : q.StatementBuilder) (table : Str) (cols : List Str) (vals : List Value)
      → (c : q.Sqlizer) (s : State)
      → let base = set_all q cols vals (q.update sb table) in
        exec (q.update_sqlizer (q.update_where base (q.or_any (c ∷ [])))) s
        ≡ exec (q.update_sqlizer (q.update_where base c)) s
  pub update_fewer :
      (sb : q.StatementBuilder) (table : Str) (cols : List Str) (vals : List Value)
      → (c c' : q.Sqlizer) (cs : List q.Sqlizer)
      → let base = set_all q cols vals (q.update sb table) in
        Fits (q.update_sqlizer (q.update_where base (q.or_any (c ∷ c' ∷ cs))))
        → Fits (q.update_sqlizer (q.update_where base (q.or_any (c' ∷ cs))))
  pub update_cons :
      (sb : q.StatementBuilder) (table : Str) (cols : List Str) (vals : List Value)
      → (c c' : q.Sqlizer) (cs : List q.Sqlizer) (s t u : State)
      → let base = set_all q cols vals (q.update sb table) in
        Fits (q.update_sqlizer (q.update_where base (q.or_any (c ∷ c' ∷ cs))))
        → exec (q.update_sqlizer (q.update_where base c)) s ≡ some t
        → exec (q.update_sqlizer (q.update_where base (q.or_any (c' ∷ cs)))) t ≡ some u
        → exec (q.update_sqlizer (q.update_where base (q.or_any (c ∷ c' ∷ cs)))) s ≡ some u
  pub update_equal :
      (sb : q.StatementBuilder) (table : Str) (cols : List Str) (vals vals' : List Value)
      → deep_equal_all vals vals' ≡ true
      → (c : q.Sqlizer) (s : State)
      → exec (q.update_sqlizer (q.update_where (set_all q cols vals (q.update sb table)) c)) s
        ≡ exec (q.update_sqlizer (q.update_where (set_all q cols vals' (q.update sb table)) c)) s

-- What comes behind a step that may fail.
abbrev pub after_step {ℓ} : {A : Type ℓ} → Option A → (A → Option A) → Option A
after_step none f = none
after_step (some a) f = f a

module _ {q : Squirrel} (db : Database q) where
  -- The statements in order, up to the first that fails.
  abbrev pub exec_all : List q.Sqlizer → db.State → Option db.State
  exec_all [] s = some s
  exec_all (x ∷ xs) s = after_step (db.exec x s) λ t. exec_all xs t
