-- ===== src/Compiler/Effect/Merged.antt =====
-- One merged statement does to the database what the statements of its patches do one by one, where
-- those succeed and the merged one is not too large.
use goen.Prelude.{List, ◌≡◌, some}
use goen.Go.Result.{Result, ok}
use goen.Go.Value.{Value}
use goen.Squirrel.{Squirrel}
use goen.Patch.{Patch}
use goen.Compiler.{CompilerOptions, row_key_to_sqlizer}
use goen.Compiler.Effect.{Database, exec_all}

abbrev value_or : {A : Type 0} → A → Result A → A
value_or d (ok a) = a
value_or d _ = d

module _ {q : Squirrel} (db : Database q) where
  -- Where the statements `ys` succeed and the statement `x` fits, it does what they do.
  abbrev Merges : q.Sqlizer → List q.Sqlizer → Type 0
  Merges x ys = (s u : db.State) → db.Fits x → exec_all db ys s ≡ some u → db.exec x s ≡ some u

module _ {q : Squirrel} (db : Database q) (opts : CompilerOptions q) where
  abbrev condition : Patch q → q.Sqlizer
  condition m = row_key_to_sqlizer opts m.row_key
