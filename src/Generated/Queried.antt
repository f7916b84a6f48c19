-- ===== src/Generated/Queried.antt =====
-- A query of the generated code that includes one one-to-many relation.
use goen.Prelude.{List, [], ◌∷◌, ◌≡◌, none}
use goen.Squirrel.{Squirrel}
use goen.Dialect.{Dialect}
use goen.RowKey.{MapRowKey}
use goen.Generator.{Relation}
use goen.ScopeCache.{one_to_many}
use goen.ScopeCache.View.{View}
use goen.Generated.Objects.{Object}
use goen.Generated.Rows.{Runtime}
use goen.Generated.Relations.{related_row_key, identity}

module _ {q : Squirrel} {W : Type 0} (run : Runtime q W) (rel : Relation) where
  -- Nothing is cached for the row key of the struct.
  abbrev pub IsUncached : View Object → Object → Type 0
  IsUncached f x = f one_to_many (identity run rel x) ≡ none

  abbrev pub related_row_keys : List Object → List MapRowKey
  related_row_keys [] = []
  related_row_keys (x ∷ xs) = related_row_key rel x ∷ related_row_keys xs
