-- ===== src/Generated/Shared.antt =====
-- Query builders that the template writes and that share the array of their loaders: `Include` of a
-- builder, which is a value, appends to a slice of which the copies keep the array.
use goen.Prelude.{ℕ, ◌+◌, ◌≤◌, List, ◌++◌, length, ◌≡◌}
use goen.Squirrel.{Squirrel}
use goen.Include.Slices.{Arrays, elements, IsWithin, append-append}
use goen.Generated.Rows.{Runtime}
use goen.Generated.Builder.{QueryBuilder, include_with}

module _ {q : Squirrel} {W : Type 0} (run : Runtime q W) where
  -- If the array of a builder's loaders has room, and two builders are made from it by `Include` with
  -- equally many loaders, one after the other, then the first of them has the loaders of the builder
  -- and behind them those that the second was given.
  pub include_with-include_with :
      {L : Type 0} (grow : ℕ → ℕ → ℕ) (vs us : List L) (qb : QueryBuilder run) (m : Arrays L)
      → IsWithin m qb.include_loaders
      → qb.include_loaders.len + length vs ≤ qb.include_loaders.cap
      → length us ≡ length vs
      → let (m', first) = include_with run grow vs qb m in
        let (m'', second) = include_with run grow us qb m' in
        elements m'' first.include_loaders ≡ elements m qb.include_loaders ++ us
  unfolding include_with
  include_with-include_with grow vs us qb m h room same =
      append-append grow vs us m qb.include_loaders h room same
