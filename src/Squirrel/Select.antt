-- ===== src/Squirrel/Select.antt =====
-- The builder of SELECT statements of github.com/Masterminds/squirrel, and the conditions that only
-- generated code makes, as a parameter. Every method returns a new builder.
use goen.Prelude.{ℕ, List, Str}
use goen.Go.Value.{Value}
use goen.Squirrel.{Squirrel}

-- The map types of squirrel that compare a column: Eq, NotEq, Lt, LtOrEq, Gt and GtOrEq.
pub data Comparison : Type 0 where
  equal not_equal less less_or_equal greater greater_or_equal : Comparison

-- The value of such a map: one value, or a slice of values.
pub data Operand : Type 0 where
  one : Value → Operand
  many : List Value → Operand

pub record SelectBuilders (q : Squirrel) : Type 1 where
  pub SelectBuilder : Type 0
  pub select : q.StatementBuilder → List Str → SelectBuilder
  pub from : SelectBuilder → Str → SelectBuilder
  pub columns : SelectBuilder → List Str → SelectBuilder
  pub select_where : SelectBuilder → q.Sqlizer → SelectBuilder
  pub order_by : SelectBuilder → List Str → SelectBuilder
  pub limit : SelectBuilder → ℕ → SelectBuilder
  pub offset : SelectBuilder → ℕ → SelectBuilder
  pub select_sqlizer : SelectBuilder → q.Sqlizer
  -- a map of one entry, and sqr.Expr
  pub comparison : Comparison → Str → Operand → q.Sqlizer
  pub expr : Str → List Value → q.Sqlizer
