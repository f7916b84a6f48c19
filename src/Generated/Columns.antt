-- ===== src/Generated/Columns.antt =====
-- The column expressions that the template writes for each column of a table.
use goen.Prelude.{List, [], ◌∷◌, ◌++◌, Str, codes}
use goen.Go.Value.{Value}
use goen.Squirrel.{Squirrel}
use goen.Squirrel.Select.{
  SelectBuilders, Comparison, equal, not_equal, less, less_or_equal, greater, greater_or_equal, one,
  many,
}
use goen.Dialect.{Dialect}
use goen.Generator.{Column}

-- The struct of a column: its name, bare and quoted.
pub record ColumnExpr : Type 0 where
  pub bs : Str
  pub qs : Str

-- The columns of a set, as `newBlogDBSet` makes them.
unfoldable pub new_columns : {q : Squirrel} → Dialect q → List Column → List ColumnExpr
new_columns dialect [] = []
new_columns dialect (c ∷ cs) =
    record { bs = c.column_name; qs = dialect.quote c.column_name } ∷ new_columns dialect cs

-- `Asc`, `Desc`
unfoldable pub asc : ColumnExpr → Str
asc c = c.qs

unfoldable pub desc : ColumnExpr → Str
desc c = c.qs ++ codes " DESC"

module _ {q : Squirrel} (b : SelectBuilders q) where
  -- `Eq`, `NotEq`, `Lt`, `LtOrEq`, `Gt`, `GtOrEq`: the comparison that each names, with one value.
  abbrev compare_to : Comparison → ColumnExpr → Value → q.Sqlizer
  compare_to comparison c v = b.comparison comparison c.qs (one v)

  unfoldable pub eq : ColumnExpr → Value → q.Sqlizer
  eq = compare_to equal

  unfoldable pub not_eq : ColumnExpr → Value → q.Sqlizer
  not_eq = compare_to not_equal

  unfoldable pub lt : ColumnExpr → Value → q.Sqlizer
  lt = compare_to less

  unfoldable pub lt_or_eq : ColumnExpr → Value → q.Sqlizer
  lt_or_eq = compare_to less_or_equal

  unfoldable pub gt : ColumnExpr → Value → q.Sqlizer
  gt = compare_to greater

  unfoldable pub gt_or_eq : ColumnExpr → Value → q.Sqlizer
  gt_or_eq = compare_to greater_or_equal

  -- `In`, `NotIn`: the map of `Eq` and `NotEq` with the slice of the values.
  unfoldable pub in_values : ColumnExpr → List Value → q.Sqlizer
  in_values c vs = b.comparison equal c.qs (many vs)

  unfoldable pub not_in_values : ColumnExpr → List Value → q.Sqlizer
  not_in_values c vs = b.comparison not_equal c.qs (many vs)

  unfoldable pub like : ColumnExpr → Value → q.Sqlizer
  like c v = b.expr (c.qs ++ codes " LIKE ?") (v ∷ [])

  unfoldable pub not_like : ColumnExpr → Value → q.Sqlizer
  not_like c v = b.expr (c.qs ++ codes " NOT LIKE ?") (v ∷ [])

  unfoldable pub between : ColumnExpr → Value → Value → q.Sqlizer
  between c v w = b.expr (c.qs ++ codes " BETWEEN ? AND ?") (v ∷ w ∷ [])

  unfoldable pub not_between : ColumnExpr → Value → Value → q.Sqlizer
  not_between c v w = b.expr (c.qs ++ codes " NOT BETWEEN ? AND ?") (v ∷ w ∷ [])
