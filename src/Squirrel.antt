-- ===== src/Squirrel.antt =====
-- The package github.com/Masterminds/squirrel, which is not part of this repository: its builder
-- types and the calls of them that goen makes are a parameter. Every method returns a new builder.
pub mod Select
use goen.Prelude.{List, Str}
use goen.Go.Value.{Value}
use goen.Go.Map.{Map}

pub record Squirrel : Type 1 where
  pub Sqlizer : Type 0
  pub PlaceholderFormat : Type 0
  pub StatementBuilder : Type 0
  pub InsertBuilder : Type 0
  pub UpdateBuilder : Type 0
  pub DeleteBuilder : Type 0
  -- sqr.StatementBuilder and its methods
  pub statement_builder : StatementBuilder
  pub placeholder_format : StatementBuilder → PlaceholderFormat → StatementBuilder
  pub insert : StatementBuilder → Str → InsertBuilder
  pub update : StatementBuilder → Str → UpdateBuilder
  pub delete : StatementBuilder → Str → DeleteBuilder
  pub columns : InsertBuilder → List Str → InsertBuilder
  pub values : InsertBuilder → List Value → InsertBuilder
  pub set_column : UpdateBuilder → Str → Value → UpdateBuilder
  pub update_where : UpdateBuilder → Sqlizer → UpdateBuilder
  pub delete_where : DeleteBuilder → Sqlizer → DeleteBuilder
  -- the expressions sqr.Eq and sqr.Or, and each builder as a sqr.Sqlizer
  pub eq : Map Value → Sqlizer
  pub or_any : List Sqlizer → Sqlizer
  pub insert_sqlizer : InsertBuilder → Sqlizer
  pub update_sqlizer : UpdateBuilder → Sqlizer
  pub delete_sqlizer : DeleteBuilder → Sqlizer
