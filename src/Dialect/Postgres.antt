-- ===== src/Dialect/Postgres.antt =====
-- dialect/postgres/dialect.go
use goen.Prelude.{Str}
use goen.Dialect.{quote_with}

unfoldable pub quote : Str → Str
unfolding quote_with
quote s = quote_with b'"' s
