-- ===== src/Dialect/Sqlite3.antt =====
-- dialect/sqlite3/dialect.go
use goen.Prelude.{Str}
use goen.Dialect.{quote_with}

unfoldable pub quote : Str → Str
unfolding quote_with
quote s = quote_with b'`' s
