-- ===== src/Dialect.antt =====
-- dialect/dialect.go, the `Quote` of both dialects, and the table of registered dialects of
-- dialect.go (`Register`, and the lookup of `NewDBContext` in db_ctx.go).
pub mod Postgres
pub mod Sqlite3
pub mod Quoting
use goen.Prelude.{ℕ, List, [], ◌∷◌, ◌++◌, Str, ◌==◌, if◌then◌else◌, Option, none, some}
use goen.Go.Result.{Result, ok, panic, message}
use goen.Go.Map.{Map, lookup, insert}
use goen.Squirrel.{Squirrel}

-- The interface `Dialect`; `ScanTypeOf` is not modelled.
pub record Dialect (q : Squirrel) : Type 0 where
  pub placeholder_format : q.PlaceholderFormat
  pub quote : Str → Str

-- strings.Replace(s, c, cc, -1) for a text of one byte
pub double_quotes : ℕ → Str → Str
double_quotes q [] = []
double_quotes q (c ∷ s) = let rest = double_quotes q s in if c == q then c ∷ c ∷ rest else c ∷ rest

-- s between two bytes q, each q inside it doubled
pub quote_with : ℕ → Str → Str
unfolding double_quotes
quote_with q s = q ∷ (double_quotes q s ++ q ∷ [])

-- `Register`: the table after it, or a panic on a name that is taken.
unfoldable pub register {ℓ} : {D : Type ℓ} → Str → D → Map D → Result (Map D)
register name d dialects = elim (lookup name dialects) [
  | none ↦ ok (insert name d dialects)
  | some dup ↦ panic (message "goen: Register called twice for dialect " name)
]
