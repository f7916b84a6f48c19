-- ===== src/RowKey.antt =====
-- row_key.go: the interface `RowKey` and its implementation `MapRowKey`.
pub mod Order
pub mod Sorting
pub mod Iteration
pub mod Once
use goen.Prelude.{List, [], ◌∷◌, map, Str, str_eq, str_le, if◌then◌else◌, Option, none, some}
use goen.Go.Value.{Value, nil}
use goen.Go.Map.{Map, lookup, insert, delete, keys}
use goen.Squirrel.{Squirrel}
use goen.Dialect.{Dialect}

-- What a `RowKey` answers to its methods. `sqlizer` is the key itself as a sqr.Sqlizer.
pub record RowKey (q : Squirrel) : Type 0 where
  pub table_name : Str
  pub columns : List Str
  pub values : List Value
  pub sqlizer : q.Sqlizer
  pub to_sqlizer_with_dialect : Dialect q → q.Sqlizer

pub record MapRowKey : Type 0 where
  pub table : Str
  pub key : Map Value

-- sort.Strings
unfoldable pub insert_sorted : Str → List Str → List Str
insert_sorted s [] = s ∷ []
insert_sorted s (t ∷ ts) =
    let rest = insert_sorted s ts in if str_le s t then s ∷ t ∷ ts else t ∷ rest

unfoldable pub sort_strings : List Str → List Str
sort_strings [] = []
sort_strings (s ∷ ss) = insert_sorted s (sort_strings ss)

abbrev pub found : Option Value → Value
found none = nil
found (some v) = v

-- key.Key[col]; a missing key would read as nil
abbrev pub value_at : Map Value → Str → Value
value_at m col = found (lookup col m)

-- `RowKey()`: the columns in order, and the value of each.
unfoldable pub row_key : MapRowKey → List Str × List Value
unfolding sort_strings insert_sorted
row_key k = let cols = sort_strings (keys k.key) in (cols, map (value_at k.key) cols)

-- `toEq`: a copy of the map, entry by entry.
pub copy_entries : Map Value → Map Value → Map Value
copy_entries [] expr = expr
copy_entries ((col, val) ∷ rest) expr = copy_entries rest (insert col val expr)

pub to_eq : MapRowKey → Map Value
unfolding copy_entries
to_eq k = copy_entries k.key []

-- `ToSql`: what `Eq.ToSql` of squirrel answers for the copy.
unfoldable pub to_sql {ℓ} : {T : Type ℓ} → (Map Value → T) → MapRowKey → T
unfolding to_eq
to_sql eq_to_sql k = eq_to_sql (to_eq k)

-- One round of the loop of `ToSqlizerWithDialect`: `delete(eq, col)`, then the quoted column.
unfoldable pub requote : (Str → Str) → Str → Map Value → Map Value
requote quote col eq = insert (quote col) (value_at eq col) (delete col eq)
