-- ===== src/Tests/Keys.antt =====
-- Runs of row_key.go, the identity texts of meta.go, and internal/struct_tag.go.
use mathlib.Core.List.{Permᴰ, zip}
use goen.Prelude.{[], ◌∷◌, ◌++◌, map, Str, str_eq, String, codes, none, ◌≡◌, refl}
use goen.Go.Value.{Value}
use goen.Go.Map.{Map, IsMap, IsNodup, keys}
use goen.Dialect.Sqlite3
use goen.RowKey.{MapRowKey, row_key}
use goen.RowKey.Sorting.{IsSorted, row_key_lem, row_key-Permᴰ}
use goen.RowKey.Once.{quoted, Run-quoted}
use goen.RowKey.Iteration.{Run, Run-quoted_twice}
use goen.Meta.KeyString.{
  Marshal, value_string, key_string, key_string-injective, key_string_collision,
}
use goen.StructTag.{colpairs}
use goen.Tests.Deciding.{str_ne, lacks-Lacks}
use goen.StructTag.Split.{Spellable, spell_all, tag_of, colpairs-spell_all}

abbrev text : String → Value
text s = Value.string (codes "string") (codes s)

abbrev two_columns : Map Value
two_columns = (codes "b", text "x") ∷ (codes "a", text "y") ∷ []

abbrev swapped : Map Value
swapped = (codes "a", text "y") ∷ (codes "b", text "x") ∷ []

abbrev two_columns_key : MapRowKey
two_columns_key = record { table = codes "t"; key = two_columns }

two_columns-IsMap : IsMap two_columns
unfolding str_eq
two_columns-IsMap = ((str_ne (codes "b") (codes "a") refl, tt), (tt, tt))

row_key_lem_example :
    IsSorted (row_key two_columns_key).0
    × Permᴰ (zip (row_key two_columns_key).0 (row_key two_columns_key).1) two_columns
row_key_lem_example = row_key_lem two_columns_key two_columns-IsMap

row_key-Permᴰ_example :
    row_key two_columns_key ≡ row_key (record { table = codes "t"; key = swapped })
row_key-Permᴰ_example =
    row_key-Permᴰ (codes "t") two_columns swapped two_columns-IsMap (Permᴰ.swap refl refl)

Run-quoted_twice_example :
    Run Sqlite3.quote
      (codes "id" ∷ [])
      []
      ((codes "id", text "x") ∷ [])
      ((codes "``" ++ codes "`id```", text "x") ∷ [])
unfolding Sqlite3.quote
Run-quoted_twice_example = Run-quoted_twice Sqlite3.quote (codes "id") (text "x")

two_quoted-IsNodup : IsNodup (keys two_columns ++ map Sqlite3.quote (keys two_columns))
unfolding str_eq Sqlite3.quote
two_quoted-IsNodup = (
  (
    str_ne (codes "b") (codes "a") refl,
    (str_ne (codes "b") (codes "`b`") refl, (str_ne (codes "b") (codes "`a`") refl, tt)),
  ),
  (
    (str_ne (codes "a") (codes "`b`") refl, (str_ne (codes "a") (codes "`a`") refl, tt)),
    ((str_ne (codes "`b`") (codes "`a`") refl, tt), (tt, tt)),
  ),
)

Run-quoted_example :
    Run Sqlite3.quote (codes "b" ∷ codes "a" ∷ []) [] two_columns (quoted Sqlite3.quote two_columns)
Run-quoted_example = Run-quoted Sqlite3.quote two_columns two_quoted-IsNodup

-- A value that is a text is its own default format.
abbrev plain : Value → Str
plain (Value.string t s) = s
plain v = []

abbrev marshal : Marshal
marshal = record { text = λ v. none; binary = λ v. none; sprint = plain }

key_string_collision_example :
    key_string marshal (codes "t") (codes "a" ∷ codes "b" ∷ []) (text "x;b=y" ∷ text "z" ∷ [])
    ≡ key_string marshal (codes "t") (codes "a" ∷ codes "b" ∷ []) (text "x" ∷ text "y;b=z" ∷ [])
unfolding value_string
key_string_collision_example =
    key_string_collision marshal (codes "t") (codes "a") (codes "b") (codes "x") (codes "y")
      (codes "z") (text "x;b=y") (text "z") (text "x") (text "y;b=z") refl refl refl refl

key_string-injective_example :
    map (value_string marshal) (text "1" ∷ text "2" ∷ [])
    ≡ map (value_string marshal) (text "1" ∷ Value.string (codes "T") (codes "2") ∷ [])
unfolding value_string key_string
key_string-injective_example =
    key_string-injective marshal (codes "t") (codes "a" ∷ codes "b" ∷ []) (text "1" ∷ text "2" ∷ [])
      (text "1" ∷ Value.string (codes "T") (codes "2") ∷ [])
      (lacks-Lacks b';' (codes "a") refl, (lacks-Lacks b';' (codes "b") refl, tt))
      (lacks-Lacks b';' (codes "1") refl, (lacks-Lacks b';' (codes "2") refl, tt))
      (lacks-Lacks b';' (codes "1") refl, (lacks-Lacks b';' (codes "2") refl, tt)) refl refl refl

Spellable-id : Spellable (codes "blog_id", codes "id")
unfolding str_eq
Spellable-id = (
  lacks-Lacks b':' (codes "blog_id") refl,
  lacks-Lacks b',' (codes "blog_id") refl,
  lacks-Lacks b':' (codes "id") refl,
  lacks-Lacks b',' (codes "id") refl,
  str_ne (codes "id") [] refl,
)

Spellable-k : Spellable (codes "k", codes "k")
unfolding str_eq
Spellable-k = (
  lacks-Lacks b':' (codes "k") refl,
  lacks-Lacks b',' (codes "k") refl,
  lacks-Lacks b':' (codes "k") refl,
  lacks-Lacks b',' (codes "k") refl,
  str_ne (codes "k") [] refl,
)

colpairs-spell_all_example :
    colpairs (tag_of (spell_all ((codes "blog_id", codes "id") ∷ (codes "k", codes "k") ∷ [])))
    ≡ (codes "blog_id", codes "id") ∷ (codes "k", codes "k") ∷ []
colpairs-spell_all_example =
    colpairs-spell_all (codes "blog_id", codes "id") ((codes "k", codes "k") ∷ [])
      (Spellable-id, (Spellable-k, tt))
