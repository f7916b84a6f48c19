-- ===== src/ScopeCache/Dump.antt =====
-- `Dump` of scope_cache.go: what it writes, line by line. The verbs %03d, %d, %#v and %T of package
-- fmt are the parameter `Verbs`.
use goen.Prelude.{ℕ, ◌+◌, List, [], ◌∷◌, ◌++◌, Str, codes, length, Option, some}
use goen.Go.Map.{Map, lookup, keys}
use goen.RowKey.{sort_strings}
use goen.ScopeCache.{Cached, slice}

pub record Verbs (A : Type 0) : Type 0 where
  pub index : ℕ → Str
  pub number : ℕ → Str
  pub go_syntax : Option (Cached A) → Str
  pub type_name : Option (Cached A) → Str

module _ {A : Type 0} (fmt : Verbs A) where
  -- What stands behind the index and the key: a slice is written out with its length. An entity is no
  -- pointer to a slice.
  abbrev pub shown_value : Option (Cached A) → Str
  shown_value (some (slice l)) =
      fmt.go_syntax (some (slice l)) ++ codes " (len=" ++ fmt.number (length l) ++ codes ")"
  shown_value val = fmt.type_name val

  unfoldable pub dump_line : ℕ → Str → Option (Cached A) → Str
  dump_line i key val =
      codes "> " ++ fmt.index i ++ codes " | " ++ key ++ codes " = " ++ shown_value val

  -- The loop over the keys, from an index on.
  unfoldable pub dump_lines : Map (Cached A) → ℕ → List Str → List Str
  unfolding dump_line
  dump_lines m i [] = []
  dump_lines m i (key ∷ ks) = dump_line i key (lookup key m) ∷ dump_lines m (i + 1) ks

  unfoldable pub dump : Map (Cached A) → List Str
  unfolding dump_lines
  dump m =
      codes "> --- ScopeCache begin ---"
      ∷ (dump_lines m 0 (sort_strings (keys m)) ++ codes "> --- ScopeCache end ---" ∷ [])
