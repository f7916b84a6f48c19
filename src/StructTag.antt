-- ===== src/StructTag.antt =====
-- internal/struct_tag.go. A reflect.StructTag is the list of its `key:"value"` pairs, in the order
-- in which its `Lookup` meets them.
pub mod Split
use goen.Prelude.{
  ℕ, Bool, true, false, List, [], ◌∷◌, map, Str, codes, str_eq, ◌==◌, get_elem?, if◌then◌else◌,
  Option, none, some,
}
use goen.Go.Map.{Map, lookup}

abbrev pub StructTag : Type 0
StructTag = Map Str

abbrev pub tag_goen : Str
tag_goen = codes "goen"

abbrev pub tag_table : Str
tag_table = codes "table"

abbrev pub tag_view : Str
tag_view = codes "view"

abbrev pub tag_primary_key : Str
tag_primary_key = codes "primary_key"

abbrev pub tag_column : Str
tag_column = codes "column"

abbrev pub tag_foreign_key : Str
tag_foreign_key = codes "foreign_key"

abbrev pub tag_ignore : Str
tag_ignore = codes "ignore"

unfoldable pub first_lookup : StructTag → List Str → Option Str
first_lookup tag [] = none
first_lookup tag (name ∷ names) = elim (lookup name tag) [
  | some s ↦ some s
  | none ↦ first_lookup tag names
]

abbrev cons_head : ℕ → List Str → List Str
cons_head c [] = (c ∷ []) ∷ []
cons_head c (p ∷ ps) = (c ∷ p) ∷ ps

-- strings.Split for a separator of one byte
unfoldable pub split : ℕ → Str → List Str
split sep [] = [] ∷ []
split sep (c ∷ s) = let rest = split sep s in if c == sep then [] ∷ rest else cons_head c rest

abbrev or_empty : Option Str → Str
or_empty none = []
or_empty (some s) = s

unfoldable pub string_at : Str → ℕ → ℕ → Str
unfolding split
string_at s sep i = or_empty (get_elem? (split sep s) i)

unfoldable pub first_not_empty : List Str → Str
first_not_empty [] = []
first_not_empty ([] ∷ strs) = first_not_empty strs
first_not_empty ((c ∷ s) ∷ strs) = c ∷ s

-- `TableSpec.Name`
unfoldable pub table_spec_name : StructTag → Str
unfolding first_lookup
table_spec_name tag = or_empty (first_lookup tag (tag_table ∷ tag_view ∷ []))

abbrev pub has : Option Str → Bool
has none = false
has (some s) = true

-- `TableSpec.ReadOnly`
unfoldable pub table_spec_read_only : StructTag → Bool
table_spec_read_only tag = has (lookup tag_view tag)

-- `ColumnSpec.Name`
unfoldable pub column_spec_name : StructTag → Str
unfolding first_lookup string_at
column_spec_name tag = elim (first_lookup tag (tag_primary_key ∷ tag_column ∷ [])) [
  | none ↦ []
  | some tv ↦ string_at tv b',' 0
]

-- `ColumnSpec.OmitEmpty`
unfoldable pub column_spec_omit_empty : StructTag → Bool
unfolding first_lookup string_at
column_spec_omit_empty tag = elim (first_lookup tag (tag_primary_key ∷ tag_column ∷ [])) [
  | none ↦ false
  | some tv ↦ str_eq (string_at tv b',' 1) (codes "omitempty")
]

abbrev default_to : Str → Str → Str
default_to [] pkey = pkey
default_to (c ∷ s) pkey = c ∷ s

-- One round of the loop of `colpairs`.
unfoldable pub colpair : Str → Str × Str
unfolding string_at
colpair ele = let pkey = string_at ele b':' 0 in (pkey, default_to (string_at ele b':' 1) pkey)

-- `ForeignKeySpec.colpairs`
unfoldable pub colpairs : StructTag → List (Str × Str)
unfolding colpair split
colpairs tag = elim (lookup tag_foreign_key tag) [
  | none ↦ []
  | some tv ↦ map colpair (split b',' tv)
]

-- `ForeignKeySpec.ParentKey`
unfoldable pub parent_key : StructTag → List Str
unfolding colpairs
parent_key tag = map (λ p. p.0) (colpairs tag)

-- `ForeignKeySpec.ChildKey`
unfoldable pub child_key : StructTag → List Str
unfolding colpairs
child_key tag = map (λ p. p.1) (colpairs tag)
