-- ===== src/Generator.antt =====
-- generator/generator.go and generator/types.go: what the templates are given for a package.
-- Fuel bounds the embedding of structs and the declarations that a type names. The functions on
-- struct types and the sort of package sort are parameters.
pub mod Relations
pub mod Packages
pub mod Imports
pub mod Keys
pub mod Walks
pub mod Tables
pub mod Sorted
pub mod Output
pub mod Loaded
pub mod Printable
pub mod Naming
pub mod Termination
use goen.Prelude.{
  Bool, true, false, ◌&&◌, ◌||◌, not, List, [], ◌∷◌, ◌++◌, Str, codes, str_eq, leb, if◌then◌else◌,
  Option, none, some, ℕ, zero, suc,
}
use goen.Go.Result.{Result, ok, err, panic, message}
use goen.Structs.{
  FieldOf, fields_by_func, is_column_field, is_primary_key_field, column_name, omit_empty,
}
use goen.Structs.Run.{Run, pure, fail, ◌>>=◌}
use goen.Asts.{GoTools}
use goen.AstTypes.{AType}
use goen.AstTypes.Shown.{type_pkg_path}
use goen.AstTypes.Kinds.{is_pointer, strip}
use goen.AstTypes.Strings.{string_with_pkg_name}

pub record Import : Type 0 where
  pub name : Str
  pub path : Str

pub record Column : Type 0 where
  pub column_name : Str
  pub is_pk : Bool
  pub omit_empty : Bool
  pub field_name : Str
  pub field_type : Str

pub record RelationalColumn : Type 0 where
  pub column_name : Str
  pub field_name : Str
  pub field_type : Str

pub record Relation : Type 0 where
  pub table_name : Str
  pub field_name : Str
  pub field_type : Str
  pub column_names : List Str
  pub foreign_keys : List RelationalColumn
  pub references : List RelationalColumn

pub record Table : Type 0 where
  pub table_name : Str
  pub read_only : Bool
  pub entity : Str
  pub columns : List Column
  pub one_to_many : List Relation
  pub many_to_one : List Relation
  pub one_to_one : List Relation

pub record Package : Type 0 where
  pub package_name : Str
  pub imports : List Import
  pub tables : List Table

-- The loop of `addImportAs` over the imports.
unfoldable pub imports_path : Str → List Import → Bool
imports_path path [] = false
imports_path path (other ∷ imports) = str_eq other.path path || imports_path path imports

-- `addImportAs`
unfoldable pub add_import_as : Str → Str → List Import → List Import
unfolding imports_path
add_import_as name path imports =
    if imports_path path imports
    then imports
    else imports ++ (record { name = name; path = path } ∷ [])

abbrev is_between : ℕ → ℕ → ℕ → Bool
is_between low high c = leb low c && leb c high

unfoldable pub is_safe : ℕ → Bool
is_safe c = is_between b'a' b'z' c || (is_between b'A' b'Z' c || is_between b'0' b'9' c)

-- A byte inside an encoded rune.
abbrev is_continuation : ℕ → Bool
is_continuation c = is_between 128 191 c

-- The second byte behind some first bytes is restricted further.
abbrev first_continuation : ℕ → ℕ → Bool
first_continuation c d =
    if is_between 224 224 c
    then is_between 160 191 d
    else if is_between 237 237 c
    then is_between 128 159 d
    else if is_between 240 240 c
    then is_between 144 191 d
    else if is_between 244 244 c
    then is_between 128 143 d
    else is_continuation d

abbrev two_more : ℕ → ℕ → ℕ
two_more c d = if first_continuation c d then 1 else 0

abbrev three_more : ℕ → ℕ → ℕ → ℕ
three_more c d e = if first_continuation c d && is_continuation e then 2 else 0

abbrev four_more : ℕ → ℕ → ℕ → ℕ → ℕ
four_more c d e f =
    if first_continuation c d && (is_continuation e && is_continuation f) then 3 else 0

-- How many bytes the rune that starts with `c` has in front of `s`, the first not counted: `range`
-- over a string decodes UTF-8, and takes a byte that starts no rune for one of its own.
unfoldable pub rune_rest : ℕ → Str → ℕ
rune_rest c [] = 0
rune_rest c (d ∷ []) = if is_between 194 223 c then two_more c d else 0
rune_rest c (d ∷ e ∷ []) =
    if is_between 194 223 c
    then two_more c d
    else if is_between 224 239 c
    then three_more c d e
    else 0
rune_rest c (d ∷ e ∷ f ∷ s) =
    if is_between 194 223 c
    then two_more c d
    else if is_between 224 239 c
    then three_more c d e
    else if is_between 240 244 c
    then four_more c d e f
    else 0

-- The loop over the runes, with the bytes of the present rune that are still to be skipped: the
-- runes that a name may have stay, and each other one becomes an underscore.
unfoldable pub safe_runes : ℕ → Str → Str
unfolding is_safe rune_rest
safe_runes skip [] = []
safe_runes (suc skip) (c ∷ s) = safe_runes skip s
safe_runes zero (c ∷ s) = (if is_safe c then c else b'_') ∷ safe_runes (rune_rest c s) s

-- `safe`, which `safePkgImport` makes of the path of a package.
unfoldable pub safe : Str → Str
unfolding safe_runes
safe path = safe_runes 0 path

-- `Imports` after a column or a field: an empty path is not imported.
abbrev pub import_type : Str × Str → List Import → List Import
import_type (pkg_name, []) imports = imports
import_type (pkg_name, c ∷ path) imports = add_import_as pkg_name (c ∷ path) imports

module _ (go : GoTools) (fuel : ℕ) where
  -- `safePkgImport`
  unfoldable pub safe_pkg_import : AType → Run (Str × Str)
  unfolding safe
  safe_pkg_import typ = do
    t ← strip go is_pointer fuel typ
    pkg_path ← fail (type_pkg_path go t)
    pure (safe pkg_path, pkg_path)

module _ (go : GoTools) (snake_case : Str → Str) (fuel : ℕ) where
  -- One round of the loop of `walkStruct` over the columns.
  unfoldable pub column_of : FieldOf AType → Run (Column × (Str × Str))
  unfolding safe_pkg_import
  column_of f = do
    name ← fail (column_name snake_case f)
    omits ← fail (omit_empty f)
    imported ← safe_pkg_import go fuel f.typ
    pure (
      record {
        column_name = name;
        is_pk = is_primary_key_field f;
        omit_empty = omits;
        field_name = f.name;
        field_type = string_with_pkg_name imported.0 f.typ.decl;
      },
      imported,
    )

  -- The whole loop, with the imports that it adds.
  unfoldable pub columns_of : List (FieldOf AType) → List Import → Run (List Column × List Import)
  unfolding column_of add_import_as
  columns_of [] imports = pure ([], imports)
  columns_of (f ∷ fs) imports = do
    (col, imported) ← column_of f
    (cols, imports) ← columns_of fs (import_type imported imports)
    pure (col ∷ cols, imports)
