-- ===== src/Patch.antt =====
-- patch.go: the kinds of patch, the patch, and its three checked constructors.
use goen.Prelude.{
  Bool, true, false, ◌||◌, not, List, [], ◌∷◌, Str, ℤ, int_eq, length, ◌==◌, if◌then◌else◌, Option,
  none,
}
use goen.Go.Result.{Result, ok, panic, message}
use goen.Go.Value.{Value}
use goen.Squirrel.{Squirrel}
use goen.RowKey.{RowKey}

-- `PatchKind` is an int: `other` stands for every value but the three constants.
pub data PatchKind : Type 0 where
  insert update delete : PatchKind
  other : ℤ → PatchKind

unfoldable pub kind_eq : PatchKind → PatchKind → Bool
kind_eq insert insert = true
kind_eq update update = true
kind_eq delete delete = true
kind_eq (other m) (other n) = int_eq m n
kind_eq _ _ = false

pub record Patch (q : Squirrel) : Type 0 where
  pub kind : PatchKind
  pub table_name : Str
  pub row_key : Option (RowKey q)
  pub columns : List Str
  pub values : List Value
  -- whether `Values` is the nil slice, which `reflect.DeepEqual` tells from an empty one
  pub nil_values : Bool

abbrev empty_text : Str → Bool
empty_text [] = true
empty_text (c ∷ s) = false

-- The test shared by `InsertPatch` and `UpdatePatch`.
abbrev bad_columns : List Str → List Value → Bool
bad_columns cols vals = length cols == 0 || not (length cols == length vals)

module _ {q : Squirrel} where
  unfoldable pub insert_patch : Str → List Str → List Value → Result (Patch q)
  insert_patch table cols vals =
      if empty_text table
      then panic (message "goen: no tableName provided" [])
      else if bad_columns cols vals
      then panic
          (message "goen: columns and values must have least 1 element or length mismatched" [])
      else ok (record {
        kind = insert;
        table_name = table;
        row_key = none;
        columns = cols;
        values = vals;
        nil_values = false;
      })

  unfoldable pub update_patch : Str → List Str → List Value → Option (RowKey q) → Result (Patch q)
  update_patch table cols vals key =
      if empty_text table
      then panic (message "goen: no tableName provided" [])
      else if bad_columns cols vals
      then panic
          (message "goen: columns and values must have least 1 element or length mismatched" [])
      else ok (record {
        kind = update;
        table_name = table;
        row_key = key;
        columns = cols;
        values = vals;
        nil_values = false;
      })

  unfoldable pub delete_patch : Str → Option (RowKey q) → Result (Patch q)
  delete_patch table key =
      if empty_text table
      then panic (message "goen: no tableName provided" [])
      else ok (record {
        kind = delete;
        table_name = table;
        row_key = key;
        columns = [];
        values = [];
        nil_values = true;
      })
