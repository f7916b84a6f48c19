-- ===== src/Meta/Patches.antt =====
-- The patches that meta.go makes of an entity.
use goen.Prelude.{
  false, ◌&&◌, List, [], ◌∷◌, Str, length, Option, none, some, ◌≡◌, refl, ap, inl, inr,
  if◌then◌else◌, Bool-cases, suc,
}
use goen.Go.Result.{ok}
use goen.Go.Value.{Value, is_empty_value}
use goen.Squirrel.{Squirrel}
use goen.RowKey.{MapRowKey, RowKey}
use goen.Patch.{Patch, PatchKind}
use goen.Compiler.Effect.Default.{IsSound}
use goen.Meta.{MetaColumn, MetaTable, Entity}
use goen.Meta.Entities.{
  add_pair, kept_value, insert_columns, update_columns, insert_patch_of, update_patch_of,
  primary_key_of,
}

-- A column with its value, as it goes into a patch.
abbrev pub pairs : List Str × List Value → List (Str × Value)
pairs ([], vs) = []
pairs (c ∷ cs, []) = []
pairs (c ∷ cs, v ∷ vs) = (c, v) ∷ pairs (cs, vs)

-- The pairs of the columns that are written, in the order of the columns.
abbrev pub kept_pairs : Entity → List MetaColumn → List (Str × Value)
kept_pairs e [] = []
kept_pairs e (c ∷ cs) = elim (e.field_by_name c.field.name) [
  | none ↦ kept_pairs e cs
  | some v ↦
      if c.omit_empty && is_empty_value v
      then kept_pairs e cs
      else (c.column_name, v) ∷ kept_pairs e cs
]

abbrev pub not_of_key : List MetaColumn → List MetaColumn
not_of_key [] = []
not_of_key (c ∷ cs) = if c.part_of_primary_key then not_of_key cs else c ∷ not_of_key cs

add_pair-length :
    (name : Str) (o : Option Value) (out : List Str × List Value)
    → length out.0 ≡ length out.1
    → length (add_pair name o out).0 ≡ length (add_pair name o out).1
add_pair-length name none out h = h
add_pair-length name (some v) out h = ap suc h

insert_columns-length :
    (e : Entity) (cs : List MetaColumn)
    → length (insert_columns e cs).0 ≡ length (insert_columns e cs).1
unfolding insert_columns
insert_columns-length e [] = refl
insert_columns-length e (c ∷ cs) =
    add_pair-length c.column_name _ (insert_columns e cs) (insert_columns-length e cs)

update_columns-insert_columns :
    (e : Entity) (cs : List MetaColumn) → update_columns e cs ≡ insert_columns e (not_of_key cs)
unfolding update_columns insert_columns
update_columns-insert_columns e [] = refl
update_columns-insert_columns e (c ∷ cs) = elim (Bool-cases c.part_of_primary_key) [
  | inl h ↦ rw h (update_columns-insert_columns e cs)
  | inr h ↦ rw h (ap (add_pair c.column_name _) (update_columns-insert_columns e cs))
]

add_pair-pairs :
    (name : Str) (o : Option Value) (c : MetaColumn) (out : List Str × List Value)
    (ps : List (Str × Value))
    → pairs out ≡ ps
    → pairs (add_pair name (kept_value c o) out) ≡ elim o [
      | none ↦ ps
      | some v ↦ if c.omit_empty && is_empty_value v then ps else (name, v) ∷ ps
    ]
unfolding kept_value
add_pair-pairs name none c out ps h = h
add_pair-pairs name (some v) c out ps h = elim (Bool-cases (c.omit_empty && is_empty_value v)) [
  | inl e ↦ rw e h
  | inr e ↦ rw e (ap (λ r. (name, v) ∷ r) h)
]

insert_columns-pairs :
    (e : Entity) (cs : List MetaColumn) → pairs (insert_columns e cs) ≡ kept_pairs e cs
unfolding insert_columns
insert_columns-pairs e [] = refl
insert_columns-pairs e (c ∷ cs) =
    add_pair-pairs c.column_name _ c (insert_columns e cs) (kept_pairs e cs)
      (insert_columns-pairs e cs)

module _ {q : Squirrel} (as_row_key : MapRowKey → RowKey q) (tbl : MetaTable) (e : Entity) where
  -- An insert patch of an entity has the table's name, and for each column of the table, in order,
  -- its name with the value that the entity has in its field, unless the entity lacks the field or
  -- the column is `omitempty` and the value is empty. The default compiler accepts the patch.
  pub insert_patch_of-pairs :
      let p = insert_patch_of as_row_key tbl e in
      IsSound p
      × (p.table_name ≡ tbl.table_name)
      × (pairs (p.columns, p.values) ≡ kept_pairs e tbl.columns)
  unfolding insert_patch_of
  insert_patch_of-pairs = (
    record { known = refl; paired = insert_columns-length e tbl.columns },
    refl,
    insert_columns-pairs e tbl.columns,
  )

  -- If the entity has a primary key, its update patch writes the same columns as its insert patch
  -- but those of the primary key, which select the row. The default compiler accepts the patch.
  pub update_patch_of-pairs :
      (key : MapRowKey)
      → primary_key_of tbl e ≡ ok key
      → (p : Patch q) × (update_patch_of as_row_key tbl e ≡ ok p)
        × IsSound p
        × (p.row_key ≡ some (as_row_key key))
        × (pairs (p.columns, p.values) ≡ kept_pairs e (not_of_key tbl.columns))
  unfolding update_patch_of
  update_patch_of-pairs key h = (
    record {
      kind = PatchKind.update;
      table_name = tbl.table_name;
      row_key = some (as_row_key key);
      columns = (update_columns e tbl.columns).0;
      values = (update_columns e tbl.columns).1;
      nil_values = false;
    },
    rw h refl,
    record { known = refl; paired = rw update_columns-insert_columns (insert_columns-length e _) },
    refl,
    rw update_columns-insert_columns (insert_columns-pairs e _),
  )
