-- ===== src/Generated/Relations.antt =====
-- The loaders that the template writes for the one-to-many and the many-to-one relations of a table.
use goen.Prelude.{Bool, List, [], ◌∷◌, ◌++◌, map, Str, str_eq, if◌then◌else◌, Option, some}
use goen.Go.Result.{Result, ok, err, panic, ◌>>=◌}
use goen.Go.Value.{Value}
use goen.Go.Map.{Map, insert}
use goen.Squirrel.{Squirrel}
use goen.Dialect.{Dialect}
use goen.RowKey.{MapRowKey, found}
use goen.Meta.{Entity}
use goen.Meta.KeyString.{key_string_of}
use goen.Generator.{Relation, RelationalColumn}
use goen.Structs.{slice}
use goen.Scan.{Scanned}
use goen.ScopeCache.{Cardinality, one_to_many, many_to_one, Cached, object, has_object, get_object}
use goen.ScopeCache.Laws.{list_of}
use goen.Include.{Loader, IncludeState, Outcome, and_then, add_records}
use goen.Generated.Objects.{
  Object, Heap, Records, set_many, set_one, is_pointer_to, as_pointer_to, allocate,
}
use goen.Generated.Rows.{Runtime, Session, select_rows, add_objects}

-- The map of `childRowKeyOf` and `parentRowKeyOf`. Both lists have the same length, and a field that
-- the struct lacks does not compile.
unfoldable pub key_entries : Entity → List RelationalColumn → List RelationalColumn → Map Value
key_entries e (fk ∷ fks) (refe ∷ refes) =
    insert refe.column_name (found (e.field_by_name fk.field_name)) (key_entries e fks refes)
key_entries e [] refes = []
key_entries e (fk ∷ fks) [] = []

-- `childRowKeyOf`, `parentRowKeyOf`
unfoldable pub related_row_key : Relation → Object → MapRowKey
unfolding key_entries
related_row_key rel x = record {
  table = rel.table_name;
  key = key_entries x.entity rel.foreign_keys rel.references;
}

-- The texts of the calls of `Or`, `Select`, `From` and `Where`.
module _ {q : Squirrel} {W : Type 0} (run : Runtime q W) (dialect : Dialect q) where
  unfoldable pub related_select : Relation → List MapRowKey → (run.builders).SelectBuilder
  related_select rel row_keys =
      let b = run.builders in
      b.select_where
        (b.from
          (b.select (q.placeholder_format q.statement_builder dialect.placeholder_format)
            (map dialect.quote rel.column_names))
          (dialect.quote rel.table_name))
        (q.or_any (map (λ k. (run.as_row_key k).sqlizer) row_keys))

module _ {q : Squirrel} {W : Type 0} (run : Runtime q W) where
  -- The text by which the scope cache knows the row key.
  unfoldable pub identity : Relation → Object → Str
  unfolding related_row_key
  identity rel x = key_string_of run.marshal (related_row_key rel x)

  abbrev pub put_key :
      Bool → MapRowKey → List MapRowKey × List MapRowKey → List MapRowKey × List MapRowKey
  put_key has key out = if has then (key ∷ out.0, out.1) else (out.0, key ∷ out.1)

  -- The loop that filters cached entities: the row keys that are cached, and those that are not.
  unfoldable pub split_keys :
      Cardinality
      → Relation
      → List Object
      → Map (Cached Object)
      → Result (List MapRowKey × List MapRowKey)
  unfolding identity has_object
  split_keys c rel [] m = ok ([], [])
  split_keys c rel (x ∷ xs) m = do
    has ← has_object c (identity rel x) m
    out ← split_keys c rel xs m
    ok (put_key has (related_row_key rel x) out)

abbrev pub State : Type 0 → Type 0
State W = IncludeState (Session W) Records

-- What is done with the state of the include buffer behind a step on the session.
abbrev pub behind_objects :
    {W : Type 0}
    → List Records
    → Outcome (Session W)
    → (Session W → Outcome (State W))
    → Outcome (State W)
behind_objects later (sn, ok x) f = f sn
behind_objects later (sn, err e) f = ((later, sn), err e)
behind_objects later (sn, panic p) f = ((later, sn), panic p)

module _ {q : Squirrel} {W : Type 0} (run : Runtime q W) (rel : Relation) where
  -- Behind the rows: the loop of `AddObject`, then `AddRecords`.
  abbrev pub keep_objects : List Object × Heap → List Records → Session W → W → Outcome (State W)
  keep_objects (objects, heap) later sn w =
      behind_objects later (add_objects run.keys objects (record sn { heap = heap; world = w }))
        λ sn'.
          add_records slice (record { points_to = rel.field_type; objects = objects }) (later, sn')

  abbrev pub keep_rows : W × Result (List Scanned) → State W → Outcome (State W)
  keep_rows (w, ok rows) (later, sn) =
      keep_objects (allocate run.zero_field rows sn.heap) later sn w
  keep_rows (w, err e) (later, sn) = ((later, record sn { world = w }), err e)
  keep_rows (w, panic p) (later, sn) = ((later, record sn { world = w }), panic p)

  -- `if len(noCachedChildRowKeys) > 0`
  unfoldable pub load_missing : Dialect q → List MapRowKey → State W → Outcome (State W)
  unfolding related_select select_rows add_objects allocate add_records
  load_missing dialect [] s = (s, ok tt)
  load_missing dialect (key ∷ row_keys) s =
      keep_rows
        (select_rows run rel.field_type (related_select run dialect rel (key ∷ row_keys))
          (s.1).world)
        s

  -- `entity.F = append(entity.F, refe.(*T))` for each of the cached objects.
  abbrev pub append_object : Object → Result Object → State W → Outcome (State W)
  append_object x (ok refe) (later, sn) = (
    (
      later,
      record sn {
        heap =
            set_many x.address rel.field_name ((sn.heap).many x.address rel.field_name ++ refe ∷ [])
              sn.heap;
      },
    ),
    ok tt,
  )
  append_object x (err e) s = (s, err e)
  append_object x (panic p) s = (s, panic p)

  unfoldable pub append_objects : Object → List Object → State W → Outcome (State W)
  unfolding as_pointer_to
  append_objects x [] s = (s, ok tt)
  append_objects x (refe ∷ refes) s =
      and_then (append_object x (as_pointer_to rel.field_type refe) s)
        λ s'. append_objects x refes s'

  -- `if refes, ok := raw.([]interface{}); ok`: of anything else nothing is appended.
  abbrev pub append_cached : Object → Result (Option (Cached Object)) → State W → Outcome (State W)
  append_cached x (ok raw) s = append_objects x (list_of raw) s
  append_cached x (err e) s = (s, err e)
  append_cached x (panic p) s = (s, panic p)

  -- The last loop of the loader of a one-to-many relation.
  unfoldable pub fill_many : List Object → State W → Outcome (State W)
  unfolding append_objects identity get_object
  fill_many [] s = (s, ok tt)
  fill_many (x ∷ xs) s =
      and_then (append_cached x (get_object one_to_many (identity run rel x) (s.1).cache) s)
        λ s'. fill_many xs s'

  -- `if castover, ok := raw.(*T); ok`
  abbrev pub set_parent : Object → Option (Cached Object) → Heap → Heap
  set_parent x (some (object parent)) heap =
      if is_pointer_to rel.field_type parent.entity.typ
      then set_one x.address rel.field_name parent heap
      else heap
  set_parent x _ heap = heap

  abbrev pub set_cached : Object → Result (Option (Cached Object)) → State W → Outcome (State W)
  set_cached x (ok raw) (later, sn) =
      ((later, record sn { heap = set_parent x raw sn.heap }), ok tt)
  set_cached x (err e) s = (s, err e)
  set_cached x (panic p) s = (s, panic p)

  -- The last loop of the loader of a many-to-one relation.
  unfoldable pub fill_one : List Object → State W → Outcome (State W)
  unfolding identity get_object
  fill_one [] s = (s, ok tt)
  fill_one (x ∷ xs) s =
      and_then (set_cached x (get_object many_to_one (identity run rel x) (s.1).cache) s)
        λ s'. fill_one xs s'

  abbrev pub load_split :
      Dialect q → Result (List MapRowKey × List MapRowKey) → State W → Outcome (State W)
  load_split dialect (ok (cached, no_cached)) s = load_missing dialect no_cached s
  load_split dialect (err e) s = (s, err e)
  load_split dialect (panic p) s = (s, panic p)

  -- All of a loader behind the test of the records' type.
  unfoldable pub include_related :
      Cardinality
      → (List Object → State W → Outcome (State W))
      → Dialect q
      → List Object
      → State W
      → Outcome (State W)
  unfolding split_keys load_missing
  include_related c fill dialect entities s =
      and_then (load_split dialect (split_keys run c rel entities (s.1).cache) s)
        λ s'. fill entities s'

  -- The loader of a one-to-many relation of the entity of that name, such as `includePosts`.
  unfoldable pub include_many : Str → Dialect q → Loader (Session W) Records
  unfolding include_related fill_many
  include_many entity dialect records s =
      if str_eq records.points_to entity
      then include_related one_to_many (λ xs s'. fill_many xs s') dialect records.objects s
      else (s, ok tt)

  -- The loader of a many-to-one relation, such as `includeBlog`.
  unfoldable pub include_one : Str → Dialect q → Loader (Session W) Records
  unfolding include_related fill_one
  include_one entity dialect records s =
      if str_eq records.points_to entity
      then include_related many_to_one (λ xs s'. fill_one xs s') dialect records.objects s
      else (s, ok tt)
