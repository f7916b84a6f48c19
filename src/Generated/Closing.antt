-- ===== src/Generated/Closing.antt =====
-- The rows that the loaders of the generated code open and close.
pub mod Queries
use goen.Prelude.{
  ℕ, suc, Bool, true, false, List, [], ◌∷◌, Str, str_eq, ◌≡◌, refl, sym, ap, ◌∙◌, subst, All,
  Option, none, some, if◌then◌else◌, inl, inr, Bool-cases,
}
use goen.Go.Result.{Result, ok, err, panic}
use goen.Go.Map.{Map}
use goen.Squirrel.{Squirrel}
use goen.Dialect.{Dialect}
use goen.RowKey.{MapRowKey}
use goen.Structs.{slice}
use goen.Meta.{MetaTable}
use goen.Generator.{Relation}
use goen.Scan.{SqlRows, Scanned, scan, pointer_row, struct_row}
use goen.DbContext.{DbContext, Query}
use goen.ScopeCache.{
  Cardinality, one_to_many, many_to_one, ObjectKeys, Cached, add_object, get_object,
}
use goen.ScopeCache.Laws.{list_of}
use goen.Include.{Loader, Outcome, and_then, add_records, load_list, include}
use goen.Include.Slices.{Arrays, elements}
use goen.Include.Invariants.{
  Keeps, Keeps-state, HasReturned, and_then-Keeps, OfCache, IsKeeping, load_list-IsKeeping,
  include-Keeps,
}
use goen.Generated.Objects.{Object, Heap, Records, allocate, as_pointer_to}
use goen.Generated.Rows.{
  Runtime, Session, close_behind, scan_rows, query_with, select_rows, with_cache, add_objects,
}
use goen.Generated.Relations.{
  State, identity, split_keys, related_select, behind_objects, keep_objects, keep_rows,
  load_missing, load_split, append_object, append_objects, append_cached, fill_many, set_cached,
  fill_one, include_related, include_many, include_one,
}
use goen.Generated.Builder.{
  QueryBuilder, Store, table_of, quoted_columns, included, include_records, query_rows, query_table,
  query,
}

-- A count of the rows that are open: a query that succeeds opens one, a query that fails none, and
-- closing closes one.
pub record Counts {q : Squirrel} {W : Type 0} (run : Runtime q W) (opened : W → ℕ) : Type 0 where
  pub opens :
      (x : Query) (w w' : W) (rows : SqlRows)
      → run.query_context x w ≡ (w', ok rows)
      → opened w' ≡ suc (opened w)
  pub fails :
      (x : Query) (w w' : W) (e : Str) → run.query_context x w ≡ (w', err e) → opened w' ≡ opened w
  pub closes :
      (rows : SqlRows) (w : W) (n : ℕ) → opened w ≡ suc n → opened (run.close_rows rows w) ≡ n

Keeps-if :
    {St : Type 0} (P : St → Type 0) (b : Bool) (o : Outcome St) (s : St)
    → Keeps P o
    → P s
    → Keeps P (if b then o else (s, ok tt))
Keeps-if P true o s h k = h
Keeps-if P false o s h k = k

module _ {q : Squirrel} {W : Type 0} (run : Runtime q W) (opened : W → ℕ) (n : ℕ) where
  abbrev pub Open : W → Type 0
  Open w = opened w ≡ n

  -- A session with that many open rows.
  abbrev pub IsOpen : Session W → Type 0
  IsOpen sn = opened sn.world ≡ n

  abbrev InState : State W → Type 0
  InState = OfCache {R = Records} IsOpen

  close_behind-Keeps :
      (rows : SqlRows) (w : W) (r : Result (List Scanned))
      → Counts run opened
      → opened w ≡ suc n
      → Keeps Open (close_behind run rows w r)
  close_behind-Keeps rows w (ok out) c h = c.closes rows w n h
  close_behind-Keeps rows w (err e) c h = c.closes rows w n h
  close_behind-Keeps rows w (panic p) c h = tt

  scan_rows-Keeps :
      (typ : Str) (x : Query) (w : W) (r : W × Result SqlRows)
      → Counts run opened
      → run.query_context x w ≡ r
      → Open w
      → Keeps Open (scan_rows run typ r)
  scan_rows-Keeps typ x w (w', ok rows) c e h =
      close_behind-Keeps rows w' _ c (c.opens x w w' rows e ∙ ap suc h)
  scan_rows-Keeps typ x w (w', err m) c e h = c.fails x w w' m e ∙ h
  scan_rows-Keeps typ x w (w', panic p) c e h = tt

  query_with-Keeps :
      (typ : Str) (r : Result Query) (w : W)
      → Counts run opened
      → Open w
      → Keeps Open (query_with run typ r w)
  query_with-Keeps typ (ok x) w c h = scan_rows-Keeps typ x w (run.query_context x w) c refl h
  query_with-Keeps typ (err e) w c h = h
  query_with-Keeps typ (panic p) w c h = tt

  pub select_rows-Keeps :
      (typ : Str) (builder : (run.builders).SelectBuilder) (w : W)
      → Counts run opened
      → Open w
      → Keeps Open (select_rows run typ builder w)
  unfolding select_rows
  select_rows-Keeps typ builder w c h = query_with-Keeps typ (run.select_to_sql builder) w c h

  with_cache-Keeps :
      (r : Result (Map (Cached Object))) (sn : Session W)
      → IsOpen sn
      → Keeps IsOpen (with_cache r sn)
  with_cache-Keeps (ok m) sn h = h
  with_cache-Keeps (err e) sn h = h
  with_cache-Keeps (panic p) sn h = tt

  pub add_objects-Keeps :
      (keys : ObjectKeys Object) (xs : List Object) (sn : Session W)
      → IsOpen sn
      → Keeps IsOpen (add_objects keys xs sn)
  unfolding add_objects
  add_objects-Keeps keys [] sn h = h
  add_objects-Keeps keys (x ∷ xs) sn h =
      and_then-Keeps IsOpen (with_cache (add_object keys x sn.cache) sn) _
        (with_cache-Keeps (add_object keys x sn.cache) sn h)
        λ sn' h'. add_objects-Keeps keys xs sn' h'

  behind_objects-Keeps :
      (later : List Records) (o : Outcome (Session W)) (f : Session W → Outcome (State W))
      → Keeps IsOpen o
      → ((sn : Session W) → IsOpen sn → Keeps InState (f sn))
      → Keeps InState (behind_objects later o f)
  behind_objects-Keeps later (sn, ok x) f h k = k sn h
  behind_objects-Keeps later (sn, err e) f h k = h
  behind_objects-Keeps later (sn, panic p) f h k = tt

  module _ (rel : Relation) where
    keep_rows-Keeps :
        (o : W × Result (List Scanned)) (s : State W)
        → Keeps Open o
        → Keeps InState (keep_rows run rel o s)
    unfolding add_records
    keep_rows-Keeps (w, ok rows) (later, sn) h =
        behind_objects-Keeps later (add_objects run.keys _ _) _
          (add_objects-Keeps run.keys (allocate run.zero_field rows sn.heap).0
            (record sn { heap = (allocate run.zero_field rows sn.heap).1; world = w }) h)
          λ sn' h'. h'
    keep_rows-Keeps (w, err e) (later, sn) h = h
    keep_rows-Keeps (w, panic p) (later, sn) h = tt

    load_missing-Keeps :
        (dialect : Dialect q) (keys : List MapRowKey) (s : State W)
        → Counts run opened
        → InState s
        → Keeps InState (load_missing run rel dialect keys s)
    unfolding load_missing
    load_missing-Keeps dialect [] s c h = h
    load_missing-Keeps dialect (key ∷ keys) s c h =
        keep_rows-Keeps _ s (select_rows-Keeps rel.field_type _ (s.1).world c h)

    pub load_split-Keeps :
        (dialect : Dialect q) (r : Result (List MapRowKey × List MapRowKey)) (s : State W)
        → Counts run opened
        → InState s
        → Keeps InState (load_split run rel dialect r s)
    load_split-Keeps dialect (ok (cached, no_cached)) s c h =
        load_missing-Keeps dialect no_cached s c h
    load_split-Keeps dialect (err e) s c h = h
    load_split-Keeps dialect (panic p) s c h = tt

    append_object-Keeps :
        (x : Object) (r : Result Object) (s : State W)
        → InState s
        → Keeps InState (append_object run rel x r s)
    append_object-Keeps x (ok refe) s h = h
    append_object-Keeps x (err e) s h = h
    append_object-Keeps x (panic p) s h = tt

    append_objects-Keeps :
        (x : Object) (refes : List Object) (s : State W)
        → InState s
        → Keeps InState (append_objects run rel x refes s)
    unfolding append_objects
    append_objects-Keeps x [] s h = h
    append_objects-Keeps x (refe ∷ refes) s h =
        and_then-Keeps InState (append_object run rel x (as_pointer_to rel.field_type refe) s) _
          (append_object-Keeps x (as_pointer_to rel.field_type refe) s h)
          λ s' h'. append_objects-Keeps x refes s' h'

    append_cached-Keeps :
        (x : Object) (r : Result (Option (Cached Object))) (s : State W)
        → InState s
        → Keeps InState (append_cached run rel x r s)
    append_cached-Keeps x (ok raw) s h = append_objects-Keeps x (list_of raw) s h
    append_cached-Keeps x (err e) s h = h
    append_cached-Keeps x (panic p) s h = tt

    fill_many-Keeps :
        (xs : List Object) (s : State W) → InState s → Keeps InState (fill_many run rel xs s)
    unfolding fill_many
    fill_many-Keeps [] s h = h
    fill_many-Keeps (x ∷ xs) s h =
        let raw = get_object one_to_many (identity run rel x) (s.1).cache in
        and_then-Keeps InState (append_cached run rel x raw s) (λ s'. fill_many run rel xs s')
          (append_cached-Keeps x raw s h) λ s' h'. fill_many-Keeps xs s' h'

    set_cached-Keeps :
        (x : Object) (r : Result (Option (Cached Object))) (s : State W)
        → InState s
        → Keeps InState (set_cached run rel x r s)
    set_cached-Keeps x (ok raw) s h = h
    set_cached-Keeps x (err e) s h = h
    set_cached-Keeps x (panic p) s h = tt

    fill_one-Keeps :
        (xs : List Object) (s : State W) → InState s → Keeps InState (fill_one run rel xs s)
    unfolding fill_one
    fill_one-Keeps [] s h = h
    fill_one-Keeps (x ∷ xs) s h =
        let raw = get_object many_to_one (identity run rel x) (s.1).cache in
        and_then-Keeps InState (set_cached run rel x raw s) (λ s'. fill_one run rel xs s')
          (set_cached-Keeps x raw s h) λ s' h'. fill_one-Keeps xs s' h'

    include_related-Keeps :
        (card : Cardinality) (fill : List Object → State W → Outcome (State W))
        (dialect : Dialect q) (xs : List Object) (s : State W)
        → Counts run opened
        → ((s' : State W) → InState s' → Keeps InState (fill xs s'))
        → InState s
        → Keeps InState (include_related run rel card fill dialect xs s)
    unfolding include_related
    include_related-Keeps card fill dialect xs s c k h =
        and_then-Keeps InState
          (load_split run rel dialect (split_keys run card rel xs (s.1).cache) s) _
          (load_split-Keeps dialect (split_keys run card rel xs (s.1).cache) s c h) k

    pub include_many-IsKeeping :
        (entity : Str) (dialect : Dialect q)
        → Counts run opened
        → IsKeeping IsOpen (include_many run rel entity dialect)
    unfolding include_many
    include_many-IsKeeping entity dialect c r s h =
        Keeps-if InState (str_eq r.points_to entity) _ s
          (include_related-Keeps one_to_many (λ xs s'. fill_many run rel xs s') dialect r.objects s
            c (λ s' h'. fill_many-Keeps r.objects s' h') h)
          h

    pub include_one-IsKeeping :
        (entity : Str) (dialect : Dialect q)
        → Counts run opened
        → IsKeeping IsOpen (include_one run rel entity dialect)
    unfolding include_one
    include_one-IsKeeping entity dialect c r s h =
        Keeps-if InState (str_eq r.points_to entity) _ s
          (include_related-Keeps many_to_one (λ xs s'. fill_one run rel xs s') dialect r.objects s c
            (λ s' h'. fill_one-Keeps r.objects s' h') h)
          h
