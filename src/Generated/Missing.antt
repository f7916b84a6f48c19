-- ===== src/Generated/Missing.antt =====
-- The part of the loaders that asks the database for what is not cached.
use goen.Prelude.{List, [], ◌∷◌, ◌++◌, ◌≡◌, refl, ap, ◌∙◌, All, if◌then◌else◌, inl, inr, Bool-cases}
use goen.Go.Result.{ok}
use goen.Go.Map.{Map}
use goen.Squirrel.{Squirrel}
use goen.Dialect.{Dialect}
use goen.RowKey.{MapRowKey}
use goen.Generator.{Relation}
use goen.Scan.{Scanned}
use goen.ScopeCache.{Cardinality, Cached, is_some}
use goen.ScopeCache.View.{IsProper, View, Represents}
use goen.ScopeCache.Laws.{IsTyped, HasKeys, has_object-Represents}
use goen.Structs.{slice}
use goen.Include.{add_records}
use goen.Generated.Objects.{Object, Heap, Records, allocate}
use goen.Generated.Rows.{Runtime, Session, select_rows}
use goen.Generated.Relations.{
  related_row_key, related_select, identity, split_keys, behind_objects, keep_rows, load_missing,
  load_split,
}
use goen.Generated.Kept.{add_all_to_view, add_objects-IsKept}
use goen.Generated.Filled.{HasIdentity}

module _ {q : Squirrel} {W : Type 0} (run : Runtime q W) (rel : Relation) where
  -- The row keys of the structs for which nothing is cached, in order.
  abbrev pub missing : Cardinality → View Object → List Object → List MapRowKey
  missing c f [] = []
  missing c f (x ∷ xs) =
      let rest = missing c f xs in
      if is_some (f c (identity run rel x)) then rest else related_row_key rel x ∷ rest

  split_keys-missing :
      (c : Cardinality) (f : View Object) (xs : List Object) (m : Map (Cached Object))
      → IsProper c
      → All (HasIdentity run rel) xs
      → Represents m f
      → (cached : List MapRowKey) × (split_keys run c rel xs m ≡ ok (cached, missing c f xs))
  unfolding split_keys
  split_keys-missing c f [] m p hk hr = ([], refl)
  split_keys-missing c f (x ∷ xs) m p hk hr =
      let (cached, made) = split_keys-missing c f xs m p hk.1 hr in
      let key = related_row_key rel x in
      elim (Bool-cases (is_some (f c (identity run rel x)))) [
        | inl e ↦ (
          key ∷ cached,
          rw (has_object-Represents run.keys m f c (identity run rel x) hr p hk.0, made, e) refl,
        )
        | inr e ↦ (
          cached,
          rw (has_object-Represents run.keys m f c (identity run rel x) hr p hk.0, made, e) refl,
        )
      ]

  -- The structs that a SELECT of the row keys gives, with the heap that has them.
  abbrev pub selected : List Scanned → Heap → List Object × Heap
  selected rows h = allocate run.zero_field rows h

  -- A loader behind the records' type, once the SELECT gave rows.
  pub load_split-missing :
      (c : Cardinality) (dialect : Dialect q) (f : View Object) (xs : List Object)
      (later : List Records) (sn : Session W) (key : MapRowKey) (row_keys : List MapRowKey) (w : W)
      (rows : List Scanned)
      → IsProper c
      → All (HasIdentity run rel) xs
      → IsTyped f
      → Represents sn.cache f
      → missing c f xs ≡ key ∷ row_keys
      → select_rows run rel.field_type (related_select run dialect rel (key ∷ row_keys)) sn.world
        ≡ (w, ok rows)
      → All (HasKeys run.keys) (selected rows sn.heap).0
      → (m : Map (Cached Object)) × (load_split run rel dialect
            (split_keys run c rel xs sn.cache)
            (later, sn)
          ≡ (
            (
              later
                  ++ record { points_to = rel.field_type; objects = (selected rows sn.heap).0 }
                    ∷ [],
              record { cache = m; heap = (selected rows sn.heap).1; world = w },
            ),
            ok tt,
          ))
        × Represents m (add_all_to_view run.keys (selected rows sn.heap).0 f)
  unfolding load_missing add_records
  load_split-missing c dialect f xs later sn key row_keys w rows p hk ht hr hm hs ho =
      let (cached, split) = split_keys-missing c f xs sn.cache p hk hr in
      let (objects, heap) = selected rows sn.heap in
      let sn' : Session W = record sn { heap = heap; world = w } in
      let (m, made, same, typed) = add_objects-IsKept run.keys objects f sn' ho ht hr in
      (
        m,
        ap (λ r. load_split run rel dialect r (later, sn)) (split ∙ ap (λ ks. ok (cached, ks)) hm)
            ∙ ap (λ r. keep_rows run rel r (later, sn)) hs
            ∙ ap
                (λ r. behind_objects later r λ t.
                  add_records slice (record { points_to = rel.field_type; objects = objects })
                    (later, t))
                made,
        same,
      )

  pub load_split-cached :
      (c : Cardinality) (dialect : Dialect q) (f : View Object) (xs : List Object)
      (later : List Records) (sn : Session W)
      → IsProper c
      → All (HasIdentity run rel) xs
      → Represents sn.cache f
      → missing c f xs ≡ []
      → load_split run rel dialect (split_keys run c rel xs sn.cache) (later, sn)
        ≡ ((later, sn), ok tt)
  unfolding load_missing
  load_split-cached c dialect f xs later sn p hk hr hm =
      let (cached, split) = split_keys-missing c f xs sn.cache p hk hr in
      ap (λ r. load_split run rel dialect r (later, sn)) (split ∙ ap (λ ks. ok (cached, ks)) hm)
