-- ===== src/Generated/Included.antt =====
-- What the loaders of the relations do.
use goen.Prelude.{
  ℕ, ◌<◌, List, [], ◌∷◌, ◌++◌, Str, str_eq, str_eq_refl, ◌≡◌, refl, sym, ap, ap₂, fun_ext, ◌∙◌,
  subst, All, All-append, All-weaken, Option, if◌then◌else◌,
}
use goen.Go.Result.{ok}
use goen.Go.Map.{Map}
use goen.Squirrel.{Squirrel}
use goen.Dialect.{Dialect}
use goen.RowKey.{MapRowKey}
use goen.Generator.{Relation}
use goen.Scan.{Scanned}
use goen.ScopeCache.{one_to_many, many_to_one, ObjectKeys, Cached}
use goen.ScopeCache.View.{View, Represents}
use goen.ScopeCache.Laws.{list_of, IsTyped, HasKeys}
use goen.Include.{and_then}
use goen.Generated.Objects.{Object, Heap, Records}
use goen.Generated.Rows.{Runtime, Session, select_rows}
use goen.Generated.Relations.{
  related_select, identity, split_keys, State, load_split, include_related, fill_many, fill_one,
  include_many, include_one,
}
use goen.Generated.Kept.{
  children_at, parent_at, add_all_to_view, add_all_to_view-one_to_many, add_all_to_view-many_to_one,
}
use goen.Generated.Missing.{missing, selected, load_split-missing, load_split-cached}
use goen.Generated.Addresses.{allocate-many, allocate-one}
use goen.Generated.Filled.{
  IsGrown-many, PointsTo, gains, gains-eq, HasIdentity, HasPointers, fill_many-Fills,
}
use goen.Generated.Parents.{IsAssigned-one, chosen_parent, chosen_parent-eq, fill_one-Sets}
use goen.Generated.Pointers.{select_rows-IsStructOf, allocate-PointsTo, All-children_at}

-- What is cached for a one-to-many key, and behind it the objects that have the key.
abbrev pub with_children : ObjectKeys Object → List Object → View Object → Str → List Object
with_children keys objects f k = list_of (f one_to_many k) ++ children_at keys k objects

-- What is cached for a many-to-one key once the objects are.
abbrev pub with_parents :
    ObjectKeys Object → List Object → View Object → Str → Option (Cached Object)
with_parents keys objects f k = parent_at keys k objects (f many_to_one k)

module _ {q : Squirrel} {W : Type 0} (run : Runtime q W) (rel : Relation) where
  HasPointers-objects :
      (f : View Object) (objects xs : List Object)
      → All (PointsTo rel.field_type) objects
      → All (HasPointers run rel f) xs
      → All (HasPointers run rel (add_all_to_view run.keys objects f)) xs
  HasPointers-objects f objects xs ho h =
      All-weaken (HasPointers run rel f) _ xs
        (λ x i.
          subst (All (PointsTo rel.field_type))
            (sym (add_all_to_view-one_to_many run.keys (identity run rel x) objects f))
            (All-append (PointsTo rel.field_type) (list_of (f one_to_many (identity run rel x))) _ i
              (All-children_at (PointsTo rel.field_type) run.keys (identity run rel x) objects ho)))
        h

  include_many-same :
      (entity : Str) (dialect : Dialect q) (records : Records) (s : State W)
      → records.points_to ≡ entity
      → include_many run rel entity dialect records s
        ≡ and_then
            (load_split run rel dialect
              (split_keys run one_to_many rel records.objects (s.1).cache)
              s)
            λ s'. fill_many run rel records.objects s'
  unfolding include_many include_related
  include_many-same entity dialect records s h = rw (h, str_eq_refl) refl

  include_one-same :
      (entity : Str) (dialect : Dialect q) (records : Records) (s : State W)
      → records.points_to ≡ entity
      → include_one run rel entity dialect records s
        ≡ and_then
            (load_split run rel dialect
              (split_keys run many_to_one rel records.objects (s.1).cache)
              s)
            λ s'. fill_one run rel records.objects s'
  unfolding include_one include_related
  include_one-same entity dialect records s h = rw (h, str_eq_refl) refl

  -- If something is cached for each of the structs, and only pointers to structs of the relation's type
  -- are, the loader of a one-to-many relation asks the database nothing, and each struct gets exactly
  -- what is cached for it, in the relation's field, behind what that held. No identity text may have a
  -- number sign in it.
  pub include_many-cached :
      (entity : Str) (dialect : Dialect q) (records : Records) (later : List Records)
      (sn : Session W) (f : View Object)
      → records.points_to ≡ entity
      → All (HasIdentity run rel) records.objects
      → All (HasPointers run rel f) records.objects
      → Represents sn.cache f
      → missing run rel one_to_many f records.objects ≡ []
      → (a : ℕ) (g : Str)
      → (h : Heap) × (include_many run rel entity dialect records (later, sn)
          ≡ ((later, record sn { heap = h }), ok tt))
        × (h.many a g
            ≡ (sn.heap).many a g
              ++ (if str_eq rel.field_name g
                  then gains run rel (λ k. list_of (f one_to_many k)) records.objects a
                  else []))
  include_many-cached entity dialect records later sn f he hk hp hr hm a g =
      let (h, made, grown) = fill_many-Fills run rel f records.objects later sn hk hp hr in
      (
        h,
        include_many-same entity dialect records (later, sn) he
            ∙ ap (λ r. and_then r λ s'. fill_many run rel records.objects s')
                (load_split-cached run rel one_to_many dialect f records.objects later sn tt hk hr
                  hm)
            ∙ made,
        IsGrown-many rel.field_name _ sn.heap h a g grown,
      )

  -- If something is missing and its SELECT gives rows, the loader of a one-to-many relation makes a
  -- struct of each row, keeps them in the scope cache and asks for them to be included later; and
  -- each struct that was there gets, in the relation's field and behind what that held, what was
  -- cached for its row key and then, in the order of the rows, the new structs that have this key.
  -- What is cached for the row keys must be pointers to structs of the relation's type, and no identity
  -- text may have a number sign in it.
  pub include_many-children :
      (entity : Str) (dialect : Dialect q) (records : Records) (later : List Records)
      (sn : Session W) (f : View Object) (key : MapRowKey) (row_keys : List MapRowKey) (w : W)
      (rows : List Scanned)
      → records.points_to ≡ entity
      → All (HasIdentity run rel) records.objects
      → All (HasPointers run rel f) records.objects
      → IsTyped f
      → Represents sn.cache f
      → missing run rel one_to_many f records.objects ≡ key ∷ row_keys
      → select_rows run rel.field_type (related_select run dialect rel (key ∷ row_keys)) sn.world
        ≡ (w, ok rows)
      → All (HasKeys run.keys) (selected run rel rows sn.heap).0
      → (a : ℕ) (g : Str) → a < (sn.heap).next
      → let objects = (selected run rel rows sn.heap).0 in
        (m : Map (Cached Object)) × (h : Heap) × (include_many run rel entity dialect records
            (later, sn)
          ≡ (
            (
              later ++ record { points_to = rel.field_type; objects = objects } ∷ [],
              record { cache = m; heap = h; world = w },
            ),
            ok tt,
          ))
        × Represents m (add_all_to_view run.keys objects f)
        × (h.many a g
            ≡ (sn.heap).many a g
              ++ (if str_eq rel.field_name g
                  then gains run rel (with_children run.keys objects f) records.objects a
                  else []))
  include_many-children entity dialect records later sn f key row_keys w rows he hk hp ht hr hm hs
        ho a g l =
      let (objects, heap) = selected run rel rows sn.heap in
      let (m, made, same) =
        load_split-missing run rel one_to_many dialect f records.objects later sn key row_keys w
          rows tt hk ht hr hm hs ho in
      let view = add_all_to_view run.keys objects f in
      let later' = later ++ record { points_to = rel.field_type; objects = objects } ∷ [] in
      let (h, filled, grown) =
        fill_many-Fills run rel view records.objects later'
          (record { cache = m; heap = heap; world = w }) hk
          (HasPointers-objects f objects records.objects
            (allocate-PointsTo run.zero_field rel.field_type rows sn.heap
              (select_rows-IsStructOf run rel.field_type _ sn.world w rows hs))
            hp)
          same in
      (
        m,
        h,
        include_many-same entity dialect records (later, sn) he
            ∙ ap (λ r. and_then r λ s'. fill_many run rel records.objects s') made
            ∙ filled,
        same,
        IsGrown-many rel.field_name _ heap h a g grown
            ∙ ap₂ (λ old new. old ++ (if str_eq rel.field_name g then new else []))
                (allocate-many run.zero_field rows sn.heap a g l)
                (gains-eq run rel _ _ records.objects a
                  λ k. add_all_to_view-one_to_many run.keys k objects f),
      )

  -- If something is missing and its SELECT gives rows, the loader of a many-to-one relation makes a
  -- struct of each row, keeps them in the scope cache and asks for them to be included later; and
  -- each struct that was there gets, in the relation's field, the last of the new structs that have
  -- its row key, or else what was cached for that, if this is a struct of the relation's type. No
  -- identity text may have a number sign in it.
  pub include_one-parents :
      (entity : Str) (dialect : Dialect q) (records : Records) (later : List Records)
      (sn : Session W) (f : View Object) (key : MapRowKey) (row_keys : List MapRowKey) (w : W)
      (rows : List Scanned)
      → records.points_to ≡ entity
      → All (HasIdentity run rel) records.objects
      → IsTyped f
      → Represents sn.cache f
      → missing run rel many_to_one f records.objects ≡ key ∷ row_keys
      → select_rows run rel.field_type (related_select run dialect rel (key ∷ row_keys)) sn.world
        ≡ (w, ok rows)
      → All (HasKeys run.keys) (selected run rel rows sn.heap).0
      → (a : ℕ) (g : Str) → a < (sn.heap).next
      → let objects = (selected run rel rows sn.heap).0 in
        (m : Map (Cached Object)) × (h : Heap) × (include_one run rel entity dialect records
            (later, sn)
          ≡ (
            (
              later ++ record { points_to = rel.field_type; objects = objects } ∷ [],
              record { cache = m; heap = h; world = w },
            ),
            ok tt,
          ))
        × Represents m (add_all_to_view run.keys objects f)
        × (h.one a g ≡ (
            if str_eq rel.field_name g
            then chosen_parent run rel
                (with_parents run.keys objects f)
                records.objects
                a
                ((sn.heap).one a g)
            else (sn.heap).one a g))
  include_one-parents entity dialect records later sn f key row_keys w rows he hk ht hr hm hs ho a g
        l =
      let (objects, heap) = selected run rel rows sn.heap in
      let (m, made, same) =
        load_split-missing run rel many_to_one dialect f records.objects later sn key row_keys w
          rows tt hk ht hr hm hs ho in
      let view = add_all_to_view run.keys objects f in
      let later' = later ++ record { points_to = rel.field_type; objects = objects } ∷ [] in
      let (h, filled, assigned) =
        fill_one-Sets run rel view records.objects later'
          (record { cache = m; heap = heap; world = w }) hk same in
      (
        m,
        h,
        include_one-same entity dialect records (later, sn) he
            ∙ ap (λ r. and_then r λ s'. fill_one run rel records.objects s') made
            ∙ filled,
        same,
        IsAssigned-one rel.field_name _ heap h a g assigned
            ∙ ap₂ (λ old new. if str_eq rel.field_name g then new old else old)
                (allocate-one run.zero_field rows sn.heap a g l)
                (fun_ext λ old.
                  chosen_parent-eq run rel _ _ records.objects a old
                    λ k. add_all_to_view-many_to_one run.keys k objects f),
      )
