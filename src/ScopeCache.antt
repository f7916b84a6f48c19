-- ===== src/ScopeCache.antt =====
-- scope_cache.go: the cache of loaded entities, by the identity texts of their keys. The lock is
-- held for the whole of each method, so that a method is one step.
pub mod View
pub mod Laws
pub mod Dump
use goen.Prelude.{Bool, true, false, List, [], ◌∷◌, ◌++◌, Str, codes, ℤ, Option, none, some}
use goen.Go.Result.{Result, ok, panic, message, ◌>>=◌}
use goen.Go.Map.{Map, lookup, insert, delete}

-- `Cardinality` is an int: `other` stands for every value but the three constants.
pub data Cardinality : Type 0 where
  no_cardinality one_to_many many_to_one : Cardinality
  other : ℤ → Cardinality

abbrev pub suffix : Cardinality → Str
suffix no_cardinality = []
suffix one_to_many = codes "#cardinality=OneToMany"
suffix many_to_one = codes "#cardinality=ManyToOne"
suffix (other n) = []

unfoldable pub to_cache_key : Cardinality → Str → Result Str
to_cache_key (other n) key = panic (message "goen: invalid Cardinality: " [])
to_cache_key c key = ok (key ++ suffix c)

-- What the cache asks of `MetaSchema`: the identity texts of the keys of an object, that is,
-- `KeyStringFromRowKey` of `PrimaryKeyOf`, `ReferenceKeysOf` and the two others.
pub record ObjectKeys (A : Type 0) : Type 0 where
  pub primary : A → Str
  pub references : A → List Str
  pub one_to_many_references : A → List Str
  pub many_to_one_references : A → List Str

-- A value of the map `data`: an object, or a slice of objects.
pub data Cached (A : Type 0) : Type 0 where
  object : A → Cached A
  slice : List A → Cached A

module _ {A : Type 0} where
  unfoldable pub get_object : Cardinality → Str → Map (Cached A) → Result (Option (Cached A))
  unfolding to_cache_key
  get_object c row_key m = do key ← to_cache_key c row_key; ok (lookup key m)

  abbrev pub is_some : Option (Cached A) → Bool
  is_some none = false
  is_some (some x) = true

  unfoldable pub has_object : Cardinality → Str → Map (Cached A) → Result Bool
  unfolding to_cache_key
  has_object c row_key m = do key ← to_cache_key c row_key; ok (is_some (lookup key m))

  -- `cached.([]interface{})`
  abbrev pub as_slice : Option (Cached A) → Result (List A)
  as_slice none = ok []
  as_slice (some (slice l)) = ok l
  as_slice (some (object x)) =
      panic (message "interface conversion: interface {} is not []interface {}" [])

  -- The loop over the one-to-many keys.
  unfoldable pub add_one_to_many : A → List Str → Map (Cached A) → Result (Map (Cached A))
  add_one_to_many v [] m = ok m
  add_one_to_many v (refe ∷ refes) m = do
    key ← to_cache_key one_to_many refe
    l ← as_slice (lookup key m)
    add_one_to_many v refes (insert key (slice (l ++ v ∷ [])) m)

  -- The loop over the many-to-one keys.
  unfoldable pub add_many_to_one : A → List Str → Map (Cached A) → Result (Map (Cached A))
  add_many_to_one v [] m = ok m
  add_many_to_one v (refe ∷ refes) m = do
    key ← to_cache_key many_to_one refe
    add_many_to_one v refes (insert key (object v) m)

  -- The inner loop of `RemoveObject`.
  unfoldable pub remove_key : Str → List Cardinality → Map (Cached A) → Result (Map (Cached A))
  remove_key key [] m = ok m
  remove_key key (c ∷ cs) m = do
    cache_key ← to_cache_key c key
    remove_key key cs (delete cache_key m)

  -- The outer loop of `RemoveObject`.
  unfoldable pub remove_keys : List Str → Map (Cached A) → Result (Map (Cached A))
  unfolding remove_key
  remove_keys [] m = ok m
  remove_keys (key ∷ keys) m = do
    m' ← remove_key key (no_cardinality ∷ one_to_many ∷ many_to_one ∷ []) m
    remove_keys keys m'

module _ {A : Type 0} (meta : ObjectKeys A) where
  unfoldable pub add_object : A → Map (Cached A) → Result (Map (Cached A))
  unfolding add_one_to_many add_many_to_one to_cache_key
  add_object v m = do
    key ← to_cache_key no_cardinality (meta.primary v)
    m' ← add_one_to_many v (meta.one_to_many_references v) (insert key (object v) m)
    add_many_to_one v (meta.many_to_one_references v) m'

  unfoldable pub remove_object : A → Map (Cached A) → Result (Map (Cached A))
  unfolding remove_keys
  remove_object v m = remove_keys (meta.references v ++ meta.primary v ∷ []) m
