-- ===== src/ScopeCache/Laws.antt =====
-- `AddObject` and `RemoveObject` of scope_cache.go do to the map what they mean to do to the view.
use goen.Prelude.{
  false, List, [], ◌∷◌, ◌++◌, Str, str_eq, str_eq_refl, ◌≡◌, refl, ap, ◌∙◌, arith, All, All-append,
  Option, none, some, ◌⊎◌, Bool-cases, inl, inr,
}
use goen.Go.Result.{Result, ok, ◌>>=◌}
use goen.Go.Map.{Map}
use goen.ScopeCache.{
  Cardinality, no_cardinality, one_to_many, many_to_one, other, suffix, to_cache_key, ObjectKeys,
  Cached, object, slice, as_slice, is_some, get_object, has_object, add_one_to_many,
  add_many_to_one, add_object, remove_keys, remove_object,
}
use goen.ScopeCache.View.{
  IsKey, IsProper, same, View, put, drop, Represents, Represents-insert, Represents-delete,
}

module _ {A : Type 0} where
  abbrev pub list_of : Option (Cached A) → List A
  list_of none = []
  list_of (some (slice l)) = l
  list_of (some (object x)) = []

  -- The entries of one-to-many relations are slices.
  abbrev pub IsTyped : View A → Type 0
  IsTyped f = (k : Str) → as_slice (f one_to_many k) ≡ ok (list_of (f one_to_many k))

  abbrev pub append_child : A → Str → View A → View A
  append_child v k f = put one_to_many k (slice (list_of (f one_to_many k) ++ v ∷ [])) f

  abbrev pub append_children : A → List Str → View A → View A
  append_children v [] f = f
  append_children v (k ∷ ks) f = append_children v ks (append_child v k f)

  abbrev pub put_parents : A → List Str → View A → View A
  put_parents v [] f = f
  put_parents v (k ∷ ks) f = put_parents v ks (put many_to_one k (object v) f)

  abbrev pub drop_keys : List Str → View A → View A
  drop_keys [] f = f
  drop_keys (k ∷ ks) f =
      drop_keys ks (drop many_to_one k (drop one_to_many k (drop no_cardinality k f)))

  -- The results of a method: it returns, and the map stands for a view.
  abbrev pub Returns : Result (Map (Cached A)) → View A → Type 0
  Returns r f = (m : Map (Cached A)) × (r ≡ ok m) × Represents m f

  IsTyped-put_slice :
      (f : View A) (k : Str) (l : List A) → IsTyped f → IsTyped (put one_to_many k (slice l) f)
  IsTyped-put_slice f k l h j = elim (Bool-cases (str_eq k j)) [ inl e ↦ rw e | inr e ↦ rw e (h j) ]

  IsTyped-children :
      (v : A) (ks : List Str) (f : View A) → IsTyped f → IsTyped (append_children v ks f)
  IsTyped-children v [] f h = h
  IsTyped-children v (k ∷ ks) f h = IsTyped-children v ks _ (IsTyped-put_slice f k _ h)

  IsTyped-parents : (v : A) (ks : List Str) (f : View A) → IsTyped f → IsTyped (put_parents v ks f)
  IsTyped-parents v [] f h = h
  IsTyped-parents v (k ∷ ks) f h = IsTyped-parents v ks _ h

  add_one_to_many-Returns :
      (v : A) (ks : List Str) (m : Map (Cached A)) (f : View A)
      → All IsKey ks
      → IsTyped f
      → Represents m f
      → Returns (add_one_to_many v ks m) (append_children v ks f)
  unfolding add_one_to_many to_cache_key
  add_one_to_many-Returns v [] m f hk ht h = (m, refl, h)
  add_one_to_many-Returns v (k ∷ ks) m f hk ht h =
      rw (h one_to_many k tt hk.0, ht k)
        (add_one_to_many-Returns v ks _ (append_child v k f) hk.1 (IsTyped-put_slice f k _ ht)
          (Represents-insert m f one_to_many k _ tt hk.0 h))

  add_many_to_one-Returns :
      (v : A) (ks : List Str) (m : Map (Cached A)) (f : View A)
      → All IsKey ks
      → Represents m f
      → Returns (add_many_to_one v ks m) (put_parents v ks f)
  unfolding add_many_to_one to_cache_key
  add_many_to_one-Returns v [] m f hk h = (m, refl, h)
  add_many_to_one-Returns v (k ∷ ks) m f hk h =
      add_many_to_one-Returns v ks _ (put many_to_one k (object v) f) hk.1
        (Represents-insert m f many_to_one k (object v) tt hk.0 h)

  remove_keys-Returns :
      (ks : List Str) (m : Map (Cached A)) (f : View A)
      → All IsKey ks
      → Represents m f
      → Returns (remove_keys ks m) (drop_keys ks f)
  unfolding remove_keys to_cache_key
  remove_keys-Returns [] m f hk h = (m, refl, h)
  remove_keys-Returns (k ∷ ks) m f hk h = remove_keys-Returns ks _ _ hk.1 (
      Represents-delete _ _ many_to_one k tt hk.0 (
        Represents-delete _ _ one_to_many k tt hk.0
          (Represents-delete _ _ no_cardinality k tt hk.0 h)))

  put_parents-no_cardinality :
      (v : A) (ks : List Str) (f : View A) (k : Str)
      → put_parents v ks f no_cardinality k ≡ f no_cardinality k
  put_parents-no_cardinality v [] f k = refl
  put_parents-no_cardinality v (x ∷ ks) f k = put_parents-no_cardinality v ks _ k

  append_children-no_cardinality :
      (v : A) (ks : List Str) (f : View A) (k : Str)
      → append_children v ks f no_cardinality k ≡ f no_cardinality k
  append_children-no_cardinality v [] f k = refl
  append_children-no_cardinality v (x ∷ ks) f k = append_children-no_cardinality v ks _ k

  drop-none : (d c : Cardinality) (j k : Str) (f : View A) → f c k ≡ none → drop d j f c k ≡ none
  drop-none d c j k f h = ground arith

  drop_keys-none :
      (ks : List Str) (f : View A) (c : Cardinality) (k : Str)
      → f c k ≡ none
      → drop_keys ks f c k ≡ none
  drop_keys-none [] f c k h = h
  drop_keys-none (x ∷ ks) f c k h = drop_keys-none ks _ c k (
      drop-none many_to_one c x k (drop one_to_many x (drop no_cardinality x f)) (
        drop-none one_to_many c x k (drop no_cardinality x f) (drop-none no_cardinality c x k f h)))

  drop_keys_self :
      (k : Str) (f : View A) (c : Cardinality)
      → IsProper c
      → drop many_to_one k (drop one_to_many k (drop no_cardinality k f)) c k ≡ none
  drop_keys_self k f no_cardinality p = rw str_eq_refl
  drop_keys_self k f one_to_many p = rw str_eq_refl
  drop_keys_self k f many_to_one p = rw str_eq_refl
  drop_keys_self k f (other n) p = absurd p

abbrev pub Elem : Str → List Str → Type 0
Elem k [] = ⊥
Elem k (x ∷ xs) = (x ≡ k) ⊎ Elem k xs

IsKey-Elem : (ks : List Str) (k : Str) → All IsKey ks → Elem k ks → IsKey k
IsKey-Elem [] k h e = absurd e
IsKey-Elem (x ∷ ks) k h (inl e) = rw (← e) h.0
IsKey-Elem (x ∷ ks) k h (inr e) = IsKey-Elem ks k h.1 e

drop_keys-Elem :
    {A : Type 0} (ks : List Str) (f : View A) (c : Cardinality) (k : Str)
    → IsProper c
    → Elem k ks
    → drop_keys ks f c k ≡ none
drop_keys-Elem [] f c k p e = absurd e
drop_keys-Elem (x ∷ ks) f c k p (inl e) = rw e (drop_keys-none ks _ c k (drop_keys_self k f c p))
drop_keys-Elem (x ∷ ks) f c k p (inr e) = drop_keys-Elem ks _ c k p e

proper-key : (c : Cardinality) (k : Str) → IsProper c → to_cache_key c k ≡ ok (k ++ suffix c)
unfolding to_cache_key
proper-key no_cardinality k p = refl
proper-key one_to_many k p = refl
proper-key many_to_one k p = refl
proper-key (other n) k p = absurd p

module _ {A : Type 0} (meta : ObjectKeys A) where
  -- No identity text of the object has a number sign in it.
  pub record HasKeys (v : A) : Type 0 where
    pub primary : IsKey (meta.primary v)
    pub references : All IsKey (meta.references v)
    pub one_to_many : All IsKey (meta.one_to_many_references v)
    pub many_to_one : All IsKey (meta.many_to_one_references v)

  abbrev pub add_to_view : A → View A → View A
  add_to_view v f = put_parents v (meta.many_to_one_references v) (
      append_children v (meta.one_to_many_references v)
        (put no_cardinality (meta.primary v) (object v) f))

  abbrev pub remove_from_view : A → View A → View A
  remove_from_view v = drop_keys (meta.references v ++ meta.primary v ∷ [])

  -- Adding an object returns, and the map stands for the view in which the object is the entry of
  -- its primary key and of each many-to-one key, and is appended to the slice of each one-to-many
  -- key; the entries of one-to-many keys stay slices. No identity text of the object may have a
  -- number sign in it.
  pub add_object-Represents :
      (v : A) (m : Map (Cached A)) (f : View A)
      → HasKeys v
      → IsTyped f
      → Represents m f
      → Returns (add_object meta v m) (add_to_view v f) × IsTyped (add_to_view v f)
  unfolding add_object
  add_object-Represents v m f hk ht h =
      let f' : View A = put no_cardinality (meta.primary v) (object v) f in
      let (m', made, same) =
        add_one_to_many-Returns v (meta.one_to_many_references v) _ f' hk.one_to_many ht
          (Represents-insert m f no_cardinality (meta.primary v) (object v) tt hk.primary h) in
      (
        rw made
            (add_many_to_one-Returns v (meta.many_to_one_references v) m' _ hk.many_to_one same),
        IsTyped-parents v (meta.many_to_one_references v)
            (append_children v (meta.one_to_many_references v) f')
            (IsTyped-children v (meta.one_to_many_references v) f' ht),
      )

  -- Removing an object returns, and the map stands for the view without the entries, of every
  -- cardinality, of its primary key and its reference keys. No identity text of the object may have
  -- a number sign in it.
  pub remove_object-Represents :
      (v : A) (m : Map (Cached A)) (f : View A)
      → HasKeys v
      → Represents m f
      → Returns (remove_object meta v m) (remove_from_view v f)
  unfolding remove_object
  remove_object-Represents v m f hk h =
      remove_keys-Returns (meta.references v ++ meta.primary v ∷ []) m f
        (All-append IsKey (meta.references v) _ hk.references (hk.primary, tt)) h

  -- Reads see the view that the map stands for, for each of the three cardinalities and a key without
  -- a number sign.
  pub get_object-Represents :
      (m : Map (Cached A)) (f : View A) (c : Cardinality) (k : Str)
      → Represents m f
      → IsProper c
      → IsKey k
      → get_object c k m ≡ ok (f c k)
  unfolding get_object
  get_object-Represents m f c k h p hk = rw (proper-key c k p, h c k p hk)

  pub has_object-Represents :
      (m : Map (Cached A)) (f : View A) (c : Cardinality) (k : Str)
      → Represents m f
      → IsProper c
      → IsKey k
      → has_object c k m ≡ ok (is_some (f c k))
  unfolding has_object
  has_object-Represents m f c k h p hk = rw (proper-key c k p, h c k p hk)

  -- An object that has been added is found by its primary key. No identity text of the object may
  -- have a number sign in it.
  pub get_object-add_object :
      (v : A) (m : Map (Cached A)) (f : View A)
      → HasKeys v
      → IsTyped f
      → Represents m f
      → (m' : Map (Cached A)) × (add_object meta v m ≡ ok m')
        × (get_object no_cardinality (meta.primary v) m' ≡ ok (some (object v)))
  get_object-add_object v m f hk ht h =
      let ((m', made, same), _) = add_object-Represents v m f hk ht h in
      (
        m',
        made,
        get_object-Represents m' (add_to_view v f) no_cardinality (meta.primary v) same tt
              hk.primary
            ∙ ap ok (
                put_parents-no_cardinality v (meta.many_to_one_references v) _ (meta.primary v)
                ∙ append_children-no_cardinality v (meta.one_to_many_references v) _
                    (meta.primary v)
                ∙ rw str_eq_refl),
      )

  -- After an object is removed the cache has nothing under its primary key or any of its reference
  -- keys, for each of the three cardinalities. No identity text of the object may have a number sign
  -- in it.
  pub has_object-remove_object :
      (v : A) (m : Map (Cached A)) (f : View A)
      → HasKeys v
      → Represents m f
      → (c : Cardinality) (k : Str) → IsProper c
      → Elem k (meta.references v ++ meta.primary v ∷ [])
      → (remove_object meta v m >>= has_object c k) ≡ ok false
  unfolding has_object
  has_object-remove_object v m f hk h c k p e =
      let ks = meta.references v ++ meta.primary v ∷ [] in
      let keys : All IsKey ks =
        All-append IsKey (meta.references v) _ hk.references (hk.primary, tt) in
      let (m', made, same) = remove_object-Represents v m f hk h in
      rw made
        (rw (proper-key c k p, same c k p (IsKey-Elem ks k keys e), drop_keys-Elem ks f c k p e))
