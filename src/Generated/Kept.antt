-- ===== src/Generated/Kept.antt =====
-- What the scope cache holds behind the loop of `AddObject` over the structs of a SELECT.
use goen.Prelude.{
  List, [], ◌∷◌, ◌++◌, Str, str_eq, ◌≡◌, refl, sym, ap, ◌∙◌, append_assoc, append-nil, All, Option,
  some, if◌then◌else◌, inl, inr, Bool-cases, str_eq_iff, str_eq_refl,
}
use goen.Go.Result.{ok}
use goen.Go.Map.{Map}
use goen.ScopeCache.{no_cardinality, one_to_many, many_to_one, ObjectKeys, Cached, object}
use goen.ScopeCache.View.{View, Represents, put}
use goen.ScopeCache.Laws.{
  list_of, IsTyped, HasKeys, append_children, append_child, put_parents, add_to_view,
  add_object-Represents,
}
use goen.Include.{and_then}
use goen.Generated.Objects.{Object}
use goen.Generated.Rows.{Session, with_cache, add_objects}

-- Once for each time that the key is among the keys.
abbrev pub occurrences : {A : Type 0} → A → Str → List Str → List A
occurrences v k [] = []
occurrences v k (j ∷ ks) = let rest = occurrences v k ks in if str_eq j k then v ∷ rest else rest

-- The objects that have the key among their one-to-many keys, in order.
abbrev pub children_at : {A : Type 0} → ObjectKeys A → Str → List A → List A
children_at keys k [] = []
children_at keys k (x ∷ xs) =
    occurrences x k (keys.one_to_many_references x) ++ children_at keys k xs

abbrev pub last_of : {A : Type 0} → A → Str → List Str → Option (Cached A) → Option (Cached A)
last_of v k [] old = old
last_of v k (j ∷ ks) old = last_of v k ks (if str_eq j k then some (object v) else old)

-- The last object that has the key among its many-to-one keys, or what was there before.
abbrev pub parent_at :
    {A : Type 0} → ObjectKeys A → Str → List A → Option (Cached A) → Option (Cached A)
parent_at keys k [] old = old
parent_at keys k (x ∷ xs) old =
    parent_at keys k xs (last_of x k (keys.many_to_one_references x) old)

abbrev pub add_all_to_view : {A : Type 0} → ObjectKeys A → List A → View A → View A
add_all_to_view keys [] f = f
add_all_to_view keys (x ∷ xs) f = add_all_to_view keys xs (add_to_view keys x f)

module _ {A : Type 0} where
  list_of-put :
      (v : A) (j k : Str) (f : View A)
      → list_of (append_child v j f one_to_many k)
        ≡ list_of (f one_to_many k) ++ occurrences v k (j ∷ [])
  list_of-put v j k f = elim (Bool-cases (str_eq j k)) [
    | inl e ↦ rw ((str_eq_iff j k).0 e, str_eq_refl) refl
    | inr e ↦ rw e (sym (append-nil _))
  ]

  occurrences-cons :
      (v : A) (j k : Str) (ks : List Str)
      → occurrences v k (j ∷ ks) ≡ occurrences v k (j ∷ []) ++ occurrences v k ks
  occurrences-cons v j k ks = elim (Bool-cases (str_eq j k)) [
    | inl e ↦ rw e refl
    | inr e ↦ rw e refl
  ]

  list_of-append_children :
      (v : A) (k : Str) (ks : List Str) (f : View A)
      → list_of (append_children v ks f one_to_many k)
        ≡ list_of (f one_to_many k) ++ occurrences v k ks
  list_of-append_children v k [] f = sym (append-nil _)
  list_of-append_children v k (j ∷ ks) f =
      list_of-append_children v k ks (append_child v j f)
      ∙ ap (λ l. l ++ occurrences v k ks) (list_of-put v j k f)
      ∙ append_assoc (list_of (f one_to_many k)) (occurrences v k (j ∷ [])) (occurrences v k ks)
      ∙ ap (λ l. list_of (f one_to_many k) ++ l) (sym (occurrences-cons v j k ks))

  put_parents-one_to_many :
      (v : A) (ks : List Str) (f : View A) (k : Str)
      → put_parents v ks f one_to_many k ≡ f one_to_many k
  put_parents-one_to_many v [] f k = refl
  put_parents-one_to_many v (x ∷ ks) f k = put_parents-one_to_many v ks _ k

  append_children-many_to_one :
      (v : A) (ks : List Str) (f : View A) (k : Str)
      → append_children v ks f many_to_one k ≡ f many_to_one k
  append_children-many_to_one v [] f k = refl
  append_children-many_to_one v (x ∷ ks) f k = append_children-many_to_one v ks _ k

  put_parents-many_to_one :
      (v : A) (ks : List Str) (f : View A) (k : Str)
      → put_parents v ks f many_to_one k ≡ last_of v k ks (f many_to_one k)
  put_parents-many_to_one v [] f k = refl
  put_parents-many_to_one v (x ∷ ks) f k = put_parents-many_to_one v ks _ k

module _ {A : Type 0} (keys : ObjectKeys A) where
  -- The slice of a one-to-many key gets the objects that have the key, in order.
  pub add_all_to_view-one_to_many :
      (k : Str) (xs : List A) (f : View A)
      → list_of (add_all_to_view keys xs f one_to_many k)
        ≡ list_of (f one_to_many k) ++ children_at keys k xs
  add_all_to_view-one_to_many k [] f = sym (append-nil _)
  add_all_to_view-one_to_many k (x ∷ xs) f =
      let f' : View A = put no_cardinality (keys.primary x) (object x) f in
      add_all_to_view-one_to_many k xs (add_to_view keys x f)
      ∙ ap (λ o. list_of o ++ children_at keys k xs)
          (put_parents-one_to_many x (keys.many_to_one_references x)
            (append_children x (keys.one_to_many_references x) f') k)
      ∙ ap (λ l. l ++ children_at keys k xs)
          (list_of-append_children x k (keys.one_to_many_references x) f')
      ∙ append_assoc (list_of (f one_to_many k)) _ (children_at keys k xs)

  -- The entry of a many-to-one key is the last object that has the key.
  pub add_all_to_view-many_to_one :
      (k : Str) (xs : List A) (f : View A)
      → add_all_to_view keys xs f many_to_one k ≡ parent_at keys k xs (f many_to_one k)
  add_all_to_view-many_to_one k [] f = refl
  add_all_to_view-many_to_one k (x ∷ xs) f =
      let f' : View A = put no_cardinality (keys.primary x) (object x) f in
      add_all_to_view-many_to_one k xs (add_to_view keys x f)
      ∙ ap (parent_at keys k xs) (
          put_parents-many_to_one x (keys.many_to_one_references x)
            (append_children x (keys.one_to_many_references x) f') k
          ∙ ap (last_of x k (keys.many_to_one_references x))
              (append_children-many_to_one x (keys.one_to_many_references x) f' k))

module _ {W : Type 0} (keys : ObjectKeys Object) where
  -- The loop returns, and the cache stands for the view with all objects.
  abbrev pub IsKept : List Object → View Object → Session W → Type 0
  IsKept xs f sn =
      (m : Map (Cached Object)) × (add_objects keys xs sn ≡ (record sn { cache = m }, ok tt))
      × Represents m (add_all_to_view keys xs f)
      × IsTyped (add_all_to_view keys xs f)

  pub add_objects-IsKept :
      (xs : List Object) (f : View Object) (sn : Session W)
      → All (HasKeys keys) xs
      → IsTyped f
      → Represents sn.cache f
      → IsKept xs f sn
  unfolding add_objects
  add_objects-IsKept [] f sn h ht hr = (sn.cache, refl, hr, ht)
  add_objects-IsKept (x ∷ xs) f sn h ht hr =
      let ((m, made, same), typed) = add_object-Represents keys x sn.cache f h.0 ht hr in
      let (m', made', same', typed') =
        add_objects-IsKept xs (add_to_view keys x f) (record sn { cache = m }) h.1 typed same in
      (
        m',
        ap (λ r. and_then (with_cache r sn) λ sn'. add_objects keys xs sn') made ∙ made',
        same',
        typed',
      )
