-- ===== src/Generated/Parents.antt =====
-- What the last loop of the loader of a many-to-one relation does to the fields of the structs.
use goen.Prelude.{
  ℕ, ◌==◌, false, List, [], ◌∷◌, Str, str_eq, str_eq_refl, str_eq_iff, subst, ◌≡◌, refl, ap, ◌∙◌,
  All, Option, none, some, if◌then◌else◌, arith, inl, inr, Bool-cases,
}
use goen.Go.Result.{ok}
use goen.Squirrel.{Squirrel}
use goen.Generator.{Relation}
use goen.ScopeCache.{many_to_one, Cached, object, slice}
use goen.ScopeCache.View.{View, Represents}
use goen.ScopeCache.Laws.{get_object-Represents}
use goen.Include.{Outcome, and_then}
use goen.Generated.Objects.{Object, Heap, Records, is_pointer_to}
use goen.Generated.Rows.{Runtime, Session}
use goen.Generated.Relations.{State, identity, set_parent, set_cached, fill_one}
use goen.Generated.Filled.{HasIdentity}

-- The field of each struct is what `chosen` makes of it; no other field has changed.
pub record IsAssigned (field : Str) (chosen : ℕ → Option Object → Option Object) (h h' : Heap)
    : Type 0 where
  pub next : h'.next ≡ h.next
  pub one : (a : ℕ) → h'.one a field ≡ chosen a (h.one a field)
  pub others : (a : ℕ) (g : Str) → str_eq field g ≡ false → h'.one a g ≡ h.one a g
  pub many : h'.many ≡ h.many

IsAssigned-refl : (field : Str) (h : Heap) → IsAssigned field (λ a o. o) h h
IsAssigned-refl field h = record {
  next = refl;
  one = λ a. refl;
  others = λ a g e. refl;
  many = refl;
}

IsAssigned-trans :
    (field : Str) (f g : ℕ → Option Object → Option Object) (h h' h'' : Heap)
    → IsAssigned field f h h'
    → IsAssigned field g h' h''
    → IsAssigned field (λ a o. g a (f a o)) h h''
IsAssigned-trans field f g h h' h'' x y = record {
  next = y.next ∙ x.next;
  one = λ a. y.one a ∙ ap (g a) (x.one a);
  others = λ a j e. y.others a j e ∙ x.others a j e;
  many = y.many ∙ x.many;
}

-- One equation for all fields.
pub IsAssigned-one :
    (field : Str) (chosen : ℕ → Option Object → Option Object) (h h' : Heap) (a : ℕ) (g : Str)
    → IsAssigned field chosen h h'
    → h'.one a g ≡ (if str_eq field g then chosen a (h.one a g) else h.one a g)
IsAssigned-one field chosen h h' a g x = elim (Bool-cases (str_eq field g)) [
  | inl e ↦
      rw e (subst (λ j. h'.one a j ≡ chosen a (h.one a j)) ((str_eq_iff field g).0 e) (x.one a))
  | inr e ↦ rw e (x.others a g e)
]

-- The parent that a cached value is: a slice, or an object of another type, is none.
abbrev pub parent_of : Str → Option (Cached Object) → Option Object → Option Object
parent_of typ (some (object x)) old = if is_pointer_to typ x.entity.typ then some x else old
parent_of typ none old = old
parent_of typ (some (slice l)) old = old

abbrev pub at_address : ℕ → (Option Object → Option Object) → ℕ → Option Object → Option Object
at_address b f a old = if b == a then f old else old

module _ {q : Squirrel} {W : Type 0} (run : Runtime q W) (rel : Relation) where
  set_parent-IsAssigned :
      (x : Object) (raw : Option (Cached Object)) (h : Heap)
      → IsAssigned rel.field_name
          (at_address x.address (parent_of rel.field_type raw))
          h
          (set_parent run rel x raw h)
  set_parent-IsAssigned x none h = record {
    next = refl;
    one = λ a. ground arith;
    others = λ a g e. refl;
    many = refl;
  }
  set_parent-IsAssigned x (some (slice l)) h = record {
    next = refl;
    one = λ a. ground arith;
    others = λ a g e. refl;
    many = refl;
  }
  set_parent-IsAssigned x (some (object parent)) h =
      elim (Bool-cases (is_pointer_to rel.field_type parent.entity.typ)) [
        | inl e ↦ record {
          next = rw e refl;
          one = λ a. rw e (ground (arith, str_eq_refl rel.field_name));
          others = λ a g n. rw e (ground arith);
          many = rw e refl;
        }
        | inr e ↦ record {
          next = rw e refl;
          one = λ a. rw e (ground arith);
          others = λ a g n. rw e refl;
          many = rw e refl;
        }
      ]

  -- The loop returns, with the buffer, the cache and the database as they were.
  abbrev pub Sets :
      (ℕ → Option Object → Option Object) → List Records → Session W → Outcome (State W) → Type 0
  Sets chosen later sn r =
      (h : Heap) × (r ≡ ((later, record sn { heap = h }), ok tt))
      × IsAssigned rel.field_name chosen sn.heap h

  -- The parent of a struct at an address: what is cached for the last of the structs with that
  -- address for which a parent is cached.
  abbrev pub chosen_parent :
      (Str → Option (Cached Object)) → List Object → ℕ → Option Object → Option Object
  chosen_parent cached [] a old = old
  chosen_parent cached (x ∷ xs) a old =
      chosen_parent cached xs a
        (at_address x.address (parent_of rel.field_type (cached (identity run rel x))) a old)

  pub chosen_parent-eq :
      (f g : Str → Option (Cached Object)) (xs : List Object) (a : ℕ) (old : Option Object)
      → ((k : Str) → f k ≡ g k)
      → chosen_parent f xs a old ≡ chosen_parent g xs a old
  chosen_parent-eq f g [] a old e = refl
  chosen_parent-eq f g (x ∷ xs) a old e =
      chosen_parent-eq f g xs a _ e
      ∙ ap (λ o. chosen_parent g xs a (at_address x.address (parent_of rel.field_type o) a old))
          (e (identity run rel x))

  pub fill_one-Sets :
      (f : View Object) (xs : List Object) (later : List Records) (sn : Session W)
      → All (HasIdentity run rel) xs
      → Represents sn.cache f
      → Sets (chosen_parent (λ k. f many_to_one k) xs) later sn (fill_one run rel xs (later, sn))
  unfolding fill_one
  fill_one-Sets f [] later sn hk hr = (sn.heap, refl, IsAssigned-refl rel.field_name sn.heap)
  fill_one-Sets f (x ∷ xs) later sn hk hr =
      let raw = f many_to_one (identity run rel x) in
      let h' = set_parent run rel x raw sn.heap in
      let (h'', made, same) = fill_one-Sets f xs later (record sn { heap = h' }) hk.1 hr in
      (
        h'',
        ap (λ r. and_then (set_cached run rel x r (later, sn)) λ s'. fill_one run rel xs s')
              (get_object-Represents run.keys sn.cache f many_to_one (identity run rel x) hr tt
                hk.0)
            ∙ made,
        IsAssigned-trans rel.field_name _ _ _ h' h'' (set_parent-IsAssigned x raw sn.heap) same,
      )
