-- ===== src/Generated/Filled.antt =====
-- What the last loops of the loaders do to the fields of the structs.
use goen.Prelude.{
  ℕ, ◌==◌, true, false, List, [], ◌∷◌, ◌++◌, Str, str_eq, str_eq_refl, str_eq_iff, subst, ◌≡◌, refl,
  sym, ap, ap₂, ◌∙◌, append_assoc, append-nil, All, if◌then◌else◌, inl, inr, Bool-cases, arith,
}
use goen.Go.Result.{ok}
use goen.Squirrel.{Squirrel}
use goen.Generator.{Relation}
use goen.ScopeCache.{one_to_many}
use goen.ScopeCache.View.{IsKey, View, Represents}
use goen.ScopeCache.Laws.{list_of, get_object-Represents}
use goen.Include.{Outcome, and_then}
use goen.Generated.Objects.{Object, Heap, Records, set_many, is_pointer_to, as_pointer_to}
use goen.Generated.Rows.{Runtime, Session}
use goen.Generated.Relations.{
  State, identity, append_object, append_objects, append_cached, fill_many,
}

-- The field of each struct is what it was, with `gained` behind it; no other field has changed.
pub record IsGrown (field : Str) (gained : ℕ → List Object) (h h' : Heap) : Type 0 where
  pub next : h'.next ≡ h.next
  pub many : (a : ℕ) → h'.many a field ≡ h.many a field ++ gained a
  pub others : (a : ℕ) (g : Str) → str_eq field g ≡ false → h'.many a g ≡ h.many a g
  pub one : h'.one ≡ h.one

IsGrown-refl : (field : Str) (h : Heap) → IsGrown field (λ a. []) h h
IsGrown-refl field h = record {
  next = refl;
  many = λ a. sym (append-nil (h.many a field));
  others = λ a g e. refl;
  one = refl;
}

IsGrown-trans :
    (field : Str) (f g : ℕ → List Object) (h h' h'' : Heap)
    → IsGrown field f h h'
    → IsGrown field g h' h''
    → IsGrown field (λ a. f a ++ g a) h h''
IsGrown-trans field f g h h' h'' x y = record {
  next = y.next ∙ x.next;
  many = λ a. y.many a ∙ ap (λ l. l ++ g a) (x.many a) ∙ append_assoc (h.many a field) (f a) (g a);
  others = λ a j e. y.others a j e ∙ x.others a j e;
  one = y.one ∙ x.one;
}

-- One equation for all fields.
pub IsGrown-many :
    (field : Str) (gained : ℕ → List Object) (h h' : Heap) (a : ℕ) (g : Str)
    → IsGrown field gained h h'
    → h'.many a g ≡ h.many a g ++ (if str_eq field g then gained a else [])
IsGrown-many field gained h h' a g x = elim (Bool-cases (str_eq field g)) [
  | inl e ↦
      rw e (subst (λ j. h'.many a j ≡ h.many a j ++ gained a) ((str_eq_iff field g).0 e) (x.many a))
  | inr e ↦ rw e (x.others a g e ∙ sym (append-nil (h.many a g)))
]

-- What the struct at an address gains if one struct gains a list.
abbrev pub only_at : ℕ → List Object → ℕ → List Object
only_at b l a = if b == a then l else []

set_many-IsGrown :
    (b : ℕ) (field : Str) (x : Object) (h : Heap)
    → IsGrown field (only_at b (x ∷ [])) h (set_many b field (h.many b field ++ x ∷ []) h)
set_many-IsGrown b field x h = record {
  next = refl;
  many = λ a. ground (arith, str_eq_refl field, append-nil (h.many a field));
  others = λ a g e. ground arith;
  one = refl;
}

IsGrown-eq :
    (field : Str) (f g : ℕ → List Object) (h h' : Heap)
    → ((a : ℕ) → f a ≡ g a)
    → IsGrown field f h h'
    → IsGrown field g h h'
IsGrown-eq field f g h h' e x = record {
  next = x.next;
  many = λ a. x.many a ∙ ap (λ l. h.many a field ++ l) (e a);
  others = x.others;
  one = x.one;
}

only_at-append :
    (b : ℕ) (l m : List Object) (a : ℕ) → only_at b l a ++ only_at b m a ≡ only_at b (l ++ m) a
only_at-append b l m a = ground arith

-- The object is a pointer to a struct of the type.
abbrev pub PointsTo : Str → Object → Type 0
PointsTo typ x = is_pointer_to typ x.entity.typ ≡ true

pointer_found : (typ : Str) (x : Object) → PointsTo typ x → as_pointer_to typ x ≡ ok x
unfolding as_pointer_to
pointer_found typ x h = rw h refl

module _ {q : Squirrel} {W : Type 0} (run : Runtime q W) (rel : Relation) where
  -- A loop returns, with the buffer, the cache and the database as they were and the structs grown.
  abbrev pub Fills : (ℕ → List Object) → List Records → Session W → Outcome (State W) → Type 0
  Fills gained later sn r =
      (h : Heap) × (r ≡ ((later, record sn { heap = h }), ok tt))
      × IsGrown rel.field_name gained sn.heap h

  append_objects-Fills :
      (x : Object) (refes : List Object) (later : List Records) (sn : Session W)
      → All (PointsTo rel.field_type) refes
      → Fills (only_at x.address refes) later sn (append_objects run rel x refes (later, sn))
  unfolding append_objects
  append_objects-Fills x [] later sn h = (
    sn.heap,
    refl,
    IsGrown-eq _ (λ a. []) (only_at x.address []) _ _ (λ a. ground arith)
        (IsGrown-refl rel.field_name sn.heap),
  )
  append_objects-Fills x (refe ∷ refes) later sn h =
      let h' =
        set_many x.address rel.field_name ((sn.heap).many x.address rel.field_name ++ refe ∷ [])
          sn.heap in
      let (h'', made, grown) = append_objects-Fills x refes later (record sn { heap = h' }) h.1 in
      (
        h'',
        ap
              (λ r.
                and_then (append_object run rel x r (later, sn))
                  λ s'. append_objects run rel x refes s')
              (pointer_found rel.field_type refe h.0)
            ∙ made,
        IsGrown-eq _ _ _ _ _ (only_at-append x.address (refe ∷ []) refes) (
            IsGrown-trans rel.field_name _ _ _ h' h''
              (set_many-IsGrown x.address rel.field_name refe sn.heap) grown),
      )

  -- What a struct at an address gains: what is cached, by the identity text of its row key, for each
  -- of the structs with that address.
  abbrev pub gains : (Str → List Object) → List Object → ℕ → List Object
  gains cached [] a = []
  gains cached (x ∷ xs) a = only_at x.address (cached (identity run rel x)) a ++ gains cached xs a

  pub gains-eq :
      (f g : Str → List Object) (xs : List Object) (a : ℕ)
      → ((k : Str) → f k ≡ g k)
      → gains f xs a ≡ gains g xs a
  gains-eq f g [] a e = refl
  gains-eq f g (x ∷ xs) a e =
      ap₂ (λ l m. only_at x.address l a ++ m) (e (identity run rel x)) (gains-eq f g xs a e)

  -- The row key of the struct is known by a text without a number sign.
  abbrev pub HasIdentity : Object → Type 0
  HasIdentity x = IsKey (identity run rel x)

  -- What is cached for the row key of a struct are pointers to structs of the relation's type.
  abbrev pub HasPointers : View Object → Object → Type 0
  HasPointers f x = All (PointsTo rel.field_type) (list_of (f one_to_many (identity run rel x)))

  pub fill_many-Fills :
      (f : View Object) (xs : List Object) (later : List Records) (sn : Session W)
      → All HasIdentity xs
      → All (HasPointers f) xs
      → Represents sn.cache f
      → Fills
          (gains (λ k. list_of (f one_to_many k)) xs)
          later
          sn
          (fill_many run rel xs (later, sn))
  unfolding fill_many
  fill_many-Fills f [] later sn hk hp hr = (sn.heap, refl, IsGrown-refl rel.field_name sn.heap)
  fill_many-Fills f (x ∷ xs) later sn hk hp hr =
      let raw = f one_to_many (identity run rel x) in
      let (h', made, grown) = append_objects-Fills x (list_of raw) later sn hp.0 in
      let (h'', made', grown') =
        fill_many-Fills f xs later (record sn { heap = h' }) hk.1 hp.1 hr in
      (
        h'',
        ap (λ r. and_then (append_cached run rel x r (later, sn)) λ s'. fill_many run rel xs s')
              (get_object-Represents run.keys sn.cache f one_to_many (identity run rel x) hr tt
                hk.0)
            ∙ ap (λ r. and_then r λ s'. fill_many run rel xs s') made
            ∙ made',
        IsGrown-trans rel.field_name _ _ _ h' h'' grown grown',
      )
