-- ===== src/Generated/Addresses.antt =====
-- The addresses of the structs that a SELECT is scanned into: each is new and no two are one.
use goen.Prelude.{
  ℕ, zero, suc, ◌<◌, ◌≤◌, ◌+◌, ◌==◌, List, [], ◌∷◌, ◌++◌, Str, length, get_elem?, ◌≡◌, ◌≢◌, refl,
  ap, false, Bool-cases, ==_iff, inl, inr, ◌∙◌, subst, append-nil, Option, some, arith,
}
use mathlib.Core.Option.{none-ne-some, some-injective}
use goen.Go.Value.{Value}
use goen.Squirrel.{Squirrel}
use goen.Generator.{Relation}
use goen.Scan.{Scanned}
use goen.Generated.Objects.{Object, Heap, allocate, with_struct}
use goen.Generated.Rows.{Runtime}
use goen.Generated.Relations.{identity}
use goen.Generated.Filled.{only_at, gains}

-- The structs that were there keep their fields.
pub allocate-many :
    (zero_field : Str → Str → Option Value) (rows : List Scanned) (h : Heap) (a : ℕ) (g : Str)
    → a < h.next
    → ((allocate zero_field rows h).1).many a g ≡ h.many a g
unfolding allocate
allocate-many zero_field [] h a g l = refl
allocate-many zero_field (s ∷ rows) h a g l =
    allocate-many zero_field rows (with_struct h) a g (omega arith) ∙ ground arith

pub allocate-one :
    (zero_field : Str → Str → Option Value) (rows : List Scanned) (h : Heap) (a : ℕ) (g : Str)
    → a < h.next
    → ((allocate zero_field rows h).1).one a g ≡ h.one a g
unfolding allocate
allocate-one zero_field [] h a g l = refl
allocate-one zero_field (s ∷ rows) h a g l =
    allocate-one zero_field rows (with_struct h) a g (omega arith) ∙ ground arith

module _ (zero_field : Str → Str → Option Value) where
  pub allocate-next :
      (rows : List Scanned) (h : Heap)
      → ((allocate zero_field rows h).1).next ≡ h.next + length rows
  unfolding allocate
  allocate-next [] h = omega arith
  allocate-next (s ∷ rows) h = omega (arith, allocate-next rows (with_struct h))

  -- The object of a row lies behind those that were there, and before the next address.
  pub allocate-range :
      (rows : List Scanned) (h : Heap) (i : ℕ) (x : Object)
      → get_elem? (allocate zero_field rows h).0 i ≡ some x
      → (h.next ≤ x.address) × (x.address < ((allocate zero_field rows h).1).next)
  unfolding allocate
  allocate-range [] h i x e = elim (none-ne-some x e) [ ]
  allocate-range (s ∷ rows) h zero x e =
      let same : h.next ≡ x.address = ap (λ y. y.address) (some-injective _ x e) in
      let next = allocate-next rows (with_struct h) in
      (omega (arith, same), omega (arith, same, next))
  allocate-range (s ∷ rows) h (suc i) x e =
      let (low, high) = allocate-range rows (with_struct h) i x e in (omega (arith, low), high)

  -- The fields of the new structs are nil.
  pub allocate-nil :
      (rows : List Scanned) (h : Heap) (a : ℕ) (g : Str)
      → h.next ≤ a
      → a < ((allocate zero_field rows h).1).next
      → ((allocate zero_field rows h).1).many a g ≡ []
  unfolding allocate
  allocate-nil [] h a g l u = absurd (omega arith)
  allocate-nil (s ∷ rows) h a g l u = elim (Bool-cases (a == h.next)) [
    | inl e ↦
        allocate-many zero_field rows (with_struct h) a g (omega (arith, (==_iff a h.next).0 e))
        ∙ rw e refl
    | inr e ↦ allocate-nil rows (with_struct h) a g (above a h.next l e) u
  ]
    where
      above : (a n : ℕ) → n ≤ a → (a == n) ≡ false → suc n ≤ a
      above a n l e = ground arith

-- What is gained at another address is nothing.
only_at_other : (n a : ℕ) (l m : List Object) → a ≢ n → only_at n l a ++ m ≡ m
only_at_other n a l m h = ground arith

only_at_same : (n : ℕ) (l m : List Object) → m ≡ [] → only_at n l n ++ m ≡ l
only_at_same n l m h = ground (arith, append-nil l)

module _ {q : Squirrel} {W : Type 0} (run : Runtime q W) (rel : Relation) where
  gains-below :
      (f : Str → List Object) (rows : List Scanned) (h : Heap) (a : ℕ)
      → a < h.next
      → gains run rel f (allocate run.zero_field rows h).0 a ≡ []
  unfolding allocate
  gains-below f [] h a l = refl
  gains-below f (s ∷ rows) h a l =
      only_at_other h.next a _ _ (λ e. absurd (omega (arith, e)))
      ∙ gains-below f rows (with_struct h) a (omega arith)

  -- Each of the new structs gains what there is for its own key.
  pub gains-at :
      (f : Str → List Object) (rows : List Scanned) (h : Heap) (i : ℕ) (x : Object)
      → get_elem? (allocate run.zero_field rows h).0 i ≡ some x
      → gains run rel f (allocate run.zero_field rows h).0 x.address ≡ f (identity run rel x)
  unfolding allocate
  gains-at f [] h i x e = elim (none-ne-some x e) [ ]
  gains-at f (s ∷ rows) h zero x e =
      subst
        (λ (y : Object).
          gains run rel f (allocate run.zero_field (s ∷ rows) h).0 y.address
          ≡ f (identity run rel y))
        (some-injective _ x e)
        (only_at_same h.next _ _ (gains-below f rows (with_struct h) h.next (omega arith)))
  gains-at f (s ∷ rows) h (suc i) x e =
      let range = allocate-range run.zero_field rows (with_struct h) i x e in
      only_at_other h.next x.address _ _ (λ same. absurd (omega (arith, range.0, same)))
      ∙ gains-at f rows (with_struct h) i x e
