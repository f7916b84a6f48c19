-- ===== src/ScopeCache/View.antt =====
-- The cache as it is meant: one entry for each cardinality and each key. The map of scope_cache.go
-- stands for it as long as no identity text has a number sign in it.
use goen.Prelude.{
  ℕ, ap₂, Bool, true, false, ◌&&◌, ◌==◌, [], ◌∷◌, ◌++◌, Str, str_eq, str_eq_iff, ◌≡◌, ◌≢◌, refl,
  sym, ap, ◌∙◌, arith, if◌then◌else◌, Option, none, some,
}
use goen.Go.Map.{Map, lookup, insert, delete, lookup-insert, lookup-delete}
use goen.StructTag.Split.{Lacks}
use goen.ScopeCache.{Cardinality, no_cardinality, one_to_many, many_to_one, other, suffix, Cached}

abbrev pub IsKey : Str → Type 0
IsKey = Lacks b'#'

-- The three cardinalities that the code uses.
abbrev pub IsProper : Cardinality → Type 0
IsProper (other n) = ⊥
IsProper _ = Unit

abbrev pub same : Cardinality → Cardinality → Bool
same no_cardinality no_cardinality = true
same one_to_many one_to_many = true
same many_to_one many_to_one = true
same _ _ = false

-- A text without a number sign is read off the front of a cache key.
abbrev pub cut : Str → Str × Str
cut [] = ([], [])
cut (c ∷ s) = let (k, r) = cut s in if c == b'#' then ([], c ∷ s) else (c ∷ k, r)

ne_test : (x : ℕ) → x ≢ b'#' → (x == b'#') ≡ false
ne_test x h = ground arith

cut-suffix : (k : Str) (c : Cardinality) → IsKey k → cut (k ++ suffix c) ≡ (k, suffix c)
cut-suffix [] no_cardinality h = refl
cut-suffix [] one_to_many h = refl
cut-suffix [] many_to_one h = refl
cut-suffix [] (other n) h = refl
cut-suffix (x ∷ k) c h = rw (ne_test x h.0, cut-suffix k c h.1)

str_eq-suffix :
    (c d : Cardinality) → IsProper c → IsProper d → str_eq (suffix c) (suffix d) ≡ same c d
unfolding str_eq
str_eq-suffix (other n) d p q = absurd p
str_eq-suffix no_cardinality (other n) p q = absurd q
str_eq-suffix one_to_many (other n) p q = absurd q
str_eq-suffix many_to_one (other n) p q = absurd q
str_eq-suffix no_cardinality no_cardinality p q = refl
str_eq-suffix _ _ p q = refl

same-suffix : (c d : Cardinality) → IsProper c → IsProper d → suffix c ≡ suffix d → same c d ≡ true
same-suffix c d p q h = sym (str_eq-suffix c d p q) ∙ (str_eq_iff (suffix c) (suffix d)).1 h

same_sound : (c d : Cardinality) → same c d ≡ true → c ≡ d
same_sound c d h = ground arith

bool_eq_of_iff : (a b : Bool) → (a ≡ true → b ≡ true) → (b ≡ true → a ≡ true) → a ≡ b
bool_eq_of_iff true true h k = refl
bool_eq_of_iff false false h k = refl
bool_eq_of_iff true false h k = sym (h refl)
bool_eq_of_iff false true h k = k refl

and_intro : (a b : Bool) → a ≡ true → b ≡ true → (a && b) ≡ true
and_intro a b h k = ground arith

and_parts : (a b : Bool) → (a && b) ≡ true → (a ≡ true) × (b ≡ true)
and_parts a b h = ground arith

-- Cache keys are equal only for one cardinality and one key.
pub cache_key_eq :
    (c d : Cardinality) (k j : Str)
    → IsProper c
    → IsProper d
    → IsKey k
    → IsKey j
    → str_eq (k ++ suffix c) (j ++ suffix d) ≡ (same c d && str_eq k j)
cache_key_eq c d k j pc pd hk hj =
    bool_eq_of_iff _ _
      (λ e.
        let parts : (k, suffix c) ≡ (j, suffix d) =
          sym (cut-suffix k c hk) ∙ ap cut ((str_eq_iff _ _).0 e) ∙ cut-suffix j d hj in
        and_intro _ _ (same-suffix c d pc pd (ap (λ p. p.1) parts))
          ((str_eq_iff k j).1 (ap (λ p. p.0) parts)))
      (λ e.
        let (same_c, same_k) = and_parts (same c d) (str_eq k j) e in
        (str_eq_iff _ _).1
          (ap₂ (λ x y. x ++ suffix y) ((str_eq_iff k j).0 same_k) (same_sound c d same_c)))

-- What is cached for a cardinality and a key.
abbrev pub View : Type 0 → Type 0
View A = Cardinality → Str → Option (Cached A)

module _ {A : Type 0} where
  abbrev pub put : Cardinality → Str → Cached A → View A → View A
  put c k x f d j = if same c d && str_eq k j then some x else f d j

  abbrev pub drop : Cardinality → Str → View A → View A
  drop c k f d j = if same c d && str_eq k j then none else f d j

  -- The map holds what the view says.
  abbrev pub Represents : Map (Cached A) → View A → Type 0
  Represents m f =
      (c : Cardinality) (k : Str) → IsProper c → IsKey k → lookup (k ++ suffix c) m ≡ f c k

  pub Represents-insert :
      (m : Map (Cached A)) (f : View A) (c : Cardinality) (k : Str) (x : Cached A)
      → IsProper c
      → IsKey k
      → Represents m f
      → Represents (insert (k ++ suffix c) x m) (put c k x f)
  Represents-insert m f c k x pc hk h d j pd hj = rw (
    lookup-insert (k ++ suffix c) (j ++ suffix d) x m,
    cache_key_eq c d k j pc pd hk hj,
    h d j pd hj,
  )

  pub Represents-delete :
      (m : Map (Cached A)) (f : View A) (c : Cardinality) (k : Str)
      → IsProper c
      → IsKey k
      → Represents m f
      → Represents (delete (k ++ suffix c) m) (drop c k f)
  Represents-delete m f c k pc hk h d j pd hj = rw (
    lookup-delete (k ++ suffix c) (j ++ suffix d) m,
    cache_key_eq c d k j pc pd hk hj,
    h d j pd hj,
  )

  -- The view of a new cache.
  abbrev pub no_view : View A
  no_view c k = none

  pub no_view-Represents : Represents [] no_view
  unfolding lookup
  no_view-Represents c k p h = refl
