-- ===== src/RowKey/Sorting.antt =====
-- `RowKey()` of row_key.go lists the entries of the map in the order of their columns, whatever the
-- order in which the map was visited.
use mathlib.Core.List.{Permᴰ, zip}
use mathlib.Core.List.Permᴰ
use goen.Prelude.{
  true, List, [], ◌∷◌, map, Str, str_le, str_eq_iff, str_eq_refl, str_eq_ne, ◌≢◌, ◌≡◌, refl, sym,
  subst, fun_ext, arith, ap, ◌∙◌, Bool-cases, inl, inr,
}
use goen.Go.Value.{Value}
use goen.Go.Map.{Map, lookup, keys, Fresh, IsMap}
use goen.RowKey.{MapRowKey, row_key, found, value_at, insert_sorted, sort_strings}
use goen.RowKey.Order.{str_le_total, sort_strings-Permᴰ}

abbrev pub IsSorted : List Str → Type 0
IsSorted [] = Unit
IsSorted (s ∷ []) = Unit
IsSorted (s ∷ t ∷ l) = (str_le s t ≡ true) × IsSorted (t ∷ l)

insert_sorted-IsSorted : (s : Str) (l : List Str) → IsSorted l → IsSorted (insert_sorted s l)
unfolding insert_sorted
insert_sorted-IsSorted s [] h = tt
insert_sorted-IsSorted s (t ∷ []) h = ground (arith, str_le_total s t)
insert_sorted-IsSorted s (t ∷ u ∷ l) h =
    ground (arith, str_le_total s t, insert_sorted-IsSorted s (u ∷ l) h.1)

pub sort_strings-IsSorted : (l : List Str) → IsSorted (sort_strings l)
unfolding sort_strings
sort_strings-IsSorted [] = tt
sort_strings-IsSorted (s ∷ l) = insert_sorted-IsSorted s (sort_strings l) (sort_strings-IsSorted l)

insert_sorted-perm : (s : Str) (l : List Str) → Permᴰ (insert_sorted s l) (s ∷ l)
unfolding insert_sorted
insert_sorted-perm s [] = Permᴰ.refl (s ∷ [])
insert_sorted-perm s (t ∷ l) = elim (Bool-cases (str_le s t)) [
  | inl e ↦ rw e (Permᴰ.refl (s ∷ t ∷ l))
  | inr e ↦ rw e (Permᴰ.trans (Permᴰ.cons refl (insert_sorted-perm s l)) (Permᴰ.swap refl refl))
]

pub sort_strings-perm : (l : List Str) → Permᴰ (sort_strings l) l
unfolding sort_strings
sort_strings-perm [] = Permᴰ.nil
sort_strings-perm (s ∷ l) =
    Permᴰ.trans (insert_sorted-perm s (sort_strings l)) (Permᴰ.cons refl (sort_strings-perm l))

abbrev entry : Map Value → Str → Str × Value
entry m c = (c, value_at m c)

zip-entry : (m : Map Value) (cs : List Str) → zip cs (map (value_at m) cs) ≡ map (entry m) cs
unfolding zip
zip-entry m [] = refl
zip-entry m (c ∷ cs) = ap (λ l. entry m c ∷ l) (zip-entry m cs)

-- Reading other keys than the first does not see the first entry.
entry-cons :
    (k : Str) (v : Value) (m : Map Value) (cs : List Str)
    → Fresh k cs
    → map (entry ((k, v) ∷ m)) cs ≡ map (entry m) cs
unfolding lookup
entry-cons k v m [] h = refl
entry-cons k v m (c ∷ cs) h =
    rw (str_eq_ne k c h.0) (ap (λ l. entry m c ∷ l) (entry-cons k v m cs h.1))

entry-keys : (m : Map Value) → IsMap m → map (entry m) (keys m) ≡ m
unfolding lookup
entry-keys [] h = refl
entry-keys ((k, v) ∷ m) h =
    rw (str_eq_refl, entry-cons k v m (keys m) h.0) (ap (λ l. (k, v) ∷ l) (entry-keys m h.1))

-- The columns are in order, and the columns with their values are the entries of the map, in which
-- no column may occur twice.
pub row_key_lem :
    (k : MapRowKey)
    → IsMap k.key
    → IsSorted (row_key k).0 × Permᴰ (zip (row_key k).0 (row_key k).1) k.key
unfolding row_key
row_key_lem k h = (
  sort_strings-IsSorted (keys k.key),
  rw zip-entry (
      subst (λ l. Permᴰ (map (entry k.key) (sort_strings (keys k.key))) l) (entry-keys k.key h)
        (Permᴰ.map (entry k.key) (sort_strings-perm (keys k.key)))),
)

Fresh-Permᴰ : (k : Str) {m n : Map Value} → Permᴰ m n → Fresh k (keys m) → Fresh k (keys n)
Fresh-Permᴰ k Permᴰ.nil h = tt
Fresh-Permᴰ k (Permᴰ.cons e d) h = (rw (← e) h.0, Fresh-Permᴰ k d h.1)
Fresh-Permᴰ k (Permᴰ.swap e f) h = (rw (← f) h.1.0, (rw (← e) h.0, h.1.1))
Fresh-Permᴰ k (Permᴰ.trans d e) h = Fresh-Permᴰ k e (Fresh-Permᴰ k d h)

ne_sym : {s t : Str} → s ≢ t → t ≢ s
ne_sym h e = h (sym e)

IsMap-Permᴰ : {m n : Map Value} → Permᴰ m n → IsMap m → IsMap n
IsMap-Permᴰ Permᴰ.nil h = tt
IsMap-Permᴰ (Permᴰ.cons e d) h = (rw (← e) (Fresh-Permᴰ _ d h.0), IsMap-Permᴰ d h.1)
IsMap-Permᴰ (Permᴰ.swap {a = a} {b = b} {b' = b'} {l = l} e f) h =
    subst (λ x. IsMap (x ∷ b' ∷ l)) f
      (subst (λ y. IsMap (b ∷ y ∷ l)) e ((ne_sym h.0.0, h.1.0), (h.0.1, h.1.1)))
IsMap-Permᴰ (Permᴰ.trans d e) h = IsMap-Permᴰ e (IsMap-Permᴰ d h)

lookup_swap :
    (c : Str) (a b : Str × Value) (m : Map Value)
    → a.0 ≢ b.0
    → lookup c (a ∷ b ∷ m) ≡ lookup c (b ∷ a ∷ m)
unfolding lookup
lookup_swap c a b m h = ground (arith, str_eq_iff a.0 c, str_eq_iff b.0 c)

lookup-Permᴰ : (c : Str) {m n : Map Value} → Permᴰ m n → IsMap m → lookup c m ≡ lookup c n
unfolding lookup
lookup-Permᴰ c Permᴰ.nil h = refl
lookup-Permᴰ c (Permᴰ.cons e d) h = rw (e, lookup-Permᴰ c d h.1)
lookup-Permᴰ c (Permᴰ.swap {a = a} {b = b} {l = l} e f) h =
    lookup_swap c a b l h.0.0 ∙ λ i. lookup c (f i ∷ e i ∷ l)
lookup-Permᴰ c (Permᴰ.trans d e) h = lookup-Permᴰ c d h ∙ lookup-Permᴰ c e (IsMap-Permᴰ d h)

-- Two visits of one map, in which no column occurs twice, give one row key, in whatever order they
-- meet the entries.
pub row_key-Permᴰ :
    (table : Str) (m n : Map Value)
    → IsMap m
    → Permᴰ m n
    → row_key (record { table = table; key = m }) ≡ row_key (record { table = table; key = n })
unfolding row_key
row_key-Permᴰ table m n h d =
    let cols : sort_strings (keys m) ≡ sort_strings (keys n) =
      sort_strings-Permᴰ (Permᴰ.map (λ e. e.0) d) in
    let vals : ((c : Str) → value_at m c ≡ value_at n c) = λ c. ap found (lookup-Permᴰ c d h) in
    λ i. (cols i, map (fun_ext vals i) (cols i))
