-- ===== src/Generator/Sorted.antt =====
-- The order in which `ParseDir` leaves the tables.
use mathlib.Core.List.{Permᴰ}
use mathlib.Core.List.Permᴰ
use mathlib.Core.Option.{some-injective, none-ne-some}
use goen.Prelude.{
  Bool, true, false, List, [], ◌∷◌, map, Str, str_eq, str_eq_iff, Option, none, some, ◌≡◌, ◌≢◌,
  refl, sym, subst, ap, ap₂, ◌∙◌, arith, All, if◌then◌else◌,
}
use goen.Go.Map.{Map, lookup, insert, lookup-insert, Fresh, IsNodup}
use goen.RowKey.{sort_strings}
use goen.RowKey.Sorting.{sort_strings-perm}
use goen.RowKey.Order.{sort_strings-Permᴰ}
use goen.Generator.{Table}
use goen.Generator.Packages.{table_map, tables_at, sort_tables, is_found, put}

abbrev pub entities : List Table → List Str
entities tbls = map (λ tbl. tbl.entity) tbls

module _ (P : Table → Type 0) where
  -- Each table of the map stands under its entity and has the property.
  abbrev IsFiled : Map Table → Type 0
  IsFiled m = (name : Str) (tbl : Table) → lookup name m ≡ some tbl → (tbl.entity ≡ name) × P tbl

  insert-IsFiled :
      (tbl : Table) (m : Map Table) → P tbl → IsFiled m → IsFiled (insert tbl.entity tbl m)
  insert-IsFiled tbl m p h name t e =
      filed (str_eq tbl.entity name) (λ k. (str_eq_iff tbl.entity name).0 k) (h name t)
        (sym (lookup-insert tbl.entity name tbl m) ∙ e)
    where
      filed :
          (b : Bool)
          → (b ≡ true → tbl.entity ≡ name)
          → (lookup name m ≡ some t → (t.entity ≡ name) × P t)
          → (if b then some tbl else lookup name m) ≡ some t
          → (t.entity ≡ name) × P t
      filed true k old eq =
          subst (λ o. (o.entity ≡ name) × P o) (some-injective tbl t eq) (k refl, p)
      filed false k old eq = old eq

  table_map-IsFiled :
      (tbls : List Table) (m : Map Table) → All P tbls → IsFiled m → IsFiled (table_map tbls m)
  unfolding table_map
  table_map-IsFiled [] m ps h = h
  table_map-IsFiled (tbl ∷ tbls) m (p, ps) h =
      table_map-IsFiled tbls (insert tbl.entity tbl m) ps (insert-IsFiled tbl m p h)

  put_filed :
      (name : Str) (names : List Str) (o : Option Table) (tbls : List Table)
      → is_found o ≡ true
      → ((t : Table) → o ≡ some t → (t.entity ≡ name) × P t)
      → (entities tbls ≡ names) × All P tbls
      → (entities (put o tbls) ≡ name ∷ names) × All P (put o tbls)
  put_filed name names none tbls f h (e, ps) = ground arith
  put_filed name names (some tbl) tbls f h (e, ps) =
      (ap₂ ◌∷◌ ((h tbl refl).0) e, ((h tbl refl).1, ps))

  tables_at_filed :
      (m : Map Table) (names : List Str)
      → IsFiled m
      → All (λ name. is_found (lookup name m) ≡ true) names
      → (entities (tables_at m names) ≡ names) × All P (tables_at m names)
  unfolding tables_at
  tables_at_filed m [] h i = (refl, tt)
  tables_at_filed m (name ∷ names) h (i, is) =
      put_filed name names (lookup name m) (tables_at m names) i (h name)
        (tables_at_filed m names h is)

-- Each name that the map has, or that is inserted, stays.
abbrev IsPresent : Map Table → Str → Type 0
IsPresent m name = is_found (lookup name m) ≡ true

table_map_keeps :
    (tbls : List Table) (m : Map Table) (name : Str)
    → IsPresent m name
    → IsPresent (table_map tbls m) name
unfolding table_map
table_map_keeps [] m name h = h
table_map_keeps (tbl ∷ tbls) m name h =
    table_map_keeps tbls (insert tbl.entity tbl m) name
      (ground (arith, lookup-insert tbl.entity name tbl m))

table_map-IsPresent :
    (tbls : List Table) (m : Map Table) → All (IsPresent (table_map tbls m)) (entities tbls)
unfolding table_map
table_map-IsPresent [] m = tt
table_map-IsPresent (tbl ∷ tbls) m = (
  table_map_keeps tbls (insert tbl.entity tbl m) tbl.entity
      (ground (arith, lookup-insert tbl.entity tbl.entity tbl m, str_eq_iff tbl.entity tbl.entity)),
  table_map-IsPresent tbls (insert tbl.entity tbl m),
)

All-Permᴰ : {A : Type 0} (P : A → Type 0) (l m : List A) → Permᴰ l m → All P l → All P m
All-Permᴰ P l m Permᴰ.nil h = tt
All-Permᴰ P l m (Permᴰ.cons {l₁ = k} {l₂ = n} e d) (h, hs) = (subst P e h, All-Permᴰ P k n d hs)
All-Permᴰ P l m (Permᴰ.swap e f) (h, (i, hs)) = (subst P f i, (subst P e h, hs))
All-Permᴰ P l m (Permᴰ.trans {l₂ = k} d d') h = All-Permᴰ P k m d' (All-Permᴰ P l k d h)

-- The names of the sorted tables are those of the tables, sorted; and each is one of them.
pub sort_tables_filed :
    (P : Table → Type 0) (tbls : List Table)
    → All P tbls
    → (entities (sort_tables tbls) ≡ sort_strings (entities tbls)) × All P (sort_tables tbls)
unfolding sort_tables lookup
sort_tables_filed P tbls ps =
    let m = table_map tbls [] in
    tables_at_filed P m (sort_strings (entities tbls))
      (table_map-IsFiled P tbls [] ps (λ name tbl e. elim (none-ne-some tbl e) [ ]))
      (All-Permᴰ (IsPresent m) (entities tbls) (sort_strings (entities tbls))
        (Permᴰ.symm (sort_strings-perm (entities tbls))) (table_map-IsPresent tbls []))

-- Two maps with the same entries.
abbrev IsSame : Map Table → Map Table → Type 0
IsSame m n = (name : Str) → lookup name m ≡ lookup name n

insert-IsSame :
    (tbl : Table) (m n : Map Table)
    → IsSame m n
    → IsSame (insert tbl.entity tbl m) (insert tbl.entity tbl n)
insert-IsSame tbl m n h name =
    lookup-insert tbl.entity name tbl m
    ∙ ap (λ o. if str_eq tbl.entity name then some tbl else o) (h name)
    ∙ sym (lookup-insert tbl.entity name tbl n)

table_map-IsSame :
    (tbls : List Table) (m n : Map Table)
    → IsSame m n
    → IsSame (table_map tbls m) (table_map tbls n)
unfolding table_map
table_map-IsSame [] m n h = h
table_map-IsSame (tbl ∷ tbls) m n h =
    table_map-IsSame tbls (insert tbl.entity tbl m) (insert tbl.entity tbl n)
      (insert-IsSame tbl m n h)

insert_comm :
    (a b : Table) (m : Map Table)
    → a.entity ≢ b.entity
    → IsSame (insert b.entity b (insert a.entity a m)) (insert a.entity a (insert b.entity b m))
insert_comm a b m ne name = ground (
  arith,
  lookup-insert b.entity name b (insert a.entity a m),
  lookup-insert a.entity name a m,
  lookup-insert a.entity name a (insert b.entity b m),
  lookup-insert b.entity name b m,
  str_eq_iff a.entity name,
  str_eq_iff b.entity name,
)

Fresh-Permᴰ : (k : Str) {l m : List Str} → Permᴰ l m → Fresh k l → Fresh k m
Fresh-Permᴰ k {l} {m} d h = All-Permᴰ (λ j. k ≢ j) l m d h

IsNodup-Permᴰ : {l m : List Str} → Permᴰ l m → IsNodup l → IsNodup m
IsNodup-Permᴰ Permᴰ.nil h = tt
IsNodup-Permᴰ (Permᴰ.cons {l₂ = n} e d) (f, h) =
    (subst (λ k. Fresh k n) e (Fresh-Permᴰ _ d f), IsNodup-Permᴰ d h)
IsNodup-Permᴰ (Permᴰ.swap {l = l} e f) ((ne, fa), (fb, h)) =
    ((λ q. ne (e ∙ sym q ∙ sym f), subst (λ k. Fresh k l) f fb), (subst (λ k. Fresh k l) e fa, h))
IsNodup-Permᴰ (Permᴰ.trans d d') h = IsNodup-Permᴰ d' (IsNodup-Permᴰ d h)

table_map-Permᴰ :
    (l m : List Table)
    → Permᴰ l m
    → IsNodup (entities l)
    → (acc : Map Table) → IsSame (table_map l acc) (table_map m acc)
unfolding table_map
table_map-Permᴰ l m Permᴰ.nil h acc name = refl
table_map-Permᴰ l m (Permᴰ.cons {a = a} {b = b} {l₁ = k} {l₂ = n} e d) (f, h) acc name =
    table_map-Permᴰ k n d h (insert a.entity a acc) name
    ∙ ap (λ x. lookup name (table_map n (insert x.entity x acc))) e
table_map-Permᴰ l m (Permᴰ.swap {a = a} {b = b} {l = k} e f) ((ne, fa), hs) acc name =
    table_map-IsSame k (insert b.entity b (insert a.entity a acc))
      (insert a.entity a (insert b.entity b acc)) (insert_comm a b acc ne) name
    ∙ ap₂ (λ x y. lookup name (table_map k (insert x.entity x (insert y.entity y acc)))) e f
table_map-Permᴰ l m (Permᴰ.trans {l₂ = k} d d') h acc name =
    table_map-Permᴰ l k d h acc name
    ∙ table_map-Permᴰ k m d' (IsNodup-Permᴰ (Permᴰ.map (λ tbl. tbl.entity) d) h) acc name

tables_at-IsSame :
    (m n : Map Table) (names : List Str) → IsSame m n → tables_at m names ≡ tables_at n names
unfolding tables_at
tables_at-IsSame m n [] h = refl
tables_at-IsSame m n (name ∷ names) h = ap₂ put (h name) (tables_at-IsSame m n names h)

-- Tables with different entities come out in one order, in whatever order they were found.
pub sort_tables-Permᴰ :
    (l m : List Table) → Permᴰ l m → IsNodup (entities l) → sort_tables l ≡ sort_tables m
unfolding sort_tables lookup
sort_tables-Permᴰ l m d h =
    ap (tables_at (table_map l [])) (sort_strings-Permᴰ (Permᴰ.map (λ tbl. tbl.entity) d))
    ∙ tables_at-IsSame (table_map l []) (table_map m []) (sort_strings (entities m))
        (table_map-Permᴰ l m d h [])
