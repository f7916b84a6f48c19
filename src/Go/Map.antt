-- ===== src/Go/Map.antt =====
-- Go maps with string keys, as association lists. The order of the entries stands for the order in
-- which one `range` over the map would visit them; no key occurs twice (`IsMap`).
use goen.Prelude.{
  ◌≡◌, Option, none, some, List, [], ◌∷◌, map, Str, str_eq, str_eq_iff, arith, if◌then◌else◌, ◌≢◌,
  All,
}

abbrev pub Map {ℓ} : Type ℓ → Type ℓ
Map V = List (Str × V)

module _ {ℓ} {V : Type ℓ} where
  -- v, ok := m[k]
  unfoldable pub lookup : Str → Map V → Option V
  lookup k [] = none
  lookup k ((j, v) ∷ m) = let rest = lookup k m in if str_eq j k then some v else rest

  -- m[k] = v
  unfoldable pub insert : Str → V → Map V → Map V
  insert k v [] = (k, v) ∷ []
  insert k v ((j, w) ∷ m) =
      let rest = insert k v m in if str_eq j k then (j, v) ∷ m else (j, w) ∷ rest

  -- delete(m, k)
  unfoldable pub delete : Str → Map V → Map V
  delete k [] = []
  delete k ((j, v) ∷ m) = let rest = delete k m in if str_eq j k then rest else (j, v) ∷ rest

  abbrev pub keys : Map V → List Str
  keys m = map (λ e. e.0) m

  pub lookup-insert :
      (k j : Str) (v : V) (m : Map V)
      → lookup j (insert k v m) ≡ (if str_eq k j then some v else lookup j m)
  unfolding lookup insert
  lookup-insert k j v [] = ground arith
  lookup-insert k j v ((i, w) ∷ m) =
      ground (arith, str_eq_iff k j, str_eq_iff i k, str_eq_iff i j, lookup-insert k j v m)

  pub lookup-delete :
      (k j : Str) (m : Map V) → lookup j (delete k m) ≡ (if str_eq k j then none else lookup j m)
  unfolding lookup delete
  lookup-delete k j [] = ground arith
  lookup-delete k j ((i, w) ∷ m) =
      ground (arith, str_eq_iff k j, str_eq_iff i k, str_eq_iff i j, lookup-delete k j m)

-- A key with its list of earlier keys.
abbrev pub Fresh : Str → List Str → Type 0
Fresh k ks = All (λ j. k ≢ j) ks

abbrev pub IsNodup : List Str → Type 0
IsNodup [] = Unit
IsNodup (k ∷ ks) = Fresh k ks × IsNodup ks

-- No key occurs twice.
abbrev pub IsMap {ℓ} : {V : Type ℓ} → Map V → Type 0
IsMap m = IsNodup (keys m)
