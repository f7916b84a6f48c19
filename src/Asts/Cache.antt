-- ===== src/Asts/Cache.antt =====
-- internal/asts/cacher.go: the cache in front of build.Import. The lock is held for the whole of
-- `bImport`, so that a call is one step.
use goen.Prelude.{
  ℕ, Bool, true, false, ◌&&◌, List, [], ◌∷◌, Str, str_eq, str_eq_iff, ◌==◌, if◌then◌else◌, Option,
  none, some, ◌≡◌, refl, arith, Option-cases, inl, inr, ◌∙◌, ap, ap₂, map, sym,
}
use goen.Go.Result.{Result, ok, err, panic}
use goen.Asts.{BuildPackage}

pub record CacheKey : Type 0 where
  pub path : Str
  pub src_dir : Str
  pub mode : ℕ

unfoldable pub key_eq : CacheKey → CacheKey → Bool
key_eq a b = str_eq a.path b.path && str_eq a.src_dir b.src_dir && a.mode == b.mode

abbrev pub BuildCache : Type 0
BuildCache = List (CacheKey × BuildPackage)

unfoldable pub cached : CacheKey → BuildCache → Option BuildPackage
unfolding key_eq
cached k [] = none
cached k ((j, v) ∷ m) = let later = cached k m in if key_eq j k then some v else later

abbrev pub keep : CacheKey → Result BuildPackage → BuildCache → Result BuildPackage × BuildCache
keep k (ok bpkg) m = (ok bpkg, (k, bpkg) ∷ m)
keep k (err e) m = (err e, m)
keep k (panic p) m = (panic p, m)

-- `bImport`: `imp` is build.Import.
unfoldable pub b_import :
    (CacheKey → Result BuildPackage) → CacheKey → BuildCache → Result BuildPackage × BuildCache
unfolding cached
b_import imp k m = elim (cached k m) [ some v ↦ (ok v, m) | none ↦ keep k (imp k) m ]

-- `bImportDir`
unfoldable pub b_import_dir :
    (CacheKey → Result BuildPackage) → Str → ℕ → BuildCache → Result BuildPackage × BuildCache
unfolding b_import
b_import_dir imp dir mode = b_import imp (record { path = b'.' ∷ []; src_dir = dir; mode = mode })

-- The answers of a sequence of calls.
abbrev pub answers :
    (CacheKey → Result BuildPackage) → List CacheKey → BuildCache → List (Result BuildPackage)
answers imp [] m = []
answers imp (k ∷ ks) m = let (r, m') = b_import imp k m in r ∷ answers imp ks m'

-- Every entry is what build.Import answers.
abbrev IsTrue : (CacheKey → Result BuildPackage) → BuildCache → Type 0
IsTrue imp [] = Unit
IsTrue imp ((k, v) ∷ m) = (imp k ≡ ok v) × IsTrue imp m

key_eq_sound : (a b : CacheKey) → key_eq a b ≡ true → a ≡ b
unfolding key_eq
key_eq_sound a b h = ground (arith, str_eq_iff a.path b.path, str_eq_iff a.src_dir b.src_dir)

some_ok : {v w : BuildPackage} → some v ≡ some w → ok v ≡ ok w
some_ok e = cc

module _ (imp : CacheKey → Result BuildPackage) where
  entry-IsTrue :
      (b : Bool) (j k : CacheKey) (w v : BuildPackage) (o : Option BuildPackage)
      → (b ≡ true → j ≡ k)
      → imp j ≡ ok w
      → (o ≡ some v → imp k ≡ ok v)
      → (if b then some w else o) ≡ some v
      → imp k ≡ ok v
  entry-IsTrue true j k w v o same here later e = ap imp (sym (same refl)) ∙ here ∙ some_ok e
  entry-IsTrue false j k w v o same here later e = later e

  cached-IsTrue :
      (k : CacheKey) (m : BuildCache) (v : BuildPackage)
      → IsTrue imp m
      → cached k m ≡ some v
      → imp k ≡ ok v
  unfolding cached
  cached-IsTrue k [] v h e = cc
  cached-IsTrue k ((j, w) ∷ m) v h e =
      entry-IsTrue (key_eq j k) j k w v (cached k m) (key_eq_sound j k) h.0
        (cached-IsTrue k m v h.1) e

  keep-IsTrue :
      (k : CacheKey) (r : Result BuildPackage) (m : BuildCache)
      → imp k ≡ r
      → IsTrue imp m
      → ((keep k r m).0 ≡ r) × IsTrue imp (keep k r m).1
  keep-IsTrue k (ok v) m e h = (refl, (e, h))
  keep-IsTrue k (err x) m e h = (refl, h)
  keep-IsTrue k (panic x) m e h = (refl, h)

  b_import-IsTrue :
      (k : CacheKey) (m : BuildCache)
      → IsTrue imp m
      → ((b_import imp k m).0 ≡ imp k) × IsTrue imp (b_import imp k m).1
  unfolding b_import
  b_import-IsTrue k m h = elim (Option-cases (cached k m)) [
    | inl e ↦ rw (e, b_import) (keep-IsTrue k (imp k) m refl h)
    | inr (v, e) ↦ rw (e, b_import) (sym (cached-IsTrue k m v h e), h)
  ]

  answers-IsTrue :
      (ks : List CacheKey) (m : BuildCache) → IsTrue imp m → answers imp ks m ≡ map imp ks
  answers-IsTrue [] m h = refl
  answers-IsTrue (k ∷ ks) m h =
      let (same, h') = b_import-IsTrue k m h in ap₂ ◌∷◌ same (answers-IsTrue ks _ h')

  -- As long as build.Import keeps its answers, the cache is not seen: any sequence of calls of
  -- `bImport` from the empty cache has the answers of build.Import, errors included.
  pub answers-map : (ks : List CacheKey) → answers imp ks [] ≡ map imp ks
  answers-map ks = answers-IsTrue ks [] tt
