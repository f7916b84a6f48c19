-- ===== src/Generator/Imports.antt =====
-- How `addImportAs` and the loop over the columns of generator/generator.go change the imports.
use goen.Prelude.{
  Bool, true, false, ◌||◌, List, [], ◌∷◌, ◌++◌, map, Str, str_eq, str_eq_iff, some, ℕ, ◌≡◌, ◌≢◌,
  refl, subst, sym, arith, All, All-append, Bool-cases, inl, inr,
}
use goen.Go.Result.{ok}
use goen.Go.Map.{Fresh, IsNodup}
use goen.Structs.{column_name, omit_empty, FieldOf}
use goen.Structs.Run.{fail, IfDone, IfDone-bind, IfDone-after}
use goen.Asts.{GoTools}
use goen.AstTypes.{AType}
use goen.Generator.{
  Import, Column, imports_path, add_import_as, import_type, safe_pkg_import, column_of, columns_of,
}

abbrev pub paths : List Import → List Str
paths imports = map (λ imp. imp.path) imports

abbrev pub HasPath : List Import → Import → Type 0
HasPath imports imp = imports_path imp.path imports ≡ true

-- An import of a path of `plain` has no name of its own.
abbrev pub IsPlain : List Import → Import → Type 0
IsPlain plain imp = imports_path imp.path plain ≡ true → imp.name ≡ []

-- No two of the later imports have one path if no two of the earlier had, no path is lost, and the
-- imports of the paths that were there get no names.
abbrev pub IsGrown : List Import → List Import → Type 0
IsGrown old new =
    (IsNodup (paths old) → IsNodup (paths new))
    × ((path : Str) → imports_path path old ≡ true → imports_path path new ≡ true)
    × ((plain : List Import)
        → All (HasPath old) plain
        → All (IsPlain plain) old
        → All (IsPlain plain) new)

pub IsGrown-refl : (l : List Import) → IsGrown l l
IsGrown-refl l = (λ h. h, λ path h. h, λ plain h k. k)

pub HasPath-IsGrown :
    (old new : List Import) (l : List Import)
    → IsGrown old new
    → All (HasPath old) l
    → All (HasPath new) l
HasPath-IsGrown old new [] g h = tt
HasPath-IsGrown old new (imp ∷ l) g (h, hs) = (g.1 imp.path h, HasPath-IsGrown old new l g hs)

pub IsGrown-trans : (k l m : List Import) → IsGrown k l → IsGrown l m → IsGrown k m
IsGrown-trans k l m (h, i, j) (h', i', j') = (
  λ n. h' (h n),
  λ path p. i' path (i path p),
  λ plain p q. j' plain (HasPath-IsGrown k l plain (h, i, j) p) (j plain p q),
)

Fresh-snoc : (q path : Str) (l : List Str) → Fresh q l → q ≢ path → Fresh q (l ++ (path ∷ []))
Fresh-snoc q path [] h ne = (ne, tt)
Fresh-snoc q path (p ∷ l) (h, i) ne = (h, Fresh-snoc q path l i ne)

paths-snoc : (imp : Import) (l : List Import) → paths (l ++ (imp ∷ [])) ≡ paths l ++ (imp.path ∷ [])
paths-snoc imp [] = refl
paths-snoc imp (other ∷ l) = simp (paths-snoc imp l)

absent_head :
    (p path : Str) (l : List Import) (b : Bool)
    → (str_eq p path || b) ≡ false
    → (p ≢ path) × (b ≡ false)
absent_head p path l b h = ground (arith, str_eq_iff p path)

snoc-IsNodup :
    (imp : Import) (l : List Import)
    → imports_path imp.path l ≡ false
    → IsNodup (paths l)
    → IsNodup (paths l ++ (imp.path ∷ []))
unfolding imports_path
snoc-IsNodup imp [] h n = (tt, tt)
snoc-IsNodup imp (other ∷ l) h (f, n) =
    let (ne, e) = absent_head other.path imp.path l (imports_path imp.path l) h in
    (Fresh-snoc other.path imp.path (paths l) f ne, snoc-IsNodup imp l e n)

imports_path-snoc :
    (path : Str) (imp : Import) (l : List Import)
    → imports_path path (l ++ (imp ∷ [])) ≡ (imports_path path l || str_eq imp.path path)
unfolding imports_path
imports_path-snoc path imp [] = ground arith
imports_path-snoc path imp (other ∷ l) = ground (arith, imports_path-snoc path imp l)

path_there :
    (path : Str) (plain l : List Import)
    → All (HasPath l) plain
    → imports_path path plain ≡ true
    → imports_path path l ≡ true
unfolding imports_path
path_there path [] l h e = cc
path_there path (imp ∷ plain) l (h, hs) e =
    ground (arith, path_there path plain l hs, str_eq_iff imp.path path)

-- The first import of a path.
snoc-IsGrown :
    (imp : Import) (l : List Import) → imports_path imp.path l ≡ false → IsGrown l (l ++ (imp ∷ []))
snoc-IsGrown imp l e = (
  λ n. subst IsNodup (sym (paths-snoc imp l)) (snoc-IsNodup imp l e n),
  λ q h. ground (arith, imports_path-snoc q imp l),
  λ plain h k.
      All-append (IsPlain plain) l (imp ∷ []) k
        (λ i. ground (arith, path_there imp.path plain l h i), tt),
)

pub add_import_as-IsGrown :
    (name path : Str) (l : List Import) → IsGrown l (add_import_as name path l)
unfolding add_import_as
add_import_as-IsGrown name path l = elim (Bool-cases (imports_path path l)) [
  | inl e ↦ rw e (IsGrown-refl l)
  | inr e ↦ rw e (snoc-IsGrown (record { name = name; path = path }) l e)
]

-- The import is there afterwards.
pub add_import_as_has :
    (name path : Str) (l : List Import) → imports_path path (add_import_as name path l) ≡ true
unfolding add_import_as
add_import_as_has name path l =
    ground
      (arith, imports_path-snoc path (record { name = name; path = path }) l, str_eq_iff path path)

pub import_type-IsGrown :
    (imported : Str × Str) (l : List Import) → IsGrown l (import_type imported l)
import_type-IsGrown (name, []) l = IsGrown-refl l
import_type-IsGrown (name, c ∷ path) l = add_import_as-IsGrown name (c ∷ path) l

module _ (go : GoTools) (fuel : ℕ) where
  -- The package of the field's type, if it has one, is among the imports.
  abbrev pub IsImported : List Import → FieldOf AType → Type 0
  IsImported imports f =
      (name path : Str)
      → safe_pkg_import go fuel f.typ ≡ some (ok (name, path))
      → path ≢ []
      → imports_path path imports ≡ true

  import_type_has :
      (l : List Import) (name path : Str)
      → path ≢ []
      → imports_path path (import_type (name, path) l) ≡ true
  import_type_has l name [] ne = elim (ne refl) [ ]
  import_type_has l name (c ∷ path) ne = add_import_as_has name (c ∷ path) l

  same_import :
      (f : FieldOf AType) (imported : Str × Str) (l m : List Import)
      → safe_pkg_import go fuel f.typ ≡ some (ok imported)
      → IsGrown (import_type imported l) m
      → IsImported m f
  same_import f imported l m e g name path e' ne =
      let same : imported ≡ (name, path) = cc (e, e') in
      g.1 path (
        subst (λ i. imports_path path (import_type i l) ≡ true) (sym same)
          (import_type_has l name path ne))

module _ (go : GoTools) (snake_case : Str → Str) (fuel : ℕ) where
  column_of-imports :
      (f : FieldOf AType)
      → IfDone
          (λ r. safe_pkg_import go fuel f.typ ≡ some (ok (r.1)))
          (column_of go snake_case fuel f)
  unfolding column_of
  column_of-imports f = IfDone-after Q (fail (column_name snake_case f)) _ (λ name h.
      IfDone-after Q (fail (omit_empty f)) _
        (λ omits i. IfDone-after Q (safe_pkg_import go fuel f.typ) _ (λ imported e. e)))
    where
      Q : Column × (Str × Str) → Type 0
      Q r = safe_pkg_import go fuel f.typ ≡ some (ok (r.1))

  pub columns_of-IsGrown :
      (fs : List (FieldOf AType)) (l : List Import)
      → IfDone
          (λ r. IsGrown l (r.1) × All (IsImported go fuel (r.1)) fs)
          (columns_of go snake_case fuel fs l)
  unfolding columns_of
  columns_of-IsGrown [] l = (IsGrown-refl l, tt)
  columns_of-IsGrown (f ∷ fs) l =
      IfDone-bind _ Q (column_of go snake_case fuel f) _ (column_of-imports f) (λ (col, imported) e.
        IfDone-bind _ Q (columns_of go snake_case fuel fs (import_type imported l)) _
          (columns_of-IsGrown fs (import_type imported l))
          (λ (cols, l') h. (
            IsGrown-trans l (import_type imported l) l' (import_type-IsGrown imported l) h.0,
            (same_import go fuel f imported l l' e h.0, h.1),
          )))
    where
      Q : List Column × List Import → Type 0
      Q r = IsGrown l (r.1) × All (IsImported go fuel (r.1)) (f ∷ fs)
