-- ===== src/Generator/Naming.antt =====
-- The type of a column, and the name that its import gets.
use goen.Prelude.{[], ◌∷◌, ◌++◌, Str, codes, some, ℕ, zero, suc, ◌≡◌, ◌≢◌, refl, ap, ◌∙◌}
use goen.Go.Result.{ok}
use goen.Structs.{FieldOf, column_name, omit_empty}
use goen.Structs.Run.{pure, fail, IfDone, IfDone-bind, IfDone-after, IfDone-done, IfDone-if}
use goen.Asts.{GoTools, AstFile, AstPackage, Expr, selector, star}
use goen.Asts.Lookup.{find_pkg_path}
use goen.AstTypes.{at_file, AType}
use goen.AstTypes.Shown.{shown, type_pkg_path}
use goen.AstTypes.Kinds.{kind, strip, is_pointer, elem}
use goen.AstTypes.Strings.{string_with_pkg_name, alternative}
use goen.Generator.{Column, safe, safe_runes, safe_pkg_import, column_of}

-- A type behind so many pointers, and how many stars that are.
abbrev pub pointer_to : ℕ → Expr → Expr
pointer_to zero e = e
pointer_to (suc n) e = star (pointer_to n e)

abbrev pub stars : ℕ → Str → Str
stars zero s = s
stars (suc n) s = codes "*" ++ stars n s

string_with_pkg_name-stars :
    (alt : Str) (n : ℕ) (p t : Str)
    → string_with_pkg_name alt (pointer_to n (selector p t))
      ≡ stars n (alternative alt p ++ codes "." ++ t)
unfolding string_with_pkg_name
string_with_pkg_name-stars alt zero p t = refl
string_with_pkg_name-stars alt (suc n) p t =
    ap (λ s. codes "*" ++ s) (string_with_pkg_name-stars alt n p t)

alternative-safe : (path p : Str) → path ≢ [] → alternative (safe path) p ≡ safe path
unfolding safe safe_runes
alternative-safe [] p ne = elim (ne refl) [ ]
alternative-safe (c ∷ path) p ne = refl

module _ (go : GoTools) where
  strip_stars :
      (pkg : AstPackage) (file : AstFile) (p t : Str) (n fuel : ℕ)
      → IfDone
          (λ s. s ≡ at_file pkg file (selector p t))
          (strip go is_pointer fuel (at_file pkg file (pointer_to n (selector p t))))
  unfolding strip kind shown elem
  strip_stars pkg file p t n zero = tt
  strip_stars pkg file p t zero (suc fuel) =
      IfDone-after Q (kind go (suc fuel) (at_file pkg file (selector p t))) _
        (λ k e. IfDone-if Q (is_pointer k) (pure (at_file pkg file (selector p t))) _ refl tt)
    where
      Q : AType → Type 0
      Q s = s ≡ at_file pkg file (selector p t)
  strip_stars pkg file p t (suc n) (suc fuel) = strip_stars pkg file p t n fuel

  -- What `safePkgImport` finds behind the pointers.
  safe_pkg_import-selector :
      (fuel n : ℕ) (at : AType) (p t path : Str)
      → at.decl ≡ pointer_to n (selector p t)
      → find_pkg_path go at.file p ≡ ok path
      → IfDone (λ imported. imported ≡ (safe path, path)) (safe_pkg_import go fuel at)
  unfolding safe_pkg_import type_pkg_path
  safe_pkg_import-selector fuel n at p t path e found = rw e (
      IfDone-bind (λ s. s ≡ at_file at.pkg at.file (selector p t)) Q
        (strip go is_pointer fuel (at_file at.pkg at.file (pointer_to n (selector p t)))) _
        (strip_stars at.pkg at.file p t n fuel) (λ s same. rw (same, found) refl))
    where
      Q : Str × Str → Type 0
      Q imported = imported ≡ (safe path, path)

column_typed :
    (go : GoTools) (snake_case : Str → Str) (fuel n : ℕ) (f : FieldOf AType) (p t path : Str)
    → f.typ.decl ≡ pointer_to n (selector p t)
    → find_pkg_path go f.typ.file p ≡ ok path
    → path ≢ []
    → IfDone
        (λ r.
          ((r.0).field_type ≡ stars n (safe path ++ codes "." ++ t)) × (r.1 ≡ (safe path, path)))
        (column_of go snake_case fuel f)
unfolding column_of
column_typed go snake_case fuel n f p t path e found ne =
    IfDone-after Q (fail (column_name snake_case f)) _ (λ name h.
      IfDone-after Q (fail (omit_empty f)) _ (λ omits i.
        IfDone-bind _ Q (safe_pkg_import go fuel f.typ) _
          (safe_pkg_import-selector go fuel n f.typ p t path e found)
          (λ imported same. (text imported same, same))))
  where
    Q : Column × (Str × Str) → Type 0
    Q r = ((r.0).field_type ≡ stars n (safe path ++ codes "." ++ t)) × (r.1 ≡ (safe path, path))

    text :
        (imported : Str × Str)
        → imported ≡ (safe path, path)
        → string_with_pkg_name (imported.0) f.typ.decl ≡ stars n (safe path ++ codes "." ++ t)
    text imported same =
        rw (e, same)
          (string_with_pkg_name-stars (safe path) n p t
            ∙ ap (λ s. stars n (s ++ codes "." ++ t)) (alternative-safe path p ne))

-- If the type of a column's field is a type of another package behind any number of pointers, and
-- walking the field succeeds, the column's type is written with one star for each pointer and the
-- sanitised path as the name of the package, which is also the name under which that path is to be
-- imported.
pub column_of-type :
    (go : GoTools) (snake_case : Str → Str) (fuel n : ℕ) (f : FieldOf AType) (p t path : Str)
    (col : Column) (imported : Str × Str)
    → f.typ.decl ≡ pointer_to n (selector p t)
    → find_pkg_path go f.typ.file p ≡ ok path
    → path ≢ []
    → column_of go snake_case fuel f ≡ some (ok (col, imported))
    → (col.field_type ≡ stars n (safe path ++ codes "." ++ t)) × (imported ≡ (safe path, path))
column_of-type go snake_case fuel n f p t path col imported e found ne made =
    IfDone-done _ (column_of go snake_case fuel f) (col, imported)
      (column_typed go snake_case fuel n f p t path e found ne) made
