-- ===== src/Tests/Packages/Acyclic.antt =====
-- Ranks for the types of the sample package.
use goen.Prelude.{
  ℕ, [], ◌∷◌, Str, str_eq, str_eq_iff, codes, ◌≡◌, ◌<◌, ◌≤◌, ◌⊎◌, inl, inr, refl, subst, sym, arith,
  Bool-cases,
}
use goen.Go.Result.{Result, ok, err, panic}
use goen.Go.Map.{lookup}
use goen.Go.Succeeding.{IfOk, IfOk-ok, IfOk-bind, IfOk-any, IfOk-if}
use goen.Structs.{basic}
use goen.Structs.Run.{Run, IfDone, IfDone-done, IfDone-bind, fail, ◌>>=◌}
use goen.Asts.{
  Expr, ident, star, slice_type, array_type, selector, struct_expr, other, FieldList, no_fields,
  field, AstFile, AstPackage, object_by_func, object_in, eq_object_name, get_pkg_name,
  get_type_name,
}
use goen.Asts.Lookup.{parse_pkg_path, find_pkg_path, or_panic}
use goen.AstTypes.{
  at_file, AType, AStruct, is_primitive, primitive_names, embedded_struct, path_package, package_of,
  or_undeclared, new_struct_from_ast,
}
use goen.AstTypes.Shown.{Shown, known, declared, shown, declaration}
use goen.AstTypes.Kinds.Fuel.{Ranks}
use goen.AstTypes.Kinds.Places.{IsClosed}
use goen.AstTypes.Embedding.{IsRanked, IsEmbedded}
use goen.Tests.Packages.{tools, blog, time_package}

abbrev pub Sample : AstPackage → Type 0
Sample pkg = ◌⊎◌ (pkg ≡ blog) (pkg ≡ time_package)

-- A name stands for a struct type of the sample.
abbrev pub rank : AType → ℕ
rank at = elim at.decl [ ident n ↦ 1 | selector p t ↦ 1 | _ ↦ 0 ]

abbrev has_embedded : FieldList → ℕ
has_embedded no_fields = 0
has_embedded (field [] e tag fs) = 1
has_embedded (field (n ∷ names) e tag fs) = has_embedded fs

abbrev pub struct_rank : AStruct → ℕ
struct_rank s = has_embedded s.field_list

parse_pkg_path-Sample : (path : Str) → IfOk Sample (parse_pkg_path tools path)
unfolding parse_pkg_path lookup str_eq
parse_pkg_path-Sample path = elim (Bool-cases (str_eq path (codes "time"))) [
  | inl e ↦
      subst (λ s. IfOk Sample (parse_pkg_path tools s)) (sym ((str_eq_iff path (codes "time")).0 e))
        (inr refl)
  | inr e ↦ rw e tt
]

pub tools-IsClosed : IsClosed tools Sample
tools-IsClosed path pkg e =
    IfOk-ok Sample (parse_pkg_path tools path) pkg (parse_pkg_path-Sample path) e

abbrev IsLower : Shown → Type 0
IsLower (known k) = Unit
IsLower (declared t) = Sample t.pkg × (rank t < 1)

blog_declared : (name : Str) → IfOk IsLower (declaration blog name)
unfolding declaration object_by_func object_in eq_object_name
blog_declared name = elim (Bool-cases (str_eq (codes "Post") name)) [
  | inl e ↦ rw e (inl refl, omega arith)
  | inr e ↦ elim (Bool-cases (str_eq (codes "Comment") name)) [
    | inl e' ↦ rw (e, e') (inl refl, omega arith)
    | inr e' ↦ rw (e, e') tt
  ]
]

time_declared : (name : Str) → IfOk IsLower (declaration time_package name)
unfolding declaration object_by_func object_in eq_object_name
time_declared name = elim (Bool-cases (str_eq (codes "Time") name)) [
  | inl e ↦ rw e (inr refl, omega arith)
  | inr e ↦ rw e tt
]

declaration-IsLower :
    (pkg : AstPackage) (name : Str) → Sample pkg → IfOk IsLower (declaration pkg name)
declaration-IsLower pkg name (inl e) =
    subst (λ p. IfOk IsLower (declaration p name)) (sym e) (blog_declared name)
declaration-IsLower pkg name (inr e) =
    subst (λ p. IfOk IsLower (declaration p name)) (sym e) (time_declared name)

abbrev IsBelow : ℕ → Shown → Type 0
IsBelow n (known k) = Unit
IsBelow n (declared t) = Sample t.pkg × (rank t < n)

IsLower-IsBelow : (r : Result Shown) → IfOk IsLower r → IfOk (IsBelow 1) r
IsLower-IsBelow (ok (known k)) h = tt
IsLower-IsBelow (ok (declared t)) h = h
IsLower-IsBelow (err e) h = tt
IsLower-IsBelow (panic p) h = tt

or_panic-Sample : (r : Result AstPackage) → IfOk Sample r → IfOk Sample (or_panic r)
or_panic-Sample (ok pkg) h = h
or_panic-Sample (err e) h = tt
or_panic-Sample (panic p) h = tt

shown-IsBelow :
    (pkg : AstPackage) (file : AstFile) (e : Expr)
    → Sample pkg
    → IfOk (IsBelow (rank (at_file pkg file e))) (shown tools (at_file pkg file e))
unfolding shown
shown-IsBelow pkg file (ident n) h =
    IfOk-if (IsBelow 1) (is_primitive primitive_names n) (ok (known basic)) (declaration pkg n) tt
      (IsLower-IsBelow (declaration pkg n) (declaration-IsLower pkg n h))
shown-IsBelow pkg file (star e) h = tt
shown-IsBelow pkg file (slice_type e) h = tt
shown-IsBelow pkg file (array_type l e) h = tt
shown-IsBelow pkg file (selector p t) h =
    IfOk-bind _ (IsBelow 1) (find_pkg_path tools file p) _ (IfOk-any (find_pkg_path tools file p))
      (λ path i.
        IfOk-bind Sample (IsBelow 1) (or_panic (parse_pkg_path tools path)) _
          (or_panic-Sample (parse_pkg_path tools path) (parse_pkg_path-Sample path))
          (λ found q. IsLower-IsBelow (declaration found t) (declaration-IsLower found t q)))
shown-IsBelow pkg file (struct_expr fs) h = tt
shown-IsBelow pkg file (other k es) h = tt

pub tools-Ranks : Ranks tools Sample rank
tools-Ranks at t p e =
    IfOk-ok (IsBelow (rank at)) (shown tools at) (declared t)
      (shown-IsBelow at.pkg at.file at.decl p) e

-- A struct type that embeds nothing.
abbrev IsFlat : AStruct → Type 0
IsFlat t = Sample t.pkg × (struct_rank t < 1)

abbrev found_struct : AstPackage → Str → Run AStruct
found_struct pkg name =
    fail (or_undeclared name (object_by_func (eq_object_name name) pkg.files)) >>= λ (file, obj).
    fail (new_struct_from_ast pkg file obj)

blog-IsFlat : (name : Str) → IfDone IsFlat (found_struct blog name)
unfolding object_by_func object_in eq_object_name new_struct_from_ast
blog-IsFlat name = elim (Bool-cases (str_eq (codes "Post") name)) [
  | inl e ↦ rw e (inl refl, omega arith)
  | inr e ↦ elim (Bool-cases (str_eq (codes "Comment") name)) [
    | inl e' ↦ rw (e, e') (inl refl, omega arith)
    | inr e' ↦ rw (e, e') tt
  ]
]

time-IsFlat : (name : Str) → IfDone IsFlat (found_struct time_package name)
unfolding object_by_func object_in eq_object_name new_struct_from_ast
time-IsFlat name = elim (Bool-cases (str_eq (codes "Time") name)) [
  | inl e ↦ rw e (inr refl, omega arith)
  | inr e ↦ rw e tt
]

found_struct-IsFlat :
    (pkg : AstPackage) (name : Str) → Sample pkg → IfDone IsFlat (found_struct pkg name)
found_struct-IsFlat pkg name (inl e) =
    subst (λ p. IfDone IsFlat (found_struct p name)) (sym e) (blog-IsFlat name)
found_struct-IsFlat pkg name (inr e) =
    subst (λ p. IfDone IsFlat (found_struct p name)) (sym e) (time-IsFlat name)

found_package : (path : Result Str) → IfDone Sample (fail (path_package tools path))
found_package (ok path) = parsed_done (parse_pkg_path tools path) (parse_pkg_path-Sample path)
  where
    parsed_done : (r : Result AstPackage) → IfOk Sample r → IfDone Sample (fail (or_panic r))
    parsed_done (ok pkg) h = h
    parsed_done (err e) h = tt
    parsed_done (panic p) h = tt
found_package (err e) = tt
found_package (panic p) = tt

package_of-Sample :
    (pkg : AstPackage) (file : AstFile) (name : Str)
    → Sample pkg
    → IfDone Sample (fail (package_of tools pkg file name))
unfolding package_of
package_of-Sample pkg file [] h = h
package_of-Sample pkg file (c ∷ s) h = found_package (find_pkg_path tools file (c ∷ s))

embedded_struct-IsFlat :
    (s : AStruct) (e : Expr) → Sample s.pkg → IfDone IsFlat (embedded_struct tools s e)
unfolding embedded_struct
embedded_struct-IsFlat s e p =
    IfDone-bind Sample IsFlat (fail (package_of tools s.pkg s.file (get_pkg_name e))) _
      (package_of-Sample s.pkg s.file (get_pkg_name e) p)
      (λ pkg q. found_struct-IsFlat pkg (get_type_name e) q)

embeds_some : (e : Expr) (fs : FieldList) → IsEmbedded e fs → 1 ≤ has_embedded fs
embeds_some e no_fields h = elim h [ ]
embeds_some e (field [] t tag fs) h = omega arith
embeds_some e (field (n ∷ names) t tag fs) h = embeds_some e fs h

pub tools-IsRanked : IsRanked tools Sample struct_rank
tools-IsRanked s t e p i eq =
    let (q, flat) =
      IfDone-done IsFlat (embedded_struct tools s e) t (embedded_struct-IsFlat s e p) eq in
    (q, less flat (embeds_some e s.field_list i))
  where
    less : {a b c : ℕ} → a < b → b ≤ c → a < c
    less x y = omega arith
