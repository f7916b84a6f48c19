-- ===== src/AstTypes/Kinds/Places.antt =====
-- In which packages the types and the struct types are that the functions of internal/structs_a.go
-- find.
use goen.Prelude.{Bool, [], ◌∷◌, Str, ℕ, zero, suc, Option, none, some, ◌≡◌, refl, subst}
use goen.Go.Result.{Result, ok, err, panic}
use goen.Structs.{Kind}
use goen.Structs.Run.{pure, fail, IfDone, IfDone-bind, IfDone-after, IfDone-if}
use goen.Asts.{
  GoTools, Expr, ident, star, slice_type, array_type, selector, struct_expr, other, AstPackage,
  AstFile, Object, Decl, type_spec, other_decl, object_by_func, eq_object_name,
}
use goen.Asts.Lookup.{parse_pkg_path, or_panic}
use goen.AstTypes.{at_file, AType, AStruct, struct_of_expr, struct_of_decl, new_struct_from_ast}
use goen.AstTypes.Shown.{type_name, type_pkg_path, package_at, struct_found, struct_named}
use goen.AstTypes.Kinds.{elem, or_nil, kind, strip, only_struct, new_struct}

abbrev InSame : AType → Option AType → Type 0
InSame at none = Unit
InSame at (some t) = t.pkg ≡ at.pkg

elem_expr-pkg :
    (pkg : AstPackage) (file : AstFile) (e : Expr)
    → IfDone (InSame (at_file pkg file e)) (fail (elem (at_file pkg file e)))
unfolding elem
elem_expr-pkg pkg file (ident n) = tt
elem_expr-pkg pkg file (star e) = refl
elem_expr-pkg pkg file (slice_type e) = refl
elem_expr-pkg pkg file (array_type l e) = refl
elem_expr-pkg pkg file (selector p t) = tt
elem_expr-pkg pkg file (struct_expr fs) = tt
elem_expr-pkg pkg file (other k es) = tt

elem-pkg : (at : AType) → IfDone (InSame at) (fail (elem at))
elem-pkg at = elem_expr-pkg at.pkg at.file at.decl

or_nil-pkg :
    (at : AType) (o : Option AType) → InSame at o → IfDone (λ t. t.pkg ≡ at.pkg) (fail (or_nil o))
or_nil-pkg at none h = tt
or_nil-pkg at (some t) h = h

pub strip-pkg :
    (go : GoTools) (wraps : Kind → Bool) (fuel : ℕ) (at : AType)
    → IfDone (λ t. t.pkg ≡ at.pkg) (strip go wraps fuel at)
unfolding strip
strip-pkg go wraps zero at = tt
strip-pkg go wraps (suc fuel) at = IfDone-after Q (kind go (suc fuel) at) _ (λ k e.
    IfDone-if Q (wraps k) (pure at) _ refl (
      IfDone-bind (InSame at) Q (fail (elem at)) _ (elem-pkg at) (λ o h.
        IfDone-bind Q Q (fail (or_nil o)) _ (or_nil-pkg at o h) (λ inner same.
          subst (λ p. IfDone (λ t. t.pkg ≡ p) (strip go wraps fuel inner)) same
            (strip-pkg go wraps fuel inner)))))
  where
    Q : AType → Type 0
    Q t = t.pkg ≡ at.pkg

module _ (go : GoTools) (Program : AstPackage → Type 0) where
  -- What is imported belongs to the program.
  abbrev pub IsClosed : Type 0
  IsClosed = (path : Str) (pkg : AstPackage) → parse_pkg_path go path ≡ ok pkg → Program pkg

  abbrev pub InProgram : AStruct → Type 0
  InProgram s = Program s.pkg

  pub new_struct_from_ast-pkg :
      (pkg : AstPackage) (file : AstFile) (obj : Object)
      → Program pkg
      → IfDone InProgram (fail (new_struct_from_ast pkg file obj))
  unfolding new_struct_from_ast
  new_struct_from_ast-pkg pkg file obj p = of_decl obj.decl
    where
      of_expr : (n : Str) (e : Expr) → IfDone InProgram (fail (struct_of_expr pkg file n e))
      of_expr n (struct_expr fs) = p
      of_expr n (ident x) = tt
      of_expr n (star x) = tt
      of_expr n (slice_type x) = tt
      of_expr n (array_type x y) = tt
      of_expr n (selector x y) = tt
      of_expr n (other x y) = tt

      of_decl : (d : Decl) → IfDone InProgram (fail (struct_of_decl pkg file d))
      of_decl (type_spec n e) = of_expr n e
      of_decl other_decl = tt

  or_panic-pkg :
      (r : Result AstPackage)
      → ((pkg : AstPackage) → r ≡ ok pkg → Program pkg)
      → IfDone Program (fail (or_panic r))
  or_panic-pkg (ok pkg) h = h pkg refl
  or_panic-pkg (err e) h = tt
  or_panic-pkg (panic p) h = tt

  package_at-pkg :
      (at : AType) (path : Str)
      → IsClosed
      → Program at.pkg
      → IfDone Program (fail (package_at go at path))
  package_at-pkg at [] closed p = p
  package_at-pkg at (c ∷ s) closed p = or_panic-pkg (parse_pkg_path go (c ∷ s)) (closed (c ∷ s))

  struct_named-pkg :
      (at : AType) (pkg : AstPackage) → Program pkg → IfDone InProgram (fail (struct_named at pkg))
  struct_named-pkg at pkg p =
      of_found (object_by_func (eq_object_name (type_name at.decl)) at.pkg.files)
    where
      of_found : (o : Option (AstFile × Object)) → IfDone InProgram (fail (struct_found at pkg o))
      of_found none = tt
      of_found (some (file, obj)) = new_struct_from_ast-pkg pkg file obj p

  pub new_struct-pkg :
      (fuel : ℕ) (at : AType) → IsClosed → Program at.pkg → IfDone InProgram (new_struct go fuel at)
  unfolding new_struct
  new_struct-pkg fuel at closed p = IfDone-after InProgram (kind go fuel at) _ (λ k e.
      IfDone-after InProgram (fail (only_struct k)) _ (λ k' e1.
        IfDone-after InProgram (fail (type_pkg_path go at)) _ (λ path e2.
          IfDone-bind Program InProgram (fail (package_at go at path)) _
            (package_at-pkg at path closed p) (λ pkg q. struct_named-pkg at pkg q))))
