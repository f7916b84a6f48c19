-- ===== src/AstTypes/Kinds/Fuel.antt =====
-- How far `Kind` and the functions over it, of internal/structs_a.go, follow declarations.
use goen.Prelude.{Bool, false, ℕ, zero, suc, Option, none, some, ◌≡◌, ◌<◌, refl, sym, subst, arith}
use goen.Go.Result.{Result, ok, err, panic}
use goen.Structs.{Kind, FieldOf, is_struct_kind}
use goen.Structs.Run.{Run, pure, fail, ◌>>=◌, IfDone-done}
use goen.Structs.Run.Settling.{
  Settles, Settles-some, Settles-suc, Settles-shift, Settles-bind, Settles-fail, Settles-if,
}
use goen.Asts.{
  GoTools, Expr, ident, star, slice_type, array_type, selector, struct_expr, other, AstPackage,
  AstFile,
}
use goen.AstTypes.{at_file, AType}
use goen.AstTypes.Shown.{Shown, known, declared, shown, type_pkg_path, package_at, struct_named}
use goen.AstTypes.Kinds.Places.{strip-pkg}
use goen.AstTypes.Kinds.{
  follow, kind, strip, elem, or_nil, only_struct, new_struct, is_slice, is_pointer,
  is_pointer_or_slice, is_one_to_many_field, is_many_to_one_field,
}

-- Each declaration that a type of the program's packages names is in one of them, and has a lower
-- rank than the type.
abbrev pub Ranks : GoTools → (AstPackage → Type 0) → (AType → ℕ) → Type 0
Ranks go Program rank =
    (at t : AType)
    → Program at.pkg
    → shown go at ≡ ok (declared t)
    → Program t.pkg × (rank t < rank at)

follow-Settles :
    (kind_of : ℕ → AType → Run Kind) (r : Result Shown)
    → ((t : AType) → r ≡ ok (declared t) → Settles (λ m. kind_of m t))
    → Settles (λ m. follow (kind_of m) r)
follow-Settles kind_of (ok (known k)) h = Settles-some (ok k)
follow-Settles kind_of (ok (declared t)) h = h t refl
follow-Settles kind_of (err e) h = Settles-some (err e)
follow-Settles kind_of (panic p) h = Settles-some (panic p)

module _ (go : GoTools) (Program : AstPackage → Type 0) (rank : AType → ℕ)
    (ranks : Ranks go Program rank) where
  kind_below :
      (bound : ℕ) (at : AType) → Program at.pkg → rank at < bound → Settles (λ m. kind go m at)
  unfolding kind
  kind_below zero at p lt = ground arith
  kind_below (suc bound) at p lt =
      Settles-suc (λ m. kind go m at)
        (follow-Settles (kind go) (shown go at)
          (λ t e. let (q, less) = ranks at t p e in kind_below bound t q (below less lt)))
    where
      below : {a b c : ℕ} → a < b → b < suc c → a < c
      below p q = omega arith

  pub kind-Settles : (at : AType) → Program at.pkg → Settles (λ m. kind go m at)
  kind-Settles at p = kind_below (suc (rank at)) at p (omega arith)

  strip_round :
      (wraps : Kind → Bool) (at : AType)
      → Program at.pkg
      → ((inner : AType) → elem at ≡ ok (some inner) → Settles (λ m. strip go wraps m inner))
      → Settles (λ m. strip go wraps m at)
  unfolding strip
  strip_round wraps at p h =
      Settles-suc (λ m. strip go wraps m at)
        (Settles-bind (λ m. kind go (suc m) at) _
          (Settles-shift (λ m. kind go m at) (kind-Settles at p))
          (λ k n e.
            Settles-if (wraps k) (λ m. pure at) _ (Settles-some (ok at))
              (Settles-fail (elem at) _ (λ inner i. unwrap inner i))))
    where
      unwrap :
          (o : Option AType) → elem at ≡ ok o → Settles (λ m. fail (or_nil o) >>= strip go wraps m)
      unwrap none i = Settles-some _
      unwrap (some inner) i = h inner i

  strip_inner :
      (wraps : Kind → Bool) (at t : AType)
      → Program at.pkg
      → elem at ≡ ok (some t)
      → Settles (λ m. strip go wraps m t)
      → Settles (λ m. strip go wraps m at)
  strip_inner wraps at t p e h =
      strip_round wraps at p
        (λ inner i. subst (λ x. Settles (λ m. strip go wraps m x)) (same inner i) h)
    where
      same : (inner : AType) → elem at ≡ ok (some inner) → t ≡ inner
      same inner i = cc (e, i)

  strip_end :
      (wraps : Kind → Bool) (at : AType)
      → Program at.pkg
      → ((inner : AType) → ¬ (elem at ≡ ok (some inner)))
      → Settles (λ m. strip go wraps m at)
  strip_end wraps at p h = strip_round wraps at p (λ inner i. elim (h inner i) [ ])

  strip_expr :
      (wraps : Kind → Bool) (pkg : AstPackage) (file : AstFile) (e : Expr)
      → Program pkg
      → Settles (λ m. strip go wraps m (at_file pkg file e))
  unfolding elem
  strip_expr wraps pkg file (ident n) q = strip_end wraps _ q (λ inner i. ground arith)
  strip_expr wraps pkg file (star e) q =
      strip_inner wraps _ _ q refl (strip_expr wraps pkg file e q)
  strip_expr wraps pkg file (slice_type e) q =
      strip_inner wraps _ _ q refl (strip_expr wraps pkg file e q)
  strip_expr wraps pkg file (array_type l e) q =
      strip_inner wraps _ _ q refl (strip_expr wraps pkg file e q)
  strip_expr wraps pkg file (selector p t) q = strip_end wraps _ q (λ inner i. ground arith)
  strip_expr wraps pkg file (struct_expr fs) q = strip_end wraps _ q (λ inner i. ground arith)
  strip_expr wraps pkg file (other k es) q = strip_end wraps _ q (λ inner i. ground arith)

  pub strip-Settles :
      (wraps : Kind → Bool) (at : AType) → Program at.pkg → Settles (λ m. strip go wraps m at)
  strip-Settles wraps at p = strip_expr wraps at.pkg at.file at.decl p

  -- What is found behind pointers and slices is of the same package.
  pub found_in :
      (wraps : Kind → Bool) (at t : AType) (fuel : ℕ)
      → Program at.pkg
      → strip go wraps fuel at ≡ some (ok t)
      → Program t.pkg
  found_in wraps at t fuel p e =
      subst Program
        (sym (
          IfDone-done (λ x. x.pkg ≡ at.pkg) (strip go wraps fuel at) t (strip-pkg go wraps fuel at)
            e))
        p

  pub new_struct-Settles : (at : AType) → Program at.pkg → Settles (λ m. new_struct go m at)
  unfolding new_struct
  new_struct-Settles at p =
      Settles-bind (λ m. kind go m at) _ (kind-Settles at p)
        (λ k n e. Settles-fail (only_struct k) _ (λ k' e1.
          Settles-fail (type_pkg_path go at) _ (λ path e2.
            Settles-fail (package_at go at path) _ (λ pkg e3. Settles-some (struct_named at pkg)))))

  pub is_one_to_many_field-Settles :
      (f : FieldOf AType) → Program f.typ.pkg → Settles (λ m. is_one_to_many_field go m f)
  unfolding is_one_to_many_field
  is_one_to_many_field-Settles f p =
      Settles-bind (λ m. kind go m f.typ) _ (kind-Settles f.typ p)
        (λ k n e.
          Settles-if (is_slice k) (λ m. pure false) _ (Settles-some (ok false))
            (Settles-bind (λ m. strip go is_pointer_or_slice m f.typ) _
              (strip-Settles is_pointer_or_slice f.typ p)
              (λ t n e1.
                Settles-bind (λ m. kind go m t) _
                  (kind-Settles t (found_in is_pointer_or_slice f.typ t n p e1))
                  (λ kt n e2. Settles-some (is_struct_kind kt)))))

  pub is_many_to_one_field-Settles :
      (f : FieldOf AType) → Program f.typ.pkg → Settles (λ m. is_many_to_one_field go m f)
  unfolding is_many_to_one_field
  is_many_to_one_field-Settles f p =
      Settles-bind (λ m. strip go is_pointer m f.typ) _ (strip-Settles is_pointer f.typ p)
        (λ t n e1.
          Settles-bind (λ m. kind go m t) _ (kind-Settles t (found_in is_pointer f.typ t n p e1))
            (λ kt n e2. Settles-some (is_struct_kind kt)))
