-- ===== src/AstTypes/Kinds/Foreign.antt =====
-- `NewStruct` on a type of another package.
use goen.Prelude.{
  Bool, true, false, ◌||◌, List, [], ◌∷◌, ◌++◌, Str, codes, str_eq, ◌==◌, ==_iff, none, ℕ, ◌≡◌, ◌≢◌,
  some, refl, arith, All,
}
use goen.Go.Result.{ok}
use goen.Structs.Run.{fail, IfDone, IfDone-after, IfDone-done}
use goen.Asts.{GoTools, Object, AstFile, object_in, object_by_func, eq_object_name, selector}
use goen.AstTypes.{AType, AStruct}
use goen.AstTypes.Shown.{type_name, type_pkg_path, package_at}
use goen.AstTypes.Kinds.{kind, only_struct, new_struct}

-- An identifier has no full stop.
abbrev pub has_dot : Str → Bool
has_dot [] = false
has_dot (c ∷ s) = c == b'.' || has_dot s

abbrev pub IsIdent : Object → Type 0
IsIdent obj = has_dot obj.name ≡ false

has_dot-selector : (p t : Str) → has_dot (p ++ codes "." ++ t) ≡ true
has_dot-selector [] t = refl
has_dot-selector (c ∷ p) t = ground (arith, has_dot-selector p t)

has_dot-ne : (s t : Str) → has_dot s ≡ false → has_dot t ≡ true → str_eq s t ≡ false
unfolding str_eq
has_dot-ne [] [] h k = cc
has_dot-ne [] (c ∷ t) h k = refl
has_dot-ne (b ∷ s) [] h k = refl
has_dot-ne (b ∷ s) (c ∷ t) h k = ground (arith, has_dot-ne s t, ==_iff b c)

object_in-none :
    (name : Str) (file : AstFile) (objs : List Object)
    → has_dot name ≡ true
    → All IsIdent objs
    → object_in (eq_object_name name) file objs ≡ none
unfolding object_in eq_object_name
object_in-none name file [] d h = refl
object_in-none name file (obj ∷ objs) d (i, h) =
    rw (has_dot-ne obj.name name i d) (object_in-none name file objs d h)

object_by_func-none :
    (name : Str) (files : List AstFile)
    → has_dot name ≡ true
    → All (λ file. All IsIdent file.objects) files
    → object_by_func (eq_object_name name) files ≡ none
unfolding object_by_func
object_by_func-none name [] d h = refl
object_by_func-none name (file ∷ files) d (i, h) =
    rw (object_in-none name file file.objects d i) (object_by_func-none name files d h)

foreign_fails :
    (go : GoTools) (fuel : ℕ) (at : AType) (p t : Str)
    → at.decl ≡ selector p t
    → All (λ file. All IsIdent file.objects) at.pkg.files
    → IfDone (λ strct. ⊥) (new_struct go fuel at)
unfolding new_struct type_name
foreign_fails go fuel at p t e h = IfDone-after Q (kind go fuel at) _ (λ k e1.
    IfDone-after Q (fail (only_struct k)) _ (λ k' e2.
      IfDone-after Q (fail (type_pkg_path go at)) _ (λ path e3.
        IfDone-after Q (fail (package_at go at path)) _ (λ pkg e4.
          rw (e, object_by_func-none (p ++ codes "." ++ t) at.pkg.files (has_dot-selector p t) h)
            tt))))
  where
    Q : AStruct → Type 0
    Q s = ⊥

-- If no object of the type's package has a full stop in its name, `NewStruct` never succeeds on a type
-- of another package.
pub new_struct-foreign :
    (go : GoTools) (fuel : ℕ) (at : AType) (p t : Str) (strct : AStruct)
    → at.decl ≡ selector p t
    → All (λ file. All IsIdent file.objects) at.pkg.files
    → new_struct go fuel at ≢ some (ok strct)
new_struct-foreign go fuel at p t strct e h made =
    IfDone-done (λ s. ⊥) (new_struct go fuel at) strct (foreign_fails go fuel at p t e h) made
