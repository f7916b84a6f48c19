-- ===== src/AstTypes/Kinds.antt =====
-- `Kind`, `Elem` and `NewStruct` of internal/structs_a.go, and the loops of
-- internal/structs.go and generator/generator.go over them.
pub mod Fuel
pub mod Places
pub mod Foreign
use goen.Prelude.{
  Bool, true, false, ◌||◌, List, [], ◌∷◌, ◌++◌, Str, codes, str_eq, if◌then◌else◌, Option, none,
  some, ℕ, zero, suc,
}
use goen.Go.Result.{Result, ok, err, panic, message}
use goen.Structs.{Kind, invalid, pointer, slice, struct, basic, FieldOf, is_struct_kind}
use goen.Structs.Run.{Run, pure, fail, ◌>>=◌}
use goen.Asts.{
  GoTools, Expr, ident, star, slice_type, array_type, selector, struct_expr, other, Decl, type_spec,
  other_decl, Object, AstFile, AstPackage, eq_object_name, object_by_func,
}
use goen.Asts.Lookup.{parse_pkg_path, find_pkg_path, or_panic}
use goen.AstTypes.Shown.{
  Shown, known, declared, shown, type_pkg_path, package_at, struct_named, type_name,
}
use goen.AstTypes.{
  AType, AStruct, primitive_names, is_primitive, or_undeclared, new_struct_from_ast,
}

-- `aType.Elem`; `none` is nil.
unfoldable pub elem : AType → Result (Option AType)
elem at = elim at.decl [
  | ident n ↦ panic (message "goen: Elem of invalid type" [])
  | selector p t ↦ panic (message "goen: Elem of invalid type" [])
  | star e ↦ ok (some (record { pkg = at.pkg; file = at.file; decl = e }))
  | slice_type e ↦ ok (some (record { pkg = at.pkg; file = at.file; decl = e }))
  | array_type l e ↦ ok (some (record { pkg = at.pkg; file = at.file; decl = e }))
  | _ ↦ ok none
]

-- The method of a nil interface.
abbrev pub or_nil : {A : Type 0} → Option A → Result A
or_nil none = panic (message "invalid memory address or nil pointer dereference" [])
or_nil (some a) = ok a

abbrev pub is_pointer : Kind → Bool
is_pointer pointer = true
is_pointer _ = false

abbrev pub is_slice : Kind → Bool
is_slice slice = true
is_slice _ = false

abbrev pub is_struct : Kind → Bool
is_struct struct = true
is_struct _ = false

abbrev pub is_pointer_or_slice : Kind → Bool
is_pointer_or_slice k = is_pointer k || is_slice k

abbrev pub follow : (AType → Run Kind) → Result Shown → Run Kind
follow kind_of (ok (known k)) = pure k
follow kind_of (ok (declared at)) = kind_of at
follow kind_of (err e) = fail (err e)
follow kind_of (panic p) = fail (panic p)

abbrev pub only_struct : Kind → Result Kind
only_struct struct = ok struct
only_struct k = panic (message "goen: NewStruct is only with a struct type" [])

module _ (go : GoTools) where
  -- `aType.Kind`, on fuel for the declarations that it follows.
  unfoldable pub kind : ℕ → AType → Run Kind
  unfolding shown
  kind zero at = none
  kind (suc fuel) at = follow (kind fuel) (shown go at)

  -- `aType.NewStruct`: the object is looked up in the package of the type's expression.
  unfoldable pub new_struct : ℕ → AType → Run AStruct
  unfolding type_pkg_path type_name
  new_struct fuel at = do
    k ← kind fuel at
    k ← fail (only_struct k)
    path ← fail (type_pkg_path go at)
    pkg ← fail (package_at go at path)
    fail (struct_named at pkg)

  -- `for typ.Kind() == … { typ = typ.Elem() }`
  unfoldable pub strip : (Kind → Bool) → ℕ → AType → Run AType
  unfolding elem
  strip wraps zero at = none
  strip wraps (suc fuel) at = do
    k ← kind (suc fuel) at
    elim (wraps k) [
      | false ↦ pure at
      | true ↦ (do e ← fail (elem at); inner ← fail (or_nil e); strip wraps fuel inner)
    ]

  -- `IsOneToManyField`
  unfoldable pub is_one_to_many_field : ℕ → FieldOf AType → Run Bool
  is_one_to_many_field fuel f = do
    k ← kind fuel f.typ
    elim (is_slice k) [
      | false ↦ pure false
      | true ↦ (do
        t ← strip is_pointer_or_slice fuel f.typ
        kt ← kind fuel t
        fail (is_struct_kind kt))
    ]

  -- `IsManyToOneField`
  unfoldable pub is_many_to_one_field : ℕ → FieldOf AType → Run Bool
  is_many_to_one_field fuel f = do
    t ← strip is_pointer fuel f.typ
    kt ← kind fuel t
    fail (is_struct_kind kt)
