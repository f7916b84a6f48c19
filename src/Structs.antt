-- ===== src/Structs.antt =====
-- internal/structs.go over structs_r.go: struct types as package reflect shows them, their fields,
-- and what the struct tags of the fields say, which is in the child `Field`.
pub mod Embedding
mod Field
pub mod Run
unfoldable pub use Field.*
use goen.Prelude.{
  ℕ, zero, suc, Bool, true, false, ◌&&◌, not, List, [], ◌∷◌, ◌++◌, map, Str, str_eq, find?, filter,
  if◌then◌else◌, Option, none, some,
}
use goen.Go.Result.{Result, ok, err, panic, message, ◌>>=◌}
use goen.Go.Map.{Map, lookup}
use goen.StructTag.{
  StructTag, tag_table, tag_view, tag_primary_key, tag_column, tag_foreign_key, tag_ignore,
  first_lookup, has, table_spec_name, column_spec_name, column_spec_omit_empty, first_not_empty,
  parent_key, child_key,
}

-- reflect.Kind, as far as the code looks at it; a valid kind of another sort is `basic`.
pub data Kind : Type 0 where
  invalid pointer slice struct basic : Kind

-- A type; a struct type is known by its name.
pub data GoType : Type 0 where
  ptr_to slice_of : GoType → GoType
  struct_type basic_type : Str → GoType
  invalid_type : GoType

abbrev pub kind : GoType → Kind
kind (ptr_to t) = pointer
kind (slice_of t) = slice
kind (struct_type s) = struct
kind (basic_type s) = basic
kind invalid_type = invalid

-- reflect.StructField
abbrev pub StructField : Type 0
StructField = FieldOf GoType

-- The fields that each struct type declares.
abbrev pub Declarations : Type 0
Declarations = Str → List StructField

-- `for typ.Kind() == reflect.Ptr { typ = typ.Elem() }`
unfoldable pub strip_ptr : GoType → GoType
strip_ptr (ptr_to t) = strip_ptr t
strip_ptr t = t

-- The same for pointers and slices: `elemType` of meta.go.
unfoldable pub elem_type : GoType → GoType
elem_type (ptr_to t) = elem_type t
elem_type (slice_of t) = elem_type t
elem_type t = t

-- Only embedded structs are supported.
abbrev pub embedded_fields : (Str → Option (List StructField)) → GoType → Option (List StructField)
embedded_fields embedded (struct_type s) = embedded s
embedded_fields embedded _ = some []

-- What `Fields` of structs_r.go adds for one field; `embedded` gives the fields of a struct type.
abbrev pub add_field : (Str → Option (List StructField)) → StructField → Option (List StructField)
add_field embedded f =
    if f.anonymous then embedded_fields embedded (strip_ptr f.typ) else some (f ∷ [])

abbrev append_both :
    Option (List StructField) → Option (List StructField) → Option (List StructField)
append_both (some fs) (some gs) = some (fs ++ gs)
append_both none o = none
append_both (some fs) none = none

-- The loop of `Fields` over the declared fields.
unfoldable pub fields_loop :
    (Str → Option (List StructField)) → List StructField → Option (List StructField)
fields_loop embedded [] = some []
fields_loop embedded (f ∷ fs) = append_both (add_field embedded f) (fields_loop embedded fs)

-- `Fields`, on fuel for the depth of embedding; `none` means that the fuel ran out.
unfoldable pub fields : Declarations → ℕ → Str → Option (List StructField)
unfolding fields_loop
fields decls zero s = none
fields decls (suc fuel) s = fields_loop (fields decls fuel) (decls s)

-- `mustValidKind(kind) == reflect.Struct`
unfoldable pub is_struct_kind : Kind → Result Bool
is_struct_kind invalid = panic (message "goen: invalid kind of type" [])
is_struct_kind struct = ok true
is_struct_kind _ = ok false

unfoldable pub is_one_to_many_field : StructField → Result Bool
unfolding is_struct_kind elem_type
is_one_to_many_field f = elim f.typ [
  | slice_of t ↦ is_struct_kind (kind (elem_type (slice_of t)))
  | _ ↦ ok false
]

unfoldable pub is_many_to_one_field : StructField → Result Bool
unfolding is_struct_kind strip_ptr
is_many_to_one_field f = is_struct_kind (kind (strip_ptr f.typ))
