-- ===== src/Generated/Objects.antt =====
-- The structs that generated code reads from the database: pointers to them, and the fields of them
-- that hold other such pointers.
use goen.Prelude.{
  ℕ, suc, ◌==◌, Bool, false, List, [], ◌∷◌, Str, str_eq, if◌then◌else◌, Option, none, some,
}
use goen.Go.Result.{Result, ok, panic, message}
use goen.Go.Map.{lookup}
use goen.Go.Value.{Value}
use goen.Structs.{GoType, ptr_to, struct_type, invalid_type}
use goen.Scan.{Scanned, struct_value, pointer_value}
use goen.Meta.{Entity}

-- A pointer to a struct: where it points to, and the columns of the struct, which nothing here
-- changes.
pub record Object : Type 0 where
  pub address : ℕ
  pub entity : Entity

-- The fields that hold relations, by the address of the struct and the field's name, and the address
-- of the next struct that is made.
pub record Heap : Type 0 where
  pub next : ℕ
  pub many : ℕ → Str → List Object
  pub one : ℕ → Str → Option Object

-- A slice of pointers in an interface{}; `points_to` is the struct type that they point to.
pub record Records : Type 0 where
  pub points_to : Str
  pub objects : List Object

abbrev pub set_many : ℕ → Str → List Object → Heap → Heap
set_many a field l h = record h {
  many = λ b g. if a == b then (if str_eq field g then l else h.many b g) else h.many b g;
}

abbrev pub set_one : ℕ → Str → Object → Heap → Heap
set_one a field x h = record h {
  one = λ b g. if a == b then (if str_eq field g then some x else h.one b g) else h.one b g;
}

-- `reflect.New`: all fields of the new struct are nil.
abbrev pub with_struct : Heap → Heap
with_struct h = record {
  next = suc h.next;
  many = λ a g. if a == h.next then [] else h.many a g;
  one = λ a g. if a == h.next then none else h.one a g;
}

abbrev pub is_pointer_to : Str → GoType → Bool
is_pointer_to typ (ptr_to (struct_type s)) = str_eq s typ
is_pointer_to typ _ = false

-- `refe.(*T)`
unfoldable pub as_pointer_to : Str → Object → Result Object
as_pointer_to typ x =
    if is_pointer_to typ x.entity.typ
    then ok x
    else panic (message "interface conversion: interface {} is not *" typ)

abbrev or_zero : Option Value → Option Value → Option Value
or_zero (some v) z = some v
or_zero none z = z

-- `zero` gives the fields of a struct that reflect.New made, by its type.
module _ (zero_field : Str → Str → Option Value) where
  -- A scanned struct as an entity; a scan into a pointer to a struct gives nothing else.
  abbrev pub entity_of : Scanned → Entity
  entity_of (pointer_value (struct_value typ fs)) = record {
    typ = ptr_to (struct_type typ);
    field_by_name = λ name. or_zero (lookup name fs) (zero_field typ name);
  }
  entity_of _ = record { typ = invalid_type; field_by_name = λ name. none }

  -- The structs of the rows, in order.
  unfoldable pub allocate : List Scanned → Heap → List Object × Heap
  allocate [] h = ([], h)
  allocate (s ∷ rows) h =
      let (objects, h') = allocate rows (with_struct h) in
      (record { address = h.next; entity = entity_of s } ∷ objects, h')
