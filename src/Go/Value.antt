-- ===== src/Go/Value.antt =====
-- Values of any type (interface{}), as the code looks at them: by kind (`isEmptyValue` of meta.go)
-- and by `reflect.DeepEqual` (`isCompat` of compiler.go). The first argument is the type's name.
pub mod Canonical
use goen.Prelude.{
  ℕ, ◌%◌, ◌^◌, Bool, true, false, ◌&&◌, ◌||◌, not, Option, none, some, List, [], ◌∷◌, Str, ℤ, pos,
  negsuc, int_eq, str_eq, ltb, ◌==◌,
}

-- `float` holds an IEEE 754 bit pattern of 64 bits. `seq` is an array, slice or map by its elements
-- as bytes, with `none` for nil. `strct` is a value of any other kind, by its content.
pub data Value : Type 0 where
  nil : Value
  nil_ptr : Str → Value
  ptr : Str → Value → Value
  bool : Str → Bool → Value
  int : Str → ℤ → Value
  uint : Str → ℕ → Value
  float : Str → ℕ → Value
  string : Str → Str → Value
  seq : Str → Option Str → Value
  strct : Str → Str → Value

-- Both zeros of IEEE 754.
float_is_zero : ℕ → Bool
float_is_zero bits = bits == 0 || bits == 2 ^ 63

float_is_nan : ℕ → Bool
float_is_nan bits = ltb 0x7ff0000000000000 (bits % 2 ^ 63)

-- Go's `==` on floats.
float_eq : ℕ → ℕ → Bool
unfolding float_is_zero float_is_nan
float_eq a b =
    not (float_is_nan a) && not (float_is_nan b) && (a == b || float_is_zero a && float_is_zero b)

int_is_zero : ℤ → Bool
int_is_zero (pos n) = n == 0
int_is_zero (negsuc n) = false

abbrev seq_is_empty : Option Str → Bool
seq_is_empty none = true
seq_is_empty (some []) = true
seq_is_empty (some (x ∷ xs)) = false

abbrev text_is_empty : Str → Bool
text_is_empty [] = true
text_is_empty (c ∷ s) = false

-- `isEmptyValue`: one clause for each case of its switch, and its final `return false`.
unfoldable pub is_empty_value : Value → Bool
unfolding int_is_zero float_is_zero
is_empty_value (seq t xs) = seq_is_empty xs
is_empty_value (string t s) = text_is_empty s
is_empty_value (bool t b) = not b
is_empty_value (int t n) = int_is_zero n
is_empty_value (uint t n) = n == 0
is_empty_value (float t bits) = float_is_zero bits
is_empty_value nil = true
is_empty_value (nil_ptr t) = true
is_empty_value (ptr t v) = false
is_empty_value (strct t s) = false

unfoldable pub bool_eq : Bool → Bool → Bool
bool_eq true b = b
bool_eq false b = not b

opt_eq : Option Str → Option Str → Bool
opt_eq none none = true
opt_eq (some a) (some b) = str_eq a b
opt_eq none (some b) = false
opt_eq (some a) none = false

-- `reflect.DeepEqual` on two values.
unfoldable pub deep_equal : Value → Value → Bool
unfolding bool_eq opt_eq float_eq
deep_equal nil nil = true
deep_equal (nil_ptr s) (nil_ptr t) = str_eq s t
deep_equal (ptr s a) (ptr t b) = str_eq s t && deep_equal a b
deep_equal (bool s a) (bool t b) = str_eq s t && bool_eq a b
deep_equal (int s a) (int t b) = str_eq s t && int_eq a b
deep_equal (uint s a) (uint t b) = str_eq s t && a == b
deep_equal (float s a) (float t b) = str_eq s t && float_eq a b
deep_equal (string s a) (string t b) = str_eq s t && str_eq a b
deep_equal (seq s a) (seq t b) = str_eq s t && opt_eq a b
deep_equal (strct s a) (strct t b) = str_eq s t && str_eq a b
deep_equal _ _ = false

-- `reflect.DeepEqual` on two lists of values.
unfoldable pub deep_equal_all : List Value → List Value → Bool
deep_equal_all [] [] = true
deep_equal_all (v ∷ vs) (w ∷ ws) = deep_equal v w && deep_equal_all vs ws
deep_equal_all _ _ = false
