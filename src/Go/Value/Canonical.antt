-- ===== src/Go/Value/Canonical.antt =====
-- One value for each class of `deep_equal`: Go's two zeros are equal floats.
use goen.Prelude.{true, none, some, str_eq_iff, int_eq_iff, if◌then◌else◌, ◌≡◌, refl, arith}
use goen.Go.Value.{
  Value, nil, nil_ptr, ptr, bool, int, uint, float, string, seq, strct, float_is_zero, float_is_nan,
  deep_equal,
}

unfoldable pub canonical : Value → Value
unfolding float_is_zero
canonical (float t bits) = if float_is_zero bits then float t 0 else float t bits
canonical (ptr t v) = ptr t (canonical v)
canonical v = v

-- Values that `reflect.DeepEqual` takes for equal have one canonical form.
pub canonical-eq : (v w : Value) → deep_equal v w ≡ true → canonical v ≡ canonical w
unfolding deep_equal canonical float_is_nan
canonical-eq (ptr s a) (ptr t b) h = ground (arith, str_eq_iff s t, canonical-eq a b)
canonical-eq (nil_ptr s) (nil_ptr t) h = ground (arith, str_eq_iff s t)
canonical-eq (bool s a) (bool t b) h = ground (arith, str_eq_iff s t)
canonical-eq (int s a) (int t b) h = ground (arith, str_eq_iff s t, int_eq_iff a b)
canonical-eq (uint s a) (uint t b) h = ground (arith, str_eq_iff s t)
canonical-eq (float s a) (float t b) h = ground (arith, str_eq_iff s t)
canonical-eq (string s a) (string t b) h = ground (arith, str_eq_iff s t, str_eq_iff a b)
canonical-eq (seq s none) (seq t none) h = ground (arith, str_eq_iff s t)
canonical-eq (seq s (some a)) (seq t (some b)) h = ground (arith, str_eq_iff s t, str_eq_iff a b)
canonical-eq (strct s a) (strct t b) h = ground (arith, str_eq_iff s t, str_eq_iff a b)
canonical-eq nil nil h = refl
canonical-eq _ _ h = ground arith
