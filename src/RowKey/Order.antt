-- ===== src/RowKey/Order.antt =====
-- Go's order on strings is total, and sort.Strings puts a list in one order whatever it was in.
use mathlib.Core.List.{Permᴰ}
use goen.Prelude.{true, false, List, [], ◌∷◌, Str, str_le, ◌≡◌, refl, arith, ◌∙◌}
use goen.RowKey.{insert_sorted, sort_strings}

pub str_le_refl : (s : Str) → str_le s s ≡ true
unfolding str_le
str_le_refl [] = refl
str_le_refl (a ∷ s) = ground (arith, str_le_refl s)

pub str_le_total : (s t : Str) → str_le s t ≡ false → str_le t s ≡ true
unfolding str_le
str_le_total [] t h = cc
str_le_total (a ∷ s) [] h = refl
str_le_total (a ∷ s) (b ∷ t) h = ground (arith, str_le_total s t)

str_le_antisym : (s t : Str) → str_le s t ≡ true → str_le t s ≡ true → s ≡ t
unfolding str_le
str_le_antisym [] [] h k = refl
str_le_antisym [] (b ∷ t) h k = cc
str_le_antisym (a ∷ s) [] h k = cc
str_le_antisym (a ∷ s) (b ∷ t) h k = ground (arith, str_le_antisym s t)

str_le_trans : (s t u : Str) → str_le s t ≡ true → str_le t u ≡ true → str_le s u ≡ true
unfolding str_le
str_le_trans [] t u h k = refl
str_le_trans (a ∷ s) [] u h k = cc
str_le_trans (a ∷ s) (b ∷ t) [] h k = cc
str_le_trans (a ∷ s) (b ∷ t) (c ∷ u) h k = ground (arith, str_le_trans s t u)

insert_sorted_comm :
    (s t : Str) (l : List Str)
    → insert_sorted s (insert_sorted t l) ≡ insert_sorted t (insert_sorted s l)
unfolding insert_sorted
insert_sorted_comm s t [] = ground (arith, str_le_total s t, str_le_antisym s t)
insert_sorted_comm s t (u ∷ l) = ground (
  arith,
  str_le_total s t,
  str_le_antisym s t,
  str_le_trans s t u,
  str_le_trans t s u,
  str_le_total s u,
  str_le_total t u,
  insert_sorted_comm s t l,
)

pub sort_strings-Permᴰ : {l m : List Str} → Permᴰ l m → sort_strings l ≡ sort_strings m
unfolding sort_strings
sort_strings-Permᴰ Permᴰ.nil = refl
sort_strings-Permᴰ (Permᴰ.cons e d) = cc (sort_strings-Permᴰ d)
sort_strings-Permᴰ (Permᴰ.swap {a = a} {b = b} {l = l} e f) =
    rw (← e, ← f) (insert_sorted_comm a b (sort_strings l))
sort_strings-Permᴰ (Permᴰ.trans d e) = sort_strings-Permᴰ d ∙ sort_strings-Permᴰ e
