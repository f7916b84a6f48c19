-- ===== src/Tests/Deciding.antt =====
-- Tests for the conditions of theorems that run on concrete texts.
use goen.Prelude.{
  ℕ, Bool, true, false, ◌&&◌, not, [], ◌∷◌, Str, str_eq, str_eq_iff, ◌==◌, ==_iff, ◌≡◌, ◌≢◌, arith,
}
use goen.StructTag.Split.{Lacks}

pub str_ne : (s t : Str) → str_eq s t ≡ false → s ≢ t
str_ne s t h e = absurd (ground (arith, str_eq_iff s t))

abbrev pub lacks : ℕ → Str → Bool
lacks sep [] = true
lacks sep (c ∷ s) = not (c == sep) && lacks sep s

head_ne : (c sep : ℕ) (b : Bool) → (not (c == sep) && b) ≡ true → c ≢ sep
head_ne c sep b h e = absurd (ground (arith, ==_iff c sep))

tail_true : (c sep : ℕ) (b : Bool) → (not (c == sep) && b) ≡ true → b ≡ true
tail_true c sep b h = ground arith

pub lacks-Lacks : (sep : ℕ) (s : Str) → lacks sep s ≡ true → Lacks sep s
lacks-Lacks sep [] h = tt
lacks-Lacks sep (c ∷ s) h = (head_ne c sep _ h, lacks-Lacks sep s (tail_true c sep _ h))
