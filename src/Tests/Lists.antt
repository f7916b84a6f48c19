-- ===== src/Tests/Lists.antt =====
-- Runs of the typed lists of utils_gen.go over one list in memory.
use goen.Prelude.{ℕ, List, [], ◌∷◌, ◌++◌, map, length, none, some, ◌≡◌, refl, sym, ap, ◌∙◌}
use goen.Go.Result.{ok}
use goen.TypedList.{LinkedLists, Boxed, front, init}
use goen.TypedList.Walk.{first_of, Documented, walk, push_all, walk-push_all}

-- An element is known by the values from it on.
abbrev suffixes : List ℕ → List (List ℕ)
suffixes [] = []
suffixes (x ∷ xs) = (x ∷ xs) ∷ suffixes xs

abbrev head_or_zero : List ℕ → ℕ
head_or_zero [] = 0
head_or_zero (x ∷ xs) = x

abbrev rest : List ℕ → List ℕ
rest [] = []
rest (x ∷ xs) = xs

-- The operations that the loop does not use do nothing.
abbrev in_memory : LinkedLists (List ℕ) (Unit {0}) (List ℕ) ℕ
in_memory = record {
  new = λ h. (h, tt);
  init = λ l h. [];
  len = λ l h. length h;
  front = λ l h. first_of (suffixes h);
  back = λ l h. none;
  insert_after = λ a e l h. (h, none);
  insert_before = λ a e l h. (h, none);
  move_after = λ e mark l h. h;
  move_before = λ e mark l h. h;
  move_to_back = λ e l h. h;
  move_to_front = λ e l h. h;
  push_back = λ a l h. (h ++ a ∷ [], some (a ∷ []));
  push_front = λ a l h. (a ∷ h, some (a ∷ h));
  push_back_list = λ other l h. h;
  push_front_list = λ other l h. h;
  remove = λ e l h. (h, 0);
  next = λ e h. first_of (suffixes (rest e));
  prev = λ e h. none;
  value = λ e h. head_or_zero e;
  set_value = λ e a h. h;
}

abbrev numbers : Boxed ℕ ℕ
numbers = record { box = λ n. n; unbox = λ n. some n }

abbrev first_suffix : List ℕ → List (List ℕ) → List ℕ
first_suffix e [] = e
first_suffix e (x ∷ xs) = x

abbrev other_suffixes : List (List ℕ) → List (List ℕ)
other_suffixes [] = []
other_suffixes (x ∷ xs) = xs

next_suffix :
    (h : List ℕ) (before after : List (List ℕ)) (e : List ℕ)
    → suffixes h ≡ before ++ e ∷ after
    → first_of (suffixes (rest e)) ≡ first_of after
next_suffix [] [] after e h = cc
next_suffix [] (b ∷ before) after e h = cc
next_suffix (x ∷ xs) [] after e h =
    ap (λ s. first_of (suffixes (rest s))) (sym (ap (first_suffix e) h))
    ∙ ap first_of (ap other_suffixes h)
next_suffix (x ∷ xs) (b ∷ before) after e h = next_suffix xs before after e (ap other_suffixes h)

heads : (h : List ℕ) → map head_or_zero (suffixes h) ≡ h
heads [] = refl
heads (x ∷ xs) = ap (λ l. x ∷ l) (heads xs)

in_memory-Documented : Documented in_memory (λ l h. suffixes h)
in_memory-Documented = record {
  init_empties = λ l h. refl;
  front_first = λ l h. refl;
  next_follows = λ l h before after e eq. next_suffix h before after e eq;
  push_back_values = λ a l h. heads (h ++ a ∷ []) ∙ ap (λ m. m ++ a ∷ []) (sym (heads h));
}

walk-push_all_example :
    let filled = push_all in_memory numbers (3 ∷ 5 ∷ []) tt (init in_memory numbers tt (9 ∷ [])) in
    walk in_memory numbers 2 (front in_memory numbers tt filled) filled ≡ some (ok (3 ∷ 5 ∷ []))
walk-push_all_example =
    walk-push_all in_memory numbers (λ l h. suffixes h) (3 ∷ 5 ∷ []) tt (9 ∷ [])
      in_memory-Documented (λ v. refl)
