-- ===== src/Include/Slices.antt =====
-- The slice `IncludeLoaderList` of include_loader.go and the arrays behind slices, for the builders
-- that append to copies of one slice.
use goen.Prelude.{
  ℕ, zero, suc, ◌+◌, ◌≤◌, ◌<◌, leb, ◌==◌, true, List, [], ◌∷◌, ◌++◌, length, length-append, ◌≡◌,
  refl, sym, ap, ◌∙◌, append_assoc, append-nil, if◌then◌else◌, arith, inl, inr, Bool-cases,
}

-- An array is known by the elements that were written to it; `next` is the next array.
pub record Arrays (A : Type 0) : Type 0 where
  pub next : ℕ
  pub contents : ℕ → List A

-- A slice from the start of an array.
pub record Slice : Type 0 where
  pub array : ℕ
  pub len : ℕ
  pub cap : ℕ

module _ {A : Type 0} where
  abbrev pub take : ℕ → List A → List A
  take zero xs = []
  take (suc n) [] = []
  take (suc n) (x ∷ xs) = x ∷ take n xs

  abbrev pub drop : ℕ → List A → List A
  drop zero xs = xs
  drop (suc n) [] = []
  drop (suc n) (x ∷ xs) = drop n xs

  -- The elements of the slice.
  abbrev pub elements : Arrays A → Slice → List A
  elements m s = take s.len (m.contents s.array)

  abbrev pub write : ℕ → List A → Arrays A → Arrays A
  write i xs m = record m { contents = λ j. if i == j then xs else m.contents j }

  -- append(s, vs...): in place if there is room, else in a new array, whose capacity the Go runtime
  -- chooses from the old one and the length that is needed.
  unfoldable pub append : (ℕ → ℕ → ℕ) → List A → Arrays A × Slice → Arrays A × Slice
  append grow vs (m, s) =
      let n = s.len + length vs in
      if leb n s.cap
      then (
        write s.array ((elements m s ++ vs) ++ drop n (m.contents s.array)) m,
        record s { len = n },
      )
      else (
        record (write m.next (elements m s ++ vs) m) { next = suc m.next },
        record { array = m.next; len = n; cap = grow s.cap n },
      )

  -- The slice lies in an array that was made, within what was written to it.
  pub record IsWithin (m : Arrays A) (s : Slice) : Type 0 where
    pub made : s.array < m.next
    pub written : s.len ≤ length (m.contents s.array)

  take-append : (xs ys : List A) (n : ℕ) → n ≡ length xs → take n (xs ++ ys) ≡ xs
  take-append [] ys zero h = refl
  take-append [] ys (suc n) h = absurd (omega arith)
  take-append (x ∷ xs) ys zero h = absurd (omega arith)
  take-append (x ∷ xs) ys (suc n) h = ap (λ l. x ∷ l) (take-append xs ys n (omega arith))

  length-take : (n : ℕ) (xs : List A) → n ≤ length xs → length (take n xs) ≡ n
  length-take zero xs h = refl
  length-take (suc n) [] h = absurd (omega arith)
  length-take (suc n) (x ∷ xs) h = ap suc (length-take n xs (omega arith))

  write-same : (i : ℕ) (xs : List A) (m : Arrays A) → (write i xs m).contents i ≡ xs
  write-same i xs m = ground arith

  -- The room that the slice has in its array.
  abbrev in_place : List A → Arrays A → Slice → Arrays A
  in_place vs m s =
      write s.array ((elements m s ++ vs) ++ drop (s.len + length vs) (m.contents s.array)) m

  append-in_place :
      (grow : ℕ → ℕ → ℕ) (vs : List A) (m : Arrays A) (s : Slice)
      → s.len + length vs ≤ s.cap
      → append grow vs (m, s) ≡ (in_place vs m s, record s { len = s.len + length vs })
  unfolding append
  append-in_place grow vs m s h = rw (leb-true (s.len + length vs) s.cap h) refl
    where
      leb-true : (a b : ℕ) → a ≤ b → leb a b ≡ true
      leb-true a b h = ground arith

  in_place-elements :
      (vs : List A) (m : Arrays A) (s : Slice)
      → IsWithin m s
      → elements (in_place vs m s) (record s { len = s.len + length vs }) ≡ elements m s ++ vs
  in_place-elements vs m s h =
      let rest = drop (s.len + length vs) (m.contents s.array) in
      ap (take (s.len + length vs)) (write-same s.array _ m)
      ∙ take-append (elements m s ++ vs) rest (s.len + length vs) (
          sym (
            length-append (elements m s) vs
            ∙ ap (λ n. n + length vs) (length-take s.len (m.contents s.array) h.written)))

  in_place-shorter :
      (vs : List A) (m : Arrays A) (s : Slice)
      → IsWithin m s
      → elements (in_place vs m s) s ≡ elements m s
  in_place-shorter vs m s h =
      let rest = drop (s.len + length vs) (m.contents s.array) in
      ap (take s.len) (write-same s.array _ m ∙ append_assoc (elements m s) vs rest)
      ∙ take-append (elements m s) (vs ++ rest) s.len
          (sym (length-take s.len (m.contents s.array) h.written))

  in_place-written :
      (vs : List A) (m : Arrays A) (s : Slice)
      → IsWithin m s
      → s.len + length vs ≤ length ((in_place vs m s).contents s.array)
  in_place-written vs m s h =
      let rest = drop (s.len + length vs) (m.contents s.array) in
      let whole : length ((in_place vs m s).contents s.array) ≡ s.len + length vs + length rest =
        ap length (write-same s.array _ m)
        ∙ length-append (elements m s ++ vs) rest
        ∙ ap (λ n. n + length rest)
            (length-append (elements m s) vs
              ∙ ap (λ n. n + length vs) (length-take s.len (m.contents s.array) h.written)) in
      omega (arith, whole)

  in_place-IsWithin :
      (vs : List A) (m : Arrays A) (s : Slice) → IsWithin m s → IsWithin (in_place vs m s) s
  in_place-IsWithin vs m s h = record {
    made = h.made;
    written = omega (arith, in_place-written vs m s h);
  }

  -- What `append` returns.
  abbrev pub IsAppended : List A → Arrays A → Slice → Arrays A × Slice → Type 0
  IsAppended vs m s (m', s') = IsWithin m' s' × (elements m' s' ≡ elements m s ++ vs)

  moved-IsAppended :
      (c : ℕ) (vs : List A) (m : Arrays A) (s : Slice)
      → IsWithin m s
      → IsAppended vs m s (
        record (write m.next (elements m s ++ vs) m) { next = suc m.next },
        record { array = m.next; len = s.len + length vs; cap = c },
      )
  moved-IsAppended c vs m s h =
      let size : s.len + length vs ≡ length (elements m s ++ vs) = sym (
        length-append (elements m s) vs
        ∙ ap (λ n. n + length vs) (length-take s.len (m.contents s.array) h.written)) in
      (
        record {
          made = omega arith;
          written = omega (arith, size, ap length (write-same m.next (elements m s ++ vs) m));
        },
        ap (take (s.len + length vs)) (write-same m.next (elements m s ++ vs) m)
            ∙ ap (take (s.len + length vs)) (sym (append-nil (elements m s ++ vs)))
            ∙ take-append (elements m s ++ vs) [] (s.len + length vs) size,
      )

  -- The list that `Append` makes has the loaders of the list it was called on and those that were
  -- given, in order, and lies within what was written to its array.
  pub append-IsAppended :
      (grow : ℕ → ℕ → ℕ) (vs : List A) (m : Arrays A) (s : Slice)
      → IsWithin m s
      → IsAppended vs m s (append grow vs (m, s))
  unfolding append
  append-IsAppended grow vs m s h = elim (Bool-cases (leb (s.len + length vs) s.cap)) [
    | inl e ↦
        rw e (
          record { made = h.made; written = in_place-written vs m s h },
          in_place-elements vs m s h,
        )
    | inr e ↦ rw e (moved-IsAppended (grow s.cap (s.len + length vs)) vs m s h)
  ]

  -- If there is room, and a list is appended to twice, as often as the list itself is kept in a copied
  -- builder, then the first of the two results ends with what the second call was given.
  pub append-append :
      (grow : ℕ → ℕ → ℕ) (vs us : List A) (m : Arrays A) (s : Slice)
      → IsWithin m s
      → s.len + length vs ≤ s.cap
      → length us ≡ length vs
      → let (m', first) = append grow vs (m, s) in
        let (m'', second) = append grow us (m', s) in elements m'' first ≡ elements m s ++ us
  append-append grow vs us m s h room same =
      let m1 = in_place vs m s in
      ap (λ (r : Arrays A × Slice). elements (append grow us (r.0, s)).0 r.1)
        (append-in_place grow vs m s room)
      ∙ ap (λ (r : Arrays A × Slice). elements r.0 (record s { len = s.len + length vs }))
          (append-in_place grow us m1 s (omega (arith, same)))
      ∙ ap (λ n. elements (in_place us m1 s) (record s { len = s.len + n })) (sym same)
      ∙ in_place-elements us m1 s (in_place-IsWithin vs m s h)
      ∙ ap (λ l. l ++ us) (in_place-shorter vs m s h)
