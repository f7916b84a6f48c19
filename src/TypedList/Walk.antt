-- ===== src/TypedList/Walk.antt =====
-- The loop `for curr := l.Front(); curr != nil; curr = curr.Next()` over a typed list.
use goen.Prelude.{
  ℕ, zero, suc, List, [], ◌∷◌, ◌++◌, map, length, Option, none, some, ◌≡◌, refl, sym, ap, ◌∙◌,
  append_assoc, append-nil, map-append,
}
use goen.Go.Result.{ok}
use goen.Structs.Run.{Run, pure, fail, ◌>>=◌}
use goen.TypedList.{
  LinkedLists, Boxed, ListElement, wrap_or_nil, front, next, init, push_back, get_value,
}

abbrev pub first_of : {E : Type 0} → List E → Option E
first_of [] = none
first_of (e ∷ es) = some e

-- What container/list documents of the operations that the loop and the callers of the lists use, by
-- the elements of a list in order.
pub record Documented {H L E A : Type 0} (lists : LinkedLists H L E A) (elements : L → H → List E)
    : Type 0 where
  pub init_empties : (l : L) (h : H) → elements l (lists.init l h) ≡ []
  pub front_first : (l : L) (h : H) → lists.front l h ≡ first_of (elements l h)
  pub next_follows :
      (l : L) (h : H) (before after : List E) (e : E)
      → elements l h ≡ before ++ e ∷ after
      → lists.next e h ≡ first_of after
  -- a value at the end, and the values in front of it as they were
  pub push_back_values :
      (a : A) (l : L) (h : H)
      → map (λ e. lists.value e (lists.push_back a l h).0) (elements l (lists.push_back a l h).0)
        ≡ map (λ e. lists.value e h) (elements l h) ++ a ∷ []

module _ {H L E A T : Type 0} (lists : LinkedLists H L E A) (boxed : Boxed T A) where
  -- The values that the loop gets, on fuel for its rounds.
  unfoldable pub walk : ℕ → Option (ListElement E) → H → Run (List T)
  unfolding next get_value
  walk fuel none h = pure []
  walk zero (some e) h = none
  walk (suc fuel) (some e) h = do
    v ← fail (get_value lists boxed e h)
    vs ← walk fuel (next lists boxed e h) h
    pure (v ∷ vs)

  unfoldable pub push_all : List T → L → H → H
  unfolding push_back
  push_all [] l h = h
  push_all (v ∷ vs) l h = push_all vs l (push_back lists boxed v l h).0

  -- A value comes out of an interface{} as the value that went in.
  abbrev pub IsBoxed : Type 0
  IsBoxed = (v : T) → boxed.unbox (boxed.box v) ≡ some v

  module _ (elements : L → H → List E) where
    abbrev Holds : List T → L → H → Type 0
    Holds vs l h = map (λ e. lists.value e h) (elements l h) ≡ map boxed.box vs

    abbrev heads_or : {B : Type 0} → B → List B → B
    heads_or b [] = b
    heads_or b (x ∷ xs) = x

    abbrev tails : {B : Type 0} → List B → List B
    tails [] = []
    tails (x ∷ xs) = xs

    walk_from :
        (after before : List E) (vs : List T) (l : L) (h : H)
        → Documented lists elements
        → IsBoxed
        → elements l h ≡ before ++ after
        → map (λ e. lists.value e h) after ≡ map boxed.box vs
        → walk (length vs) (wrap_or_nil (first_of after)) h ≡ some (ok vs)
    unfolding walk next get_value wrap_or_nil
    walk_from [] before [] l h d b he hv = refl
    walk_from [] before (v ∷ vs) l h d b he hv = cc
    walk_from (e ∷ es) before [] l h d b he hv = cc
    walk_from (e ∷ es) before (v ∷ vs) l h d b he hv =
        let here : lists.value e h ≡ boxed.box v = ap (heads_or (lists.value e h)) hv in
        rw (here, b v, d.next_follows l h before es e he)
          (ap (λ r. r >>= λ ws. pure (v ∷ ws))
            (walk_from es (before ++ e ∷ []) vs l h d b (he ∙ sym (append_assoc before (e ∷ []) es))
              (ap tails hv)))

    push_all-Holds :
        (vs us : List T) (l : L) (h : H)
        → Documented lists elements
        → Holds us l h
        → Holds (us ++ vs) l (push_all vs l h)
    unfolding push_all push_back
    push_all-Holds [] us l h d k = k ∙ ap (map boxed.box) (sym (append-nil us))
    push_all-Holds (v ∷ vs) us l h d k =
        push_all-Holds vs (us ++ v ∷ []) l (lists.push_back (boxed.box v) l h).0 d (
          d.push_back_values (boxed.box v) l h
          ∙ ap (λ m. m ++ boxed.box v ∷ []) k
          ∙ sym (map-append boxed.box us (v ∷ [])))
        ∙ ap (map boxed.box) (append_assoc us (v ∷ []) vs)

    -- If container/list does what it documents, the loop over a typed list that was emptied and then
    -- filled by PushBack gets the values that were pushed, in order, within as many rounds, and no
    -- type assertion panics.
    pub walk-push_all :
        (vs : List T) (l : L) (h : H)
        → Documented lists elements
        → IsBoxed
        → let filled = push_all vs l (init lists boxed l h) in
          walk (length vs) (front lists boxed l filled) filled ≡ some (ok vs)
    unfolding init front
    walk-push_all vs l h d b =
        let filled = push_all vs l (lists.init l h) in
        ap (λ e. walk (length vs) (wrap_or_nil e) filled) (d.front_first l filled)
        ∙ walk_from (elements l filled) [] vs l filled d b refl (
            push_all-Holds vs [] l (lists.init l h) d
              (ap (map λ e. lists.value e (lists.init l h)) (d.init_empties l h)))
