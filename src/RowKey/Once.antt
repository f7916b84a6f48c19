-- ===== src/RowKey/Once.antt =====
-- The order of visits in which the loop of `ToSqlizerWithDialect` in row_key.go quotes each column
-- once.
use goen.Prelude.{
  false, List, [], ◌∷◌, ◌++◌, map, Str, str_eq, str_eq_iff, str_eq_refl, ◌≡◌, ◌≢◌, refl, sym, ap,
  ◌∙◌, subst, append_assoc, append-nil, All, some, arith, map-append,
}
use goen.Go.Value.{Value}
use goen.Go.Map.{Map, lookup, insert, delete, keys, Fresh, IsNodup}
use goen.RowKey.{requote}
use goen.RowKey.Iteration.{Run, done, visit_old}

str_ne_test : (s t : Str) → s ≢ t → str_eq s t ≡ false
str_ne_test s t h = ground (arith, str_eq_iff s t)

All-front : (P : Str → Type 0) (xs ys : List Str) → All P (xs ++ ys) → All P xs
All-front P [] ys h = tt
All-front P (x ∷ xs) ys h = (h.0, All-front P xs ys h.1)

All-middle : (P : Str → Type 0) (xs zs : List Str) (y : Str) → All P (xs ++ y ∷ zs) → P y
All-middle P [] zs y h = h.0
All-middle P (x ∷ xs) zs y h = All-middle P xs zs y h.1

-- Of a list in which nothing occurs twice, an element does not occur in front of itself.
nodup_middle : (xs zs : List Str) (y : Str) → IsNodup (xs ++ y ∷ zs) → Fresh y xs
nodup_middle [] zs y h = tt
nodup_middle (x ∷ xs) zs y (fresh, h) =
    ((λ e. All-middle (λ j. x ≢ j) xs zs y fresh (sym e)), nodup_middle xs zs y h)

delete_absent : (k : Str) (m : Map Value) → Fresh k (keys m) → delete k m ≡ m
unfolding delete
delete_absent k [] h = refl
delete_absent k ((j, v) ∷ m) h = rw (str_ne_test j k (λ e. h.0 (sym e)), delete_absent k m h.1) refl

insert_absent :
    (k : Str) (v : Value) (m : Map Value) → Fresh k (keys m) → insert k v m ≡ m ++ (k, v) ∷ []
unfolding insert
insert_absent k v [] h = refl
insert_absent k v ((j, w) ∷ m) h =
    rw (str_ne_test j k (λ e. h.0 (sym e)), insert_absent k v m h.1) refl

-- Each entry under its quoted column.
abbrev pub quoted : (Str → Str) → Map Value → Map Value
quoted quote [] = []
quoted quote ((c, v) ∷ m) = (quote c, v) ∷ quoted quote m

module _ (quote : Str → Str) where
  requote_first :
      (c : Str) (v : Value) (m : Map Value)
      → Fresh c (keys m)
      → Fresh (quote c) (keys m)
      → requote quote c ((c, v) ∷ m) ≡ m ++ (quote c, v) ∷ []
  unfolding requote lookup delete
  requote_first c v m h k =
      rw (str_eq_refl c, delete_absent c m h, insert_absent (quote c) v m k) refl

  lookup_first : (c : Str) (v : Value) (m : Map Value) → lookup c ((c, v) ∷ m) ≡ some v
  unfolding lookup
  lookup_first c v m = rw str_eq_refl

  -- The columns that are left, those that are quoted, and those that will be.
  abbrev IsApart : Map Value → Map Value → Type 0
  IsApart rest qs = IsNodup ((keys rest ++ keys qs) ++ map quote (keys rest))

  keys-append : (m n : Map Value) → keys (m ++ n) ≡ keys m ++ keys n
  keys-append m n = map-append (λ e. e.0) m n

  IsApart-requote :
      (c : Str) (v : Value) (rest qs : Map Value)
      → IsApart ((c, v) ∷ rest) qs
      → IsApart rest (qs ++ (quote c, v) ∷ [])
  IsApart-requote c v rest qs h =
      let quotes = map quote (keys rest) in
      subst IsNodup
        (sym (append_assoc (keys rest ++ keys qs) (quote c ∷ []) quotes)
          ∙ ap (λ l. l ++ quotes)
              (append_assoc (keys rest) (keys qs) (quote c ∷ [])
                ∙ ap (λ l. keys rest ++ l) (sym (keys-append qs ((quote c, v) ∷ [])))))
        h.1

  quotes_once :
      (rest qs : Map Value) (new : List Str)
      → IsApart rest qs
      → Run quote (keys rest) new (rest ++ qs) (qs ++ quoted quote rest)
  quotes_once [] qs new h = subst (Run quote [] new qs) (sym (append-nil qs)) done
  quotes_once ((c, v) ∷ rest) qs new h =
      let others = sym (keys-append rest qs) in
      let free : Fresh c (keys (rest ++ qs)) =
        subst (Fresh c) others (All-front (λ j. c ≢ j) (keys rest ++ keys qs) _ h.0) in
      let free_quoted : Fresh (quote c) (keys (rest ++ qs)) =
        subst (Fresh (quote c)) others (nodup_middle (keys rest ++ keys qs) _ (quote c) h.1) in
      let last = (quote c, v) ∷ [] in
      visit_old [] (keys rest) c refl v (lookup_first c v (rest ++ qs)) (
        subst (λ m. Run quote (keys rest) (quote c ∷ new) m (qs ++ quoted quote ((c, v) ∷ rest)))
          (sym (append_assoc rest qs last) ∙ sym (requote_first c v (rest ++ qs) free free_quoted))
          (subst (Run quote (keys rest) (quote c ∷ new) (rest ++ (qs ++ last)))
            (append_assoc qs last (quoted quote rest))
            (quotes_once rest (qs ++ last) (quote c ∷ new) (IsApart-requote c v rest qs h))))

  -- If the columns of a key and their quoted forms are all different, Go may visit the entries so
  -- that the loop ends, with each entry under its column quoted once.
  pub Run-quoted :
      (eq : Map Value)
      → IsNodup (keys eq ++ map quote (keys eq))
      → Run quote (keys eq) [] eq (quoted quote eq)
  Run-quoted eq h =
      subst (λ m. Run quote (keys eq) [] m (quoted quote eq)) (append-nil eq)
        (quotes_once eq [] []
          (subst (λ l. IsNodup (l ++ map quote (keys eq))) (sym (append-nil (keys eq))) h))
