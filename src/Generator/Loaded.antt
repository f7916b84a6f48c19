-- ===== src/Generator/Loaded.antt =====
-- The relations of generator/generator.go: their cardinality, and the columns of their two keys.
use goen.Prelude.{
  Bool, true, false, List, [], ◌∷◌, Str, length, length-map, suc, ℕ, some, ◌≡◌, refl, sym, ap, ◌∙◌,
  subst, arith, inl, inr, Bool-cases,
}
use goen.Go.Result.{ok}
use goen.StructTag.{parent_key, child_key, colpairs}
use goen.Structs.{
  Kind, invalid, pointer, slice, struct, basic, FieldOf, fields_by_func, is_column_field,
  is_foreign_key_field, foreign_key, reference_key, is_struct_kind, field_by_column,
}
use goen.Structs.Run.{Run, pure, fail, ◌>>=◌, IfDone, IfDone-bind, IfDone-after, IfDone-weaken}
use goen.Asts.{GoTools}
use goen.AstTypes.{AType, AStruct, fields}
use goen.AstTypes.Kinds.{
  is_pointer, is_struct, kind, strip, only_struct, new_struct, is_one_to_many_field,
  is_many_to_one_field,
}
use goen.Generator.{Relation, RelationalColumn}
use goen.Generator.Relations.{
  Cardinality, one_to_many, many_to_one, one_to_one, or_invalid, key_columns, column_names,
  many_to_one_or, cardinality, unwrapped, relation_to, relation_of,
}

-- Each foreign key column has a reference column.
abbrev pub IsPaired : Relation → Type 0
IsPaired rel = length rel.foreign_keys ≡ length rel.references

-- The template writes a loader.
abbrev pub HasLoader : Cardinality → Type 0
HasLoader one_to_one = ⊥
HasLoader _ = Unit

-- A relation for which the templates write a loader.
abbrev pub IsLoaded : Cardinality × Relation → Type 0
IsLoaded r = HasLoader r.0 × IsPaired r.1

abbrev with_default : {A : Type 0} → A → Run A → A
with_default a (some (ok x)) = x
with_default a _ = a

done_injective : {A : Type 0} (a b : A) → some (ok a) ≡ some (ok b) → a ≡ b
done_injective a b e = ap (with_default a) e

key_columns-length :
    (snake_case : Str → Str) (fs : List (FieldOf AType)) (names : List Str)
    → IfDone (λ ks. length ks ≡ length names) (key_columns snake_case fs names)
unfolding key_columns
key_columns-length snake_case fs [] = refl
key_columns-length snake_case fs (name ∷ names) =
    IfDone-after Q (fail (field_by_column snake_case name fs)) _ (λ found e.
      IfDone-after Q (fail (or_invalid name found)) _ (λ f e'.
        IfDone-bind _ Q (key_columns snake_case fs names) _ (key_columns-length snake_case fs names)
          (λ rest h. ap suc h)))
  where
    Q : List RelationalColumn → Type 0
    Q ks = length ks ≡ length (name ∷ names)

keys_together :
    (f : FieldOf AType)
    → length (with_default [] (fail (foreign_key f)))
      ≡ length (with_default [] (fail (reference_key f)))
unfolding foreign_key reference_key parent_key child_key
keys_together f = elim (Bool-cases (is_foreign_key_field f)) [
  | inl h ↦
      rw h (length-map (λ p. p.0) (colpairs f.tag) ∙ sym (length-map (λ p. p.1) (colpairs f.tag)))
  | inr h ↦ rw h refl
]

key_lengths :
    (f : FieldOf AType) (fore refe : List Str)
    → fail (foreign_key f) ≡ some (ok fore)
    → fail (reference_key f) ≡ some (ok refe)
    → length fore ≡ length refe
key_lengths f fore refe e e' =
    sym (ap (λ r. length (with_default [] r)) e)
    ∙ keys_together f
    ∙ ap (λ r. length (with_default [] r)) e'

module _ (go : GoTools) (snake_case : Str → Str) (fuel : ℕ) where
  relation_to-IsPaired :
      (fs : List (FieldOf AType)) (f : FieldOf AType) (card : Cardinality) (strct : AStruct)
      → IfDone (λ r. (r.0 ≡ card) × IsPaired r.1) (relation_to go snake_case fuel fs f card strct)
  unfolding relation_to
  relation_to-IsPaired fs f card strct = IfDone-after Q (fields go fuel strct) _ (λ all e1.
      IfDone-after Q (column_names snake_case (fields_by_func all is_column_field)) _ (λ names e2.
        IfDone-after Q (fail (foreign_key f)) _ (λ fore_names e3.
          IfDone-bind _ Q (key_columns snake_case fs fore_names) _
            (key_columns-length snake_case fs fore_names)
            (λ fore h. IfDone-after Q (fail (reference_key f)) _ (λ refe_names e4.
              IfDone-bind _ Q
                (key_columns snake_case (fields_by_func all is_column_field) refe_names) _
                (key_columns-length snake_case (fields_by_func all is_column_field) refe_names)
                (λ refe k. (refl, h ∙ key_lengths f fore_names refe_names e3 e4 ∙ sym k)))))))
    where
      Q : Cardinality × Relation → Type 0
      Q r = (r.0 ≡ card) × IsPaired r.1

  -- The type that the pointers lead to is not a struct type.
  abbrev LeadsElsewhere : FieldOf AType → Type 0
  LeadsElsewhere f =
      (t : AType)
      → strip go is_pointer fuel f.typ ≡ some (ok t)
      → IfDone (λ k. is_struct k ≡ false) (kind go fuel t)

  not_struct : (k : Kind) → IfDone (λ b. b ≡ false → is_struct k ≡ false) (fail (is_struct_kind k))
  unfolding is_struct_kind
  not_struct invalid = tt
  not_struct pointer = λ h. refl
  not_struct slice = λ h. refl
  not_struct struct = λ h. h
  not_struct basic = λ h. refl

  is_many_to_one_field-false :
      (f : FieldOf AType)
      → IfDone (λ b. b ≡ false → LeadsElsewhere f) (is_many_to_one_field go fuel f)
  unfolding is_many_to_one_field
  is_many_to_one_field-false f = IfDone-after Q (strip go is_pointer fuel f.typ) _ (λ t e1.
      IfDone-after Q (kind go fuel t) _ (λ kt e2.
        IfDone-weaken (λ b. b ≡ false → is_struct kt ≡ false) Q (fail (is_struct_kind kt))
          (λ b h is_false t' e3.
            subst (λ u. IfDone (λ k. is_struct k ≡ false) (kind go fuel u))
              (done_injective t t' (sym e1 ∙ e3))
              (subst (IfDone (λ k. is_struct k ≡ false)) (sym e2) (h is_false)))
          (not_struct kt)))
    where
      Q : Bool → Type 0
      Q b = b ≡ false → LeadsElsewhere f

  -- A relation that is neither leads to no struct type.
  abbrev IsExplained : FieldOf AType → Cardinality → Type 0
  IsExplained f one_to_one = LeadsElsewhere f
  IsExplained f _ = Unit

  many_to_one_or-IsExplained :
      (f : FieldOf AType) (b : Bool)
      → (b ≡ false → LeadsElsewhere f)
      → IsExplained f (many_to_one_or go snake_case fuel b)
  many_to_one_or-IsExplained f true h = tt
  many_to_one_or-IsExplained f false h = h refl

  cardinality-IsExplained :
      (f : FieldOf AType) → IfDone (IsExplained f) (cardinality go snake_case fuel f)
  unfolding cardinality
  cardinality-IsExplained f =
      IfDone-after (IsExplained f) (is_one_to_many_field go fuel f) _ (λ many e. by_many many)
    where
      by_many :
          (many : Bool)
          → IfDone (IsExplained f) (elim many [
            | true ↦ pure one_to_many
            | false ↦
                (is_many_to_one_field go fuel f >>= λ one.
                pure (many_to_one_or go snake_case fuel one))
          ])
      by_many true = tt
      by_many false =
          IfDone-bind _ (IsExplained f) (is_many_to_one_field go fuel f) _
            (is_many_to_one_field-false f) (λ one h. many_to_one_or-IsExplained f one h)

  no_struct : (k : Kind) → is_struct k ≡ false → IfDone (λ x. ⊥) (fail (only_struct k))
  no_struct invalid h = tt
  no_struct pointer h = tt
  no_struct slice h = tt
  no_struct struct h = absurd (ground arith)
  no_struct basic h = tt

  new_struct-never :
      (t : AType)
      → IfDone (λ k. is_struct k ≡ false) (kind go fuel t)
      → IfDone (λ s. ⊥) (new_struct go fuel t)
  unfolding new_struct
  new_struct-never t h =
      IfDone-bind _ _ (kind go fuel t) _ h
        λ k not. IfDone-bind _ _ (fail (only_struct k)) _ (no_struct k not) λ k' none. absurd none

  relation_to-IsLoaded :
      (fs : List (FieldOf AType)) (f : FieldOf AType) (card : Cardinality) (strct : AStruct)
      → HasLoader card
      → IfDone IsLoaded (relation_to go snake_case fuel fs f card strct)
  relation_to-IsLoaded fs f card strct h =
      IfDone-weaken _ IsLoaded (relation_to go snake_case fuel fs f card strct)
        (λ r (same, paired). (subst HasLoader (sym same) h, paired))
        (relation_to-IsPaired fs f card strct)

  abbrev rest_of : List (FieldOf AType) → FieldOf AType → Cardinality → Run (Cardinality × Relation)
  rest_of fs f card = unwrapped go snake_case fuel card f.typ >>= λ typ.
      new_struct go fuel typ >>= λ strct. relation_to go snake_case fuel fs f card strct

  rest_of-IsLoaded :
      (fs : List (FieldOf AType)) (f : FieldOf AType) (card : Cardinality)
      → HasLoader card
      → IfDone IsLoaded (rest_of fs f card)
  rest_of-IsLoaded fs f card h =
      IfDone-after IsLoaded (unwrapped go snake_case fuel card f.typ) _ λ typ e.
        IfDone-after IsLoaded (new_struct go fuel typ) _
          λ strct e'. relation_to-IsLoaded fs f card strct h

  rest_of_explained :
      (fs : List (FieldOf AType)) (f : FieldOf AType) (card : Cardinality)
      → IsExplained f card
      → IfDone IsLoaded (rest_of fs f card)
  rest_of_explained fs f one_to_many h = rest_of-IsLoaded fs f one_to_many tt
  rest_of_explained fs f many_to_one h = rest_of-IsLoaded fs f many_to_one tt
  rest_of_explained fs f one_to_one h =
      IfDone-after IsLoaded (strip go is_pointer fuel f.typ) _ λ typ e.
        IfDone-bind (λ s. ⊥) IsLoaded (new_struct go fuel typ) _ (new_struct-never typ (h typ e))
          λ strct none. absurd none

  pub relation_of-IsLoaded :
      (fs : List (FieldOf AType)) (f : FieldOf AType)
      → IfDone IsLoaded (relation_of go snake_case fuel fs f)
  unfolding relation_of
  relation_of-IsLoaded fs f =
      IfDone-bind _ IsLoaded (cardinality go snake_case fuel f) _ (cardinality-IsExplained f)
        λ card h. rest_of_explained fs f card h
