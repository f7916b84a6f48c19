-- ===== src/Generator/Keys.antt =====
-- The columns that the keys of a relation name, in generator/generator.go.
use goen.Prelude.{
  Bool, true, false, List, [], ◌∷◌, Str, str_eq_iff, Option, none, some, ℕ, ◌≡◌, refl, sym, subst,
  ap, arith, All, All-weaken, Any, inl, inr, if◌then◌else◌,
}
use goen.Go.Result.{Result, ok}
use goen.Go.Succeeding.{IfOk, IfOk-bind, IfOk-self, IfOk-if, IfOk-weaken}
use goen.Structs.{
  FieldOf, column_name, field_by_column, eq_column_name, is_ignored_field, omit_empty,
}
use goen.Structs.Run.{fail, IfDone, IfDone-bind, IfDone-fail, IfDone-after}
use goen.Asts.{GoTools}
use goen.AstTypes.{AType}
use goen.Generator.{
  Import, Column, RelationalColumn, column_of, columns_of, import_type, safe_pkg_import,
}
use goen.Generator.Relations.{or_invalid, key_columns}

-- The field whose column has that name.
abbrev pub IsNamed : (Str → Str) → Str → FieldOf AType → FieldOf AType → Type 0
IsNamed snake_case name f g = (g ≡ f) × (column_name snake_case f ≡ ok name)

abbrev FoundIn : (Str → Str) → Str → List (FieldOf AType) → Option (FieldOf AType) → Type 0
FoundIn snake_case name fs none = Unit
FoundIn snake_case name fs (some f) = Any (IsNamed snake_case name f) fs

eq_column_name-true :
    (snake_case : Str → Str) (name : Str) (f : FieldOf AType)
    → IfOk
        (λ same. same ≡ true → column_name snake_case f ≡ ok name)
        (eq_column_name snake_case name f)
unfolding eq_column_name
eq_column_name-true snake_case name f =
    IfOk-if P (is_ignored_field f) (ok false) _ (λ h. ground arith)
      (IfOk-bind _ P (column_name snake_case f) _ (IfOk-self (column_name snake_case f))
        (λ n e same. rw e (ap ok ((str_eq_iff n name).0 same))))
  where
    P : Bool → Type 0
    P same = same ≡ true → column_name snake_case f ≡ ok name

weaken :
    (snake_case : Str → Str) (name : Str) (f : FieldOf AType) (fs : List (FieldOf AType))
    (o : Option (FieldOf AType))
    → FoundIn snake_case name fs o
    → FoundIn snake_case name (f ∷ fs) o
weaken snake_case name f fs none h = tt
weaken snake_case name f fs (some g) h = inr h

first_or_later :
    (snake_case : Str → Str) (name : Str) (f : FieldOf AType) (fs : List (FieldOf AType))
    (later : Result (Option (FieldOf AType))) (same : Bool)
    → (same ≡ true → column_name snake_case f ≡ ok name)
    → IfOk (FoundIn snake_case name fs) later
    → IfOk (FoundIn snake_case name (f ∷ fs)) (if same then ok (some f) else later)
first_or_later snake_case name f fs later true h i = inl (refl, h refl)
first_or_later snake_case name f fs later false h i =
    IfOk-weaken (FoundIn snake_case name fs) _ later (weaken snake_case name f fs) i

pub field_by_column_found :
    (snake_case : Str → Str) (name : Str) (fs : List (FieldOf AType))
    → IfOk (FoundIn snake_case name fs) (field_by_column snake_case name fs)
unfolding field_by_column
field_by_column_found snake_case name [] = tt
field_by_column_found snake_case name (f ∷ fs) =
    let later = field_by_column_found snake_case name fs in
    IfOk-bind _ (FoundIn snake_case name (f ∷ fs)) (eq_column_name snake_case name f) _
      (eq_column_name-true snake_case name f)
      (λ same h.
        first_or_later snake_case name f fs (field_by_column snake_case name fs) same h later)

-- A column with the key's names.
abbrev pub IsColumnOf : RelationalColumn → Column → Type 0
IsColumnOf k col = (col.column_name ≡ k.column_name) × (col.field_name ≡ k.field_name)

abbrev pub HasColumn : List Column → RelationalColumn → Type 0
HasColumn cols k = Any (IsColumnOf k) cols

-- The field has a column.
abbrev pub IsShown : (Str → Str) → List Column → FieldOf AType → Type 0
IsShown snake_case cols f =
    (name : Str)
    → column_name snake_case f ≡ ok name
    → Any (λ col. (col.column_name ≡ name) × (col.field_name ≡ f.name)) cols

found_column :
    (snake_case : Str → Str) (name : Str) (f : FieldOf AType) (cols : List Column)
    (fs : List (FieldOf AType))
    → All (IsShown snake_case cols) fs
    → Any (IsNamed snake_case name f) fs
    → Any (λ col. (col.column_name ≡ name) × (col.field_name ≡ f.name)) cols
found_column snake_case name f cols [] h i = elim i [ ]
found_column snake_case name f cols (g ∷ fs) (h, hs) (inl (same, named)) =
    subst (λ x. Any (λ col. (col.column_name ≡ name) × (col.field_name ≡ x.name)) cols) (same)
      (h name (subst (λ x. column_name snake_case x ≡ ok name) (sym same) named))
found_column snake_case name f cols (g ∷ fs) (h, hs) (inr i) =
    found_column snake_case name f cols fs hs i

or_invalid_found :
    (snake_case : Str → Str) (name : Str) (fs : List (FieldOf AType)) (o : Option (FieldOf AType))
    → FoundIn snake_case name fs o
    → IfOk (λ f. Any (IsNamed snake_case name f) fs) (or_invalid name o)
or_invalid_found snake_case name fs none h = tt
or_invalid_found snake_case name fs (some f) h = h

-- The column of a field has its names.
column_of_names :
    (go : GoTools) (snake_case : Str → Str) (fuel : ℕ) (f : FieldOf AType)
    → IfDone
        (λ r.
          (name : Str)
          → column_name snake_case f ≡ ok name
          → ((r.0).column_name ≡ name) × ((r.0).field_name ≡ f.name))
        (column_of go snake_case fuel f)
unfolding column_of
column_of_names go snake_case fuel f = IfDone-after Q (fail (column_name snake_case f)) _ (λ name h.
    IfDone-after Q (fail (omit_empty f)) _ (λ omits i.
      IfDone-after Q (safe_pkg_import go fuel f.typ) _
        (λ imported e other k. (ground (arith, h, k), refl))))
  where
    Q : Column × (Str × Str) → Type 0
    Q r =
        (name : Str)
        → column_name snake_case f ≡ ok name
        → ((r.0).column_name ≡ name) × ((r.0).field_name ≡ f.name)

-- The keys that are looked up among the fields have a column each.
pub key_columns-HasColumn :
    (snake_case : Str → Str) (fs : List (FieldOf AType)) (cols : List Column) (names : List Str)
    → All (IsShown snake_case cols) fs
    → IfDone (All (HasColumn cols)) (key_columns snake_case fs names)
unfolding key_columns
key_columns-HasColumn snake_case fs cols [] h = tt
key_columns-HasColumn snake_case fs cols (name ∷ names) h =
    IfDone-bind (FoundIn snake_case name fs) Q (fail (field_by_column snake_case name fs)) _
      (IfDone-fail _ (field_by_column snake_case name fs)
        (field_by_column_found snake_case name fs))
      (λ found i.
        IfDone-bind (λ f. Any (IsNamed snake_case name f) fs) Q (fail (or_invalid name found)) _
          (IfDone-fail _ (or_invalid name found) (or_invalid_found snake_case name fs found i))
          (λ f j.
            IfDone-bind _ Q (key_columns snake_case fs names) _
              (key_columns-HasColumn snake_case fs cols names h)
              (λ rest k. (found_column snake_case name f cols fs h j, k))))
  where
    Q : List RelationalColumn → Type 0
    Q ks = All (HasColumn cols) ks

-- Each field that the loop over the columns passes has a column afterwards.
pub columns_of-IsShown :
    (go : GoTools) (snake_case : Str → Str) (fuel : ℕ) (fs : List (FieldOf AType)) (l : List Import)
    → IfDone (λ r. All (IsShown snake_case (r.0)) fs) (columns_of go snake_case fuel fs l)
unfolding columns_of
columns_of-IsShown go snake_case fuel [] l = tt
columns_of-IsShown go snake_case fuel (f ∷ fs) l =
    IfDone-bind _ Q (column_of go snake_case fuel f) _ (column_of_names go snake_case fuel f)
      (λ (col, imported) named.
        IfDone-bind _ Q (columns_of go snake_case fuel fs (import_type imported l)) _
          (columns_of-IsShown go snake_case fuel fs (import_type imported l))
          (λ (cols, l') h. (
            λ name e. inl (named name e),
            All-weaken (IsShown snake_case cols) (IsShown snake_case (col ∷ cols)) fs
                (λ g i name e. inr (i name e)) h,
          )))
  where
    Q : List Column × List Import → Type 0
    Q r = All (IsShown snake_case (r.0)) (f ∷ fs)
