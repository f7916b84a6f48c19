-- ===== src/AstTypes/Embedding.antt =====
-- How deep `Fields` of internal/structs_a.go goes, and which names it gives.
use goen.Prelude.{
  List, [], ◌∷◌, ◌++◌, Str, ℕ, zero, suc, ◌<◌, ◌≡◌, refl, true, Bool-cases, inl, inr, ◌⊎◌, All,
  All-append, some, Option, arith,
}
use goen.Go.Result.{ok}
use goen.Structs.{FieldOf}
use goen.Structs.Run.{Run, IfDone, IfDone-bind, IfDone-after}
use goen.Structs.Run.Settling.{Settles, Settles-some, Settles-suc, Settles-bind, Settles-fail}
use goen.Asts.{
  GoTools, AstPackage, Expr, FieldList, no_fields, field, get_pkg_name, get_type_name,
  object_by_func, eq_object_name,
}
use goen.AstTypes.{
  AType, AStruct, package_of, or_undeclared, new_struct_from_ast, embedded_struct, named_fields,
  fields_in, fields,
}

-- The list has an embedded field of that type.
abbrev pub IsEmbedded : Expr → FieldList → Type 0
IsEmbedded e no_fields = ⊥
IsEmbedded e (field [] t tag fs) = (e ≡ t) ⊎ IsEmbedded e fs
IsEmbedded e (field (n ∷ names) t tag fs) = IsEmbedded e fs

-- Each struct type that one of the program's packages embeds is in one of them, and has a lower rank
-- than the type that embeds it.
abbrev pub IsRanked : GoTools → (AstPackage → Type 0) → (AStruct → ℕ) → Type 0
IsRanked go Program rank =
    (s t : AStruct) (e : Expr)
    → Program s.pkg
    → IsEmbedded e s.field_list
    → embedded_struct go s e ≡ some (ok t)
    → Program t.pkg × (rank t < rank s)

module _ (go : GoTools) where
  embedded_struct-Settles : (s : AStruct) (e : Expr) → Settles (λ m. embedded_struct go s e)
  unfolding embedded_struct
  embedded_struct-Settles s e =
      Settles-fail (package_of go s.pkg s.file (get_pkg_name e)) _ (λ pkg e1.
        Settles-fail
          (or_undeclared (get_type_name e)
            (object_by_func (eq_object_name (get_type_name e)) pkg.files))
          _ (λ (file, obj) e2. Settles-some (new_struct_from_ast pkg file obj)))

  fields_in-Settles :
      (embedded : ℕ → AStruct → Run (List (FieldOf AType))) (s : AStruct) (fs : FieldList)
      → ((t : AStruct) (e : Expr)
          → IsEmbedded e fs
          → embedded_struct go s e ≡ some (ok t)
          → Settles (λ m. embedded m t))
      → Settles (λ m. fields_in go (embedded m) s fs)
  unfolding fields_in
  fields_in-Settles embedded s no_fields h = Settles-some (ok [])
  fields_in-Settles embedded s (field [] e tag fs) h =
      Settles-bind (λ m. embedded_struct go s e) _ (embedded_struct-Settles s e)
        (λ t n eq.
          Settles-bind (λ m. embedded m t) _ (h t e (inl refl) eq)
            (λ embs n eq'.
              Settles-bind (λ m. fields_in go (embedded m) s fs) _
                (fields_in-Settles embedded s fs (λ t e' i. h t e' (inr i)))
                (λ rest n eq''. Settles-some (ok (embs ++ rest)))))
  fields_in-Settles embedded s (field (x ∷ names) e tag fs) h =
      Settles-bind (λ m. fields_in go (embedded m) s fs) _ (fields_in-Settles embedded s fs h)
        (λ rest n eq. Settles-some (ok (named_fields go s e tag (x ∷ names) ++ rest)))

  fields_below :
      (Program : AstPackage → Type 0) (rank : AStruct → ℕ) (bound : ℕ) (s : AStruct)
      → IsRanked go Program rank
      → Program s.pkg
      → rank s < bound
      → Settles (λ m. fields go m s)
  unfolding fields
  fields_below Program rank zero s h p lt = ground arith
  fields_below Program rank (suc bound) s h p lt =
      Settles-suc (λ m. fields go m s)
        (fields_in-Settles (fields go) s s.field_list (λ t e i eq.
          let (q, less) = h s t e p i eq in fields_below Program rank bound t h q (below less lt)))
    where
      below : {a b c : ℕ} → a < b → b < suc c → a < c
      below p q = omega arith

  pub fields-Settles :
      (Program : AstPackage → Type 0) (rank : AStruct → ℕ) (s : AStruct)
      → IsRanked go Program rank
      → Program s.pkg
      → Settles (λ m. fields go m s)
  fields-Settles Program rank s h p = fields_below Program rank (suc (rank s)) s h p (omega arith)

  module _ (Program : AstPackage → Type 0) where
    -- The field's type is of one of the packages.
    abbrev pub IsTyped : FieldOf AType → Type 0
    IsTyped f = Program f.typ.pkg

    named_fields-IsTyped :
        (s : AStruct) (e : Expr) (tag : Option Str) (names : List Str)
        → Program s.pkg
        → All IsTyped (named_fields go s e tag names)
    unfolding named_fields
    named_fields-IsTyped s e tag [] p = tt
    named_fields-IsTyped s e tag (n ∷ names) p = elim (Bool-cases (go.is_exported n)) [
      | inl x ↦ rw x (p, named_fields-IsTyped s e tag names p)
      | inr x ↦ rw x (named_fields-IsTyped s e tag names p)
    ]

    fields_in-IsTyped :
        (embedded : AStruct → Run (List (FieldOf AType))) (s : AStruct) (fs : FieldList)
        → Program s.pkg
        → ((t : AStruct) (e : Expr)
            → IsEmbedded e fs
            → embedded_struct go s e ≡ some (ok t)
            → IfDone (All IsTyped) (embedded t))
        → IfDone (All IsTyped) (fields_in go embedded s fs)
    unfolding fields_in
    fields_in-IsTyped embedded s no_fields p h = tt
    fields_in-IsTyped embedded s (field [] e tag fs) p h =
        IfDone-after Q (embedded_struct go s e) _ (λ t eq.
          IfDone-bind Q Q (embedded t) _ (h t e (inl refl) eq) (λ embs i.
            IfDone-bind Q Q (fields_in go embedded s fs) _
              (fields_in-IsTyped embedded s fs p (λ t e' i. h t e' (inr i)))
              (λ rest j. All-append IsTyped embs rest i j)))
      where
        Q : List (FieldOf AType) → Type 0
        Q r = All IsTyped r
    fields_in-IsTyped embedded s (field (x ∷ names) e tag fs) p h =
        IfDone-bind Q Q (fields_in go embedded s fs) _ (fields_in-IsTyped embedded s fs p h)
          (λ rest j.
            All-append IsTyped (named_fields go s e tag (x ∷ names)) rest
              (named_fields-IsTyped s e tag (x ∷ names) p) j)
      where
        Q : List (FieldOf AType) → Type 0
        Q r = All IsTyped r

    pub fields-IsTyped :
        (rank : AStruct → ℕ) (fuel : ℕ) (s : AStruct)
        → IsRanked go Program rank
        → Program s.pkg
        → IfDone (All IsTyped) (fields go fuel s)
    unfolding fields
    fields-IsTyped rank zero s h p = tt
    fields-IsTyped rank (suc fuel) s h p =
        fields_in-IsTyped (fields go fuel) s s.field_list p
          (λ t e i eq. fields-IsTyped rank fuel t h (h s t e p i eq).0)

  abbrev IsExportedField : FieldOf AType → Type 0
  IsExportedField f = go.is_exported f.name ≡ true

  named_fields-exported :
      (s : AStruct) (e : Expr) (tag : Option Str) (names : List Str)
      → All IsExportedField (named_fields go s e tag names)
  unfolding named_fields
  named_fields-exported s e tag [] = tt
  named_fields-exported s e tag (n ∷ names) = elim (Bool-cases (go.is_exported n)) [
    | inl x ↦ rw x (x, named_fields-exported s e tag names)
    | inr x ↦ rw x (named_fields-exported s e tag names)
  ]

  fields_in-exported :
      (embedded : AStruct → Run (List (FieldOf AType))) (s : AStruct) (fs : FieldList)
      → ((t : AStruct) → IfDone (All IsExportedField) (embedded t))
      → IfDone (All IsExportedField) (fields_in go embedded s fs)
  unfolding fields_in
  fields_in-exported embedded s no_fields h = tt
  fields_in-exported embedded s (field [] e tag fs) h =
      IfDone-after Q (embedded_struct go s e) _ (λ t eq.
        IfDone-bind Q Q (embedded t) _ (h t) (λ embs i.
          IfDone-bind Q Q (fields_in go embedded s fs) _ (fields_in-exported embedded s fs h)
            (λ rest j. All-append IsExportedField embs rest i j)))
    where
      Q : List (FieldOf AType) → Type 0
      Q r = All IsExportedField r
  fields_in-exported embedded s (field (n ∷ names) e tag fs) h =
      IfDone-bind Q Q (fields_in go embedded s fs) _ (fields_in-exported embedded s fs h) (λ rest j.
        All-append IsExportedField (named_fields go s e tag (n ∷ names)) rest
          (named_fields-exported s e tag (n ∷ names)) j)
    where
      Q : List (FieldOf AType) → Type 0
      Q r = All IsExportedField r

  -- Only exported fields are given, those of embedded types included.
  pub fields_exported : (fuel : ℕ) (s : AStruct) → IfDone (All IsExportedField) (fields go fuel s)
  unfolding fields
  fields_exported zero s = tt
  fields_exported (suc fuel) s =
      fields_in-exported (fields go fuel) s s.field_list (fields_exported fuel)
