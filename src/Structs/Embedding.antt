-- ===== src/Structs/Embedding.antt =====
-- `Fields` of internal/structs_r.go ends if no struct type embeds itself.
use goen.Prelude.{
  ℕ, zero, suc, ◌<◌, true, List, [], ◌∷◌, Str, All, Option, none, some, ◌≡◌, refl, arith,
  Bool-cases, ◌++◌, inl, inr,
}
use goen.Structs.{
  GoType, struct_type, StructField, Declarations, strip_ptr, embedded_fields, add_field,
  fields_loop, fields,
}

-- A struct type embeds only struct types of a lower rank, itself or by pointers.
abbrev pub Embeds : (Str → ℕ) → ℕ → StructField → Type 0
Embeds rank r f = f.anonymous ≡ true → (s : Str) → strip_ptr f.typ ≡ struct_type s → rank s < r

abbrev pub IsRanked : Declarations → (Str → ℕ) → Type 0
IsRanked decls rank = (s : Str) → All (Embeds rank (rank s)) (decls s)

-- The fields that a function gives.
abbrev pub Gives : Option (List StructField) → Type 0
Gives o = (fs : List StructField) × (o ≡ some fs)

module _ (embedded : Str → Option (List StructField)) where
  embedded_fields-Gives :
      (t : GoType)
      → ((s : Str) → t ≡ struct_type s → Gives (embedded s))
      → Gives (embedded_fields embedded t)
  embedded_fields-Gives (struct_type s) h = h s refl
  embedded_fields-Gives _ h = ([], refl)

  add_field-Gives :
      (rank : Str → ℕ) (r : ℕ) (f : StructField)
      → ((s : Str) → rank s < r → Gives (embedded s))
      → Embeds rank r f
      → Gives (add_field embedded f)
  add_field-Gives rank r f ih h = elim (Bool-cases f.anonymous) [
    | inl e ↦ rw e (embedded_fields-Gives (strip_ptr f.typ) λ s p. ih s (h e s p))
    | inr e ↦ (f ∷ [], simp e)
  ]

  fields_loop-Gives :
      (rank : Str → ℕ) (r : ℕ) (l : List StructField)
      → ((s : Str) → rank s < r → Gives (embedded s))
      → All (Embeds rank r) l
      → Gives (fields_loop embedded l)
  unfolding fields_loop
  fields_loop-Gives rank r [] ih h = ([], refl)
  fields_loop-Gives rank r (f ∷ l) ih h =
      let (fs, p) = add_field-Gives rank r f ih h.0 in
      let (gs, e) = fields_loop-Gives rank r l ih h.1 in (fs ++ gs, rw (p, e))

-- If embedding strictly lowers a rank, then more rounds than the rank of a struct type give its
-- fields.
pub fields-total :
    (decls : Declarations) (rank : Str → ℕ)
    → IsRanked decls rank
    → (fuel : ℕ) (s : Str) → rank s < fuel
    → Gives (fields decls fuel s)
unfolding fields
fields-total decls rank h zero s lt = absurd (omega arith)
fields-total decls rank h (suc fuel) s lt =
    fields_loop-Gives (fields decls fuel) rank (rank s) (decls s)
      (λ t less. fields-total decls rank h fuel t (omega arith)) (h s)

-- A struct type whose first field embeds the type itself, or a pointer to it, has no fields after
-- any number of rounds: the program does not end.
pub fields-none :
    (decls : Declarations) (s : Str) (f : StructField) (fs : List StructField)
    → decls s ≡ f ∷ fs
    → f.anonymous ≡ true
    → strip_ptr f.typ ≡ struct_type s
    → (fuel : ℕ) → fields decls fuel s ≡ none
unfolding fields fields_loop
fields-none decls s f fs d a e zero = refl
fields-none decls s f fs d a e (suc fuel) = rw (d, a, e, fields-none decls s f fs d a e fuel)
