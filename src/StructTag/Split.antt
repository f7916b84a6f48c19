-- ===== src/StructTag/Split.antt =====
-- Foreign keys are read back from the text that spells them (`colpairs` of internal/struct_tag.go).
use goen.Prelude.{
  ℕ, List, [], ◌∷◌, ◌++◌, map, Str, str_eq, All, All-append, ◌≡◌, ◌≢◌, refl, arith, ap, ◌∙◌,
}
use goen.Go.Map.{lookup}
use goen.StructTag.{StructTag, split, colpair, colpairs, tag_foreign_key}

abbrev pub Lacks : ℕ → Str → Type 0
Lacks sep = All (λ c. c ≢ sep)

-- strings.Join for a separator of one byte
abbrev pub join : ℕ → List Str → Str
join sep [] = []
join sep (p ∷ []) = p
join sep (p ∷ p' ∷ ps) = p ++ sep ∷ join sep (p' ∷ ps)

split-Lacks : (sep : ℕ) (s : Str) → Lacks sep s → split sep s ≡ s ∷ []
unfolding split
split-Lacks sep [] h = refl
split-Lacks sep (c ∷ s) h = ground (arith, split-Lacks sep s h.1)

split-append : (sep : ℕ) (s t : Str) → Lacks sep s → split sep (s ++ sep ∷ t) ≡ s ∷ split sep t
unfolding split
split-append sep [] t h = ground arith
split-append sep (c ∷ s) t h = ground (arith, split-append sep s t h.1)

pub split-join :
    (sep : ℕ) (p : Str) (ps : List Str)
    → All (Lacks sep) (p ∷ ps)
    → split sep (join sep (p ∷ ps)) ≡ p ∷ ps
split-join sep p [] h = split-Lacks sep p h.0
split-join sep p (p' ∷ ps) h =
    split-append sep p (join sep (p' ∷ ps)) h.0 ∙ ap (λ l. p ∷ l) (split-join sep p' ps h.1)

-- How a foreign key is spelled: the column of this table, and the one of the other table.
abbrev pub spell : Str × Str → Str
spell e = e.0 ++ b':' ∷ e.1

abbrev pub spell_all : List (Str × Str) → Str
spell_all ps = join b',' (map spell ps)

-- A pair of columns that the notation can spell.
abbrev pub Spellable : Str × Str → Type 0
Spellable e = Lacks b':' e.0 × Lacks b',' e.0 × Lacks b':' e.1 × Lacks b',' e.1 × (e.1 ≢ [])

abbrev pub tag_of : Str → StructTag
tag_of tv = (tag_foreign_key, tv) ∷ []

colpair-spell : (e : Str × Str) → Spellable e → colpair (spell e) ≡ e
unfolding colpair
colpair-spell (p, []) h = absurd (h.4 refl)
colpair-spell (p, c ∷ s) h = rw (split-append b':' p (c ∷ s) h.0, split-Lacks b':' (c ∷ s) h.2)

spell-Lacks : (e : Str × Str) → Spellable e → Lacks b',' (spell e)
spell-Lacks e h = All-append (λ c. c ≢ b',') e.0 (b':' ∷ e.1) h.1 ((λ x. absurd (omega arith)), h.3)

map-spell-Lacks : (es : List (Str × Str)) → All Spellable es → All (Lacks b',') (map spell es)
map-spell-Lacks [] h = tt
map-spell-Lacks (e ∷ es) h = (spell-Lacks e h.0, map-spell-Lacks es h.1)

map-colpair-spell : (es : List (Str × Str)) → All Spellable es → map colpair (map spell es) ≡ es
map-colpair-spell [] h = refl
map-colpair-spell (e ∷ es) h = rw (colpair-spell e h.0, map-colpair-spell es h.1)

-- A foreign key of one or more pairs of columns, none empty on the right and none with a comma or a
-- colon in it, is read back from the tag that spells it.
pub colpairs-spell_all :
    (e : Str × Str) (es : List (Str × Str))
    → All Spellable (e ∷ es)
    → colpairs (tag_of (spell_all (e ∷ es))) ≡ e ∷ es
unfolding colpairs lookup str_eq
colpairs-spell_all e es h =
    ap (map colpair) (split-join b',' (spell e) (map spell es) (map-spell-Lacks (e ∷ es) h))
    ∙ map-colpair-spell (e ∷ es) h
