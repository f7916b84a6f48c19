-- ===== src/Generator/Termination/Structs.antt =====
-- `walkStruct` of generator/generator.go, by ranks of the types of the program.
use goen.Prelude.{List, [], ◌∷◌, Str, ℕ, some, ◌≡◌, All, All-filter}
use goen.Go.Result.{ok}
use goen.Structs.{
  FieldOf, fields_by_func, is_column_field, column_name, omit_empty, foreign_key, reference_key,
  field_by_column,
}
use goen.Structs.Run.{pure, IfDone-done}
use goen.Structs.Run.Settling.{Settles, Settles-some, Settles-bind, Settles-fail, Settles-if}
use goen.Asts.{GoTools, AstPackage}
use goen.AstTypes.{AType, AStruct, fields}
use goen.AstTypes.Shown.{type_pkg_path}
use goen.AstTypes.Kinds.{
  is_pointer, is_pointer_or_slice, strip, new_struct, is_one_to_many_field, is_many_to_one_field,
}
use goen.AstTypes.Kinds.Fuel.{
  Ranks, found_in, strip-Settles, new_struct-Settles, is_one_to_many_field-Settles,
  is_many_to_one_field-Settles,
}
use goen.AstTypes.Kinds.Places.{IsClosed, InProgram, new_struct-pkg}
use goen.AstTypes.Embedding.{IsRanked, IsTyped, fields-Settles, fields-IsTyped}
use goen.Generator.{Import, Table, Package, import_type, safe_pkg_import, column_of, columns_of}
use goen.Generator.Relations.{
  Cardinality, one_to_many, many_to_one, one_to_one, unwrapped, cardinality, key_columns,
  or_invalid, column_names, relation_to, relation_of, add_relation, add_relations, is_relation,
  walk_struct,
}

key_columns-Settles :
    (snake_case : Str → Str) (fs : List (FieldOf AType)) (names : List Str)
    → Settles (λ m. key_columns snake_case fs names)
unfolding key_columns
key_columns-Settles snake_case fs [] = Settles-some (ok [])
key_columns-Settles snake_case fs (name ∷ names) =
    Settles-fail (field_by_column snake_case name fs) _ (λ found e.
      Settles-fail (or_invalid name found) _ (λ f e1.
        Settles-bind (λ m. key_columns snake_case fs names) _
          (key_columns-Settles snake_case fs names) (λ rest n e2. Settles-some _)))

column_names-Settles :
    (snake_case : Str → Str) (fs : List (FieldOf AType)) → Settles (λ m. column_names snake_case fs)
unfolding column_names
column_names-Settles snake_case [] = Settles-some (ok [])
column_names-Settles snake_case (f ∷ fs) = Settles-fail (column_name snake_case f) _ (λ name e.
    Settles-bind (λ m. column_names snake_case fs) _ (column_names-Settles snake_case fs)
      (λ rest n e2. Settles-some _))

module _ (go : GoTools) (snake_case : Str → Str) (Program : AstPackage → Type 0) (rank : AType → ℕ)
    (struct_rank : AStruct → ℕ) (ranks : Ranks go Program rank)
    (ranked : IsRanked go Program struct_rank) (closed : IsClosed go Program) where
  pub fields_end : (s : AStruct) → Program s.pkg → Settles (λ m. fields go m s)
  fields_end s p = fields-Settles go Program struct_rank s ranked p

  fields_typed :
      (s : AStruct) (fuel : ℕ) (all : List (FieldOf AType))
      → Program s.pkg
      → fields go fuel s ≡ some (ok all)
      → All (IsTyped go Program) all
  fields_typed s fuel all p e =
      IfDone-done (All (IsTyped go Program)) (fields go fuel s) all
        (fields-IsTyped go Program struct_rank fuel s ranked p) e

  safe_pkg_import-Settles :
      (typ : AType) → Program typ.pkg → Settles (λ m. safe_pkg_import go m typ)
  unfolding safe_pkg_import
  safe_pkg_import-Settles typ p =
      Settles-bind (λ m. strip go is_pointer m typ) _
        (strip-Settles go Program rank ranks is_pointer typ p)
        (λ t n e. Settles-fail (type_pkg_path go t) _ (λ path e1. Settles-some _))

  column_of-Settles :
      (f : FieldOf AType) → Program f.typ.pkg → Settles (λ m. column_of go snake_case m f)
  unfolding column_of
  column_of-Settles f p = Settles-fail (column_name snake_case f) _ (λ name e.
      Settles-fail (omit_empty f) _ (λ omits e1.
        Settles-bind (λ m. safe_pkg_import go m f.typ) _ (safe_pkg_import-Settles f.typ p)
          (λ imported n e2. Settles-some _)))

  columns_of-Settles :
      (fs : List (FieldOf AType)) (l : List Import)
      → All (IsTyped go Program) fs
      → Settles (λ m. columns_of go snake_case m fs l)
  unfolding columns_of
  columns_of-Settles [] l ps = Settles-some _
  columns_of-Settles (f ∷ fs) l (p, ps) =
      Settles-bind (λ m. column_of go snake_case m f) _ (column_of-Settles f p)
        (λ (col, imported) n e.
          Settles-bind (λ m. columns_of go snake_case m fs (import_type imported l)) _
            (columns_of-Settles fs (import_type imported l) ps) (λ (cols, l') n e1. Settles-some _))

  cardinality-Settles :
      (f : FieldOf AType) → Program f.typ.pkg → Settles (λ m. cardinality go snake_case m f)
  unfolding cardinality
  cardinality-Settles f p =
      Settles-bind (λ m. is_one_to_many_field go m f) _
        (is_one_to_many_field-Settles go Program rank ranks f p)
        (λ many n e.
          Settles-if many _ (λ m. pure one_to_many)
            (Settles-bind (λ m. is_many_to_one_field go m f) _
              (is_many_to_one_field-Settles go Program rank ranks f p) (λ one n e1. Settles-some _))
            (Settles-some _))

  unwrapped-Settles :
      (card : Cardinality) (typ : AType)
      → Program typ.pkg
      → Settles (λ m. unwrapped go snake_case m card typ)
  unwrapped-Settles one_to_many typ p =
      strip-Settles go Program rank ranks is_pointer_or_slice typ p
  unwrapped-Settles many_to_one typ p = strip-Settles go Program rank ranks is_pointer typ p
  unwrapped-Settles one_to_one typ p = strip-Settles go Program rank ranks is_pointer typ p

  unwrapped_in :
      (card : Cardinality) (typ t : AType) (fuel : ℕ)
      → Program typ.pkg
      → unwrapped go snake_case fuel card typ ≡ some (ok t)
      → Program t.pkg
  unwrapped_in one_to_many typ t fuel p e =
      found_in go Program rank ranks is_pointer_or_slice typ t fuel p e
  unwrapped_in many_to_one typ t fuel p e = found_in go Program rank ranks is_pointer typ t fuel p e
  unwrapped_in one_to_one typ t fuel p e = found_in go Program rank ranks is_pointer typ t fuel p e

  -- The steps of a relation after its struct type was found.
  related-Settles :
      (fs : List (FieldOf AType)) (f : FieldOf AType) (card : Cardinality) (strct : AStruct)
      → Program strct.pkg
      → Settles (λ m. relation_to go snake_case m fs f card strct)
  unfolding relation_to
  related-Settles fs f card strct p =
      Settles-bind (λ m. fields go m strct) _ (fields_end strct p)
        (λ all n e3.
          Settles-bind (λ m. column_names snake_case (fields_by_func all is_column_field)) _
            (column_names-Settles snake_case (fields_by_func all is_column_field))
            (λ names n e4. Settles-fail (foreign_key f) _ (λ fore_names e5.
              Settles-bind (λ m. key_columns snake_case fs fore_names) _
                (key_columns-Settles snake_case fs fore_names)
                (λ fore n e6. Settles-fail (reference_key f) _ (λ refe_names e7.
                  Settles-bind
                    (λ m. key_columns snake_case (fields_by_func all is_column_field) refe_names) _
                    (key_columns-Settles snake_case (fields_by_func all is_column_field) refe_names)
                    (λ refe n e8. Settles-some _))))))

  relation_of-Settles :
      (fs : List (FieldOf AType)) (f : FieldOf AType)
      → Program f.typ.pkg
      → Settles (λ m. relation_of go snake_case m fs f)
  unfolding relation_of
  relation_of-Settles fs f p =
      Settles-bind (λ m. cardinality go snake_case m f) _ (cardinality-Settles f p)
        (λ card n e.
          Settles-bind (λ m. unwrapped go snake_case m card f.typ) _
            (unwrapped-Settles card f.typ p)
            (λ typ n e1.
              let q = unwrapped_in card f.typ typ n p e1 in
              Settles-bind (λ m. new_struct go m typ) _
                (new_struct-Settles go Program rank ranks typ q)
                (λ strct n' e2. related-Settles fs f card strct (
                  IfDone-done (InProgram go Program) (new_struct go n' typ) strct
                    (new_struct-pkg go Program n' typ closed q) e2))))

  add_relations-Settles :
      (fs gs : List (FieldOf AType)) (tbl : Table)
      → All (IsTyped go Program) gs
      → Settles (λ m. add_relations go snake_case m fs gs tbl)
  unfolding add_relations
  add_relations-Settles fs [] tbl ps = Settles-some _
  add_relations-Settles fs (g ∷ gs) tbl (p, ps) =
      Settles-bind (λ m. relation_of go snake_case m fs g) _ (relation_of-Settles fs g p)
        (λ (card, rel) n e. add_relations-Settles fs gs (add_relation card rel tbl) ps)

  pub walk_struct-Settles :
      (strct : AStruct) (out : Package)
      → Program strct.pkg
      → Settles (λ m. walk_struct go snake_case m strct out)
  unfolding walk_struct
  walk_struct-Settles strct out p =
      Settles-bind (λ m. fields go m strct) _ (fields_end strct p)
        (λ all n e.
          let ps = fields_typed strct n all p e in
          Settles-bind
            (λ m. columns_of go snake_case m (fields_by_func all is_column_field) out.imports) _
            (columns_of-Settles (fields_by_func all is_column_field) out.imports
              (All-filter _ is_column_field all ps))
            (λ (cols, imports) n e1.
              Settles-bind
                (λ m.
                  add_relations go snake_case m (fields_by_func all is_column_field)
                    (fields_by_func all is_relation) _)
                _
                (add_relations-Settles (fields_by_func all is_column_field)
                  (fields_by_func all is_relation) _ (All-filter _ is_relation all ps))
                (λ tbl n e2. Settles-some _)))
