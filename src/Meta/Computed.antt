-- ===== src/Meta/Computed.antt =====
-- The tables that `Compute` of meta.go builds.
use goen.Prelude.{
  Bool, true, false, ◌&&◌, not, List, [], ◌∷◌, ◌++◌, Str, All, All-append, map, map-append,
  append_assoc, append-nil, ◌≡◌, refl, ap, ap₂, ◌∙◌, sym, subst, if◌then◌else◌, Bool-cases, inl,
  inr,
}
use goen.Go.Succeeding.{IfOk, IfOk-bind, IfOk-any, IfOk-ok, IfOk-self}
use goen.Go.Result.{Result, ok}
use goen.Structs.{
  StructField, is_primary_key_field, is_one_to_many_field, is_many_to_one_field, reference_key,
  column_name, omit_empty, fields_by_func, is_column_field,
}
use goen.Meta.{
  MetaColumn, MetaTable, meta_column, add_column, add_columns, add_key_of_kind, add_reference_key,
  add_references, add_all_references, compute_of, empty_table, reference_columns, refers_to,
}

-- The columns of the primary key.
abbrev pub of_key : List MetaColumn → List MetaColumn
of_key [] = []
of_key (c ∷ cs) = if c.part_of_primary_key then c ∷ of_key cs else of_key cs

of_key-append : (cs ds : List MetaColumn) → of_key (cs ++ ds) ≡ of_key cs ++ of_key ds
of_key-append [] ds = refl
of_key-append (c ∷ cs) ds = elim (Bool-cases c.part_of_primary_key) [
  | inl h ↦ simp (h, of_key-append cs ds)
  | inr h ↦ simp (h, of_key-append cs ds)
]

-- A field of another table's struct that refers to the table, and the columns of its key.
abbrev pub Reference : Type 0
Reference = StructField × List MetaColumn

abbrev is_yes : Result Bool → Bool
is_yes (ok b) = b
is_yes _ = false

-- The two cases of the switch on such a field: a collection, and else a struct or a pointer to one.
abbrev pub is_collection : StructField → Bool
is_collection f = is_yes (is_one_to_many_field f)

abbrev pub is_single : StructField → Bool
is_single f = not (is_collection f) && is_yes (is_many_to_one_field f)

-- The keys of the references whose field passes a test.
abbrev pub keys_where : (StructField → Bool) → List Reference → List (List MetaColumn)
keys_where test [] = []
keys_where test ((f, key) ∷ refs) =
    let rest = keys_where test refs in if test f then key ∷ rest else rest

keys_where-snoc :
    (test : StructField → Bool) (refs : List Reference) (f : StructField) (key : List MetaColumn)
    (b : Bool)
    → test f ≡ b
    → (if b then keys_where test refs ++ key ∷ [] else keys_where test refs)
      ≡ keys_where test (refs ++ (f, key) ∷ [])
keys_where-snoc test [] f key true e = rw e refl
keys_where-snoc test [] f key false e = rw e refl
keys_where-snoc test ((g, k) ∷ refs) f key true e =
    let ih = keys_where-snoc test refs f key true e in
    elim (Bool-cases (test g)) [ inl h ↦ simp (h, sym ih) | inr h ↦ simp (h, sym ih) ]
keys_where-snoc test ((g, k) ∷ refs) f key false e =
    let ih = keys_where-snoc test refs f key false e in
    elim (Bool-cases (test g)) [ inl h ↦ simp (h, sym ih) | inr h ↦ simp (h, sym ih) ]

-- The fields of the registered types that refer to the type, in order.
abbrev pub referring : (Str → Str) → (Str → List StructField) → Str → List Str → List StructField
referring snake_case struct_fields typ [] = []
referring snake_case struct_fields typ (t ∷ ts) =
    fields_by_func (struct_fields t) (refers_to snake_case typ)
    ++ referring snake_case struct_fields typ ts

-- The columns of a reference's key are those that the field names and the struct has.
pub record IsKey (snake_case : Str → Str) (all : List StructField) (r : Reference) : Type 0 where
  pub names : List Str
  pub named : reference_key r.0 ≡ ok names
  pub made : reference_columns snake_case all names ≡ ok r.1

-- A table over the column fields `fs` of a struct with the fields `all`, to which the fields
-- `refe_fields` refer: its columns, which of them its primary key has, and exactly its keys.
pub record IsTable (snake_case : Str → Str) (all fs refe_fields : List StructField)
    (tbl : MetaTable) : Type 0 where
  pub fields : map (λ c. c.field) tbl.columns ≡ fs
  pub marked : All (λ c. c.part_of_primary_key ≡ is_primary_key_field c.field) tbl.columns
  pub keyed : tbl.primary_key ≡ of_key tbl.columns
  pub refs : List Reference
  pub refe_fields_of : map (λ r. r.0) refs ≡ refe_fields
  pub keys : All (IsKey snake_case all) refs
  pub reference_keys : tbl.reference_keys ≡ map (λ r. r.1) refs
  pub one_to_many : tbl.one_to_many_reference_keys ≡ keys_where is_collection refs
  pub many_to_one : tbl.many_to_one_reference_keys ≡ keys_where is_single refs

module _ (snake_case : Str → Str) (all : List StructField) where
  abbrev IsTableOf : List StructField → List StructField → MetaTable → Type 0
  IsTableOf fs gs tbl = IsTable snake_case all fs gs tbl

  abbrev Describes : StructField → MetaColumn → Type 0
  Describes f c = (c.field ≡ f) × (c.part_of_primary_key ≡ is_primary_key_field f)

  meta_column-Describes : (f : StructField) → IfOk (Describes f) (meta_column snake_case f)
  unfolding meta_column
  meta_column-Describes f =
      IfOk-bind (λ a. Unit) (Describes f) (column_name snake_case f) _ (IfOk-any _)
        λ name u.
          IfOk-bind (λ a. Unit) (Describes f) (omit_empty f) _ (IfOk-any _) λ o u'. (refl, refl)

  add_column-keyed :
      (f : StructField) (key cols : List MetaColumn) (col : MetaColumn)
      → Describes f col
      → key ≡ of_key cols
      → (if is_primary_key_field f then key ++ col ∷ [] else key) ≡ of_key (cols ++ col ∷ [])
  add_column-keyed f key cols col d h = elim (Bool-cases (is_primary_key_field f)) [
    | inl e ↦ simp (e, h, of_key-append cols (col ∷ []), d.1 ∙ e)
    | inr e ↦ simp (e, h, of_key-append cols (col ∷ []), d.1 ∙ e, append-nil (of_key cols))
  ]

  add_column-IsTable :
      (f : StructField) (fs : List StructField) (tbl : MetaTable)
      → IsTableOf fs [] tbl
      → IfOk (IsTableOf (fs ++ f ∷ []) []) (add_column snake_case f tbl)
  unfolding add_column
  add_column-IsTable f fs tbl h =
      IfOk-bind (Describes f) (IsTableOf (fs ++ f ∷ []) []) (meta_column snake_case f) _
        (meta_column-Describes f)
        λ col d. record {
          fields = map-append _ tbl.columns (col ∷ []) ∙ ap₂ (λ x y. x ++ y ∷ []) h.fields d.0;
          keyed = add_column-keyed f tbl.primary_key tbl.columns col d h.keyed;
          marked =
              All-append _ tbl.columns (col ∷ []) h.marked
                (d.1 ∙ ap is_primary_key_field (sym d.0), tt);
          refs = h.refs;
          refe_fields_of = h.refe_fields_of;
          keys = h.keys;
          reference_keys = h.reference_keys;
          one_to_many = h.one_to_many;
          many_to_one = h.many_to_one;
        }

  add_columns-IsTable :
      (gs fs : List StructField) (tbl : MetaTable)
      → IsTableOf fs [] tbl
      → IfOk (IsTableOf (fs ++ gs) []) (add_columns snake_case gs tbl)
  unfolding add_columns
  add_columns-IsTable [] fs tbl h = subst (λ l. IsTableOf l [] tbl) (sym (append-nil fs)) h
  add_columns-IsTable (g ∷ gs) fs tbl h =
      IfOk-bind (IsTableOf (fs ++ g ∷ []) []) (IsTableOf (fs ++ g ∷ gs) [])
        (add_column snake_case g tbl) _ (add_column-IsTable g fs tbl h)
        λ t k.
          subst (λ l. IfOk (IsTableOf l []) (add_columns snake_case gs t))
            (append_assoc fs (g ∷ []) gs) (add_columns-IsTable gs (fs ++ g ∷ []) t k)

  -- A table with one more reference.
  extended :
      (fs gs : List StructField) (f : StructField) (key : List MetaColumn) (tbl : MetaTable)
      (b c : Bool)
      → IsTableOf fs gs tbl
      → IsKey snake_case all (f, key)
      → is_collection f ≡ b
      → is_single f ≡ c
      → IsTableOf fs (gs ++ f ∷ []) (record tbl {
        reference_keys = tbl.reference_keys ++ key ∷ [];
        one_to_many_reference_keys =
            if b
            then tbl.one_to_many_reference_keys ++ key ∷ []
            else tbl.one_to_many_reference_keys;
        many_to_one_reference_keys =
            if c
            then tbl.many_to_one_reference_keys ++ key ∷ []
            else tbl.many_to_one_reference_keys;
      })
  extended fs gs f key tbl b c h k eb ec = record {
    fields = h.fields;
    marked = h.marked;
    keyed = h.keyed;
    refs = h.refs ++ (f, key) ∷ [];
    refe_fields_of = map-append _ h.refs ((f, key) ∷ []) ∙ ap (λ l. l ++ f ∷ []) h.refe_fields_of;
    keys = All-append _ h.refs ((f, key) ∷ []) h.keys (k, tt);
    reference_keys =
        ap (λ l. l ++ key ∷ []) h.reference_keys ∙ sym (map-append _ h.refs ((f, key) ∷ []));
    one_to_many =
        ap (λ (l : List (List MetaColumn)). if b then l ++ key ∷ [] else l) h.one_to_many
        ∙ keys_where-snoc is_collection h.refs f key b eb;
    many_to_one =
        ap (λ (l : List (List MetaColumn)). if c then l ++ key ∷ [] else l) h.many_to_one
        ∙ keys_where-snoc is_single h.refs f key c ec;
  }

  add_key_of_kind-IsTable :
      (b : Bool) (f : StructField) (key : List MetaColumn) (fs gs : List StructField)
      (tbl : MetaTable)
      → IsTableOf fs gs tbl
      → IsKey snake_case all (f, key)
      → is_one_to_many_field f ≡ ok b
      → IfOk (IsTableOf fs (gs ++ f ∷ [])) (add_key_of_kind snake_case b f key tbl)
  add_key_of_kind-IsTable true f key fs gs tbl h k e =
      extended fs gs f key tbl true false h k (ap is_yes e)
        (ap (λ r. not (is_yes r) && is_yes (is_many_to_one_field f)) e)
  add_key_of_kind-IsTable false f key fs gs tbl h k e =
      IfOk-bind (λ m. is_many_to_one_field f ≡ ok m) (IsTableOf fs (gs ++ f ∷ []))
        (is_many_to_one_field f) _ (IfOk-self (is_many_to_one_field f))
        λ m v.
          extended fs gs f key tbl false m h k (ap is_yes e)
            (ap₂ (λ r r'. not (is_yes r) && is_yes r') e v)

  add_reference_key-IsTable :
      (f : StructField) (key : List MetaColumn) (fs gs : List StructField) (tbl : MetaTable)
      → IsTableOf fs gs tbl
      → IsKey snake_case all (f, key)
      → IfOk (IsTableOf fs (gs ++ f ∷ [])) (add_reference_key snake_case f key tbl)
  unfolding add_reference_key
  add_reference_key-IsTable f key fs gs tbl h k =
      IfOk-bind (λ b. is_one_to_many_field f ≡ ok b) (IsTableOf fs (gs ++ f ∷ []))
        (is_one_to_many_field f) _ (IfOk-self (is_one_to_many_field f))
        λ b e. add_key_of_kind-IsTable b f key fs gs tbl h k e

  add_references-IsTable :
      (more fs gs : List StructField) (tbl : MetaTable)
      → IsTableOf fs gs tbl
      → IfOk (IsTableOf fs (gs ++ more)) (add_references snake_case all more tbl)
  unfolding add_references
  add_references-IsTable [] fs gs tbl h = subst (λ l. IsTableOf fs l tbl) (sym (append-nil gs)) h
  add_references-IsTable (f ∷ more) fs gs tbl h =
      IfOk-bind (λ names. reference_key f ≡ ok names) (IsTableOf fs (gs ++ f ∷ more))
        (reference_key f) _ (IfOk-self (reference_key f))
        λ names e.
          IfOk-bind (λ key. reference_columns snake_case all names ≡ ok key)
            (IsTableOf fs (gs ++ f ∷ more)) (reference_columns snake_case all names) _
            (IfOk-self (reference_columns snake_case all names))
            λ key v.
              IfOk-bind (IsTableOf fs (gs ++ f ∷ [])) (IsTableOf fs (gs ++ f ∷ more))
                (add_reference_key snake_case f key tbl) _
                (add_reference_key-IsTable f key fs gs tbl h
                  (record { names = names; named = e; made = v }))
                λ t k.
                  subst (λ l. IfOk (IsTableOf fs l) (add_references snake_case all more t))
                    (append_assoc gs (f ∷ []) more)
                    (add_references-IsTable more fs (gs ++ f ∷ []) t k)

module _ (snake_case : Str → Str) (struct_fields : Str → List StructField) where
  add_all_references-IsTable :
      (typ : Str) (typlist : List Str) (fs gs : List StructField) (tbl : MetaTable)
      → IsTable snake_case (struct_fields typ) fs gs tbl
      → IfOk
          (IsTable snake_case
            (struct_fields typ)
            fs
            (gs ++ referring snake_case struct_fields typ typlist))
          (add_all_references snake_case struct_fields typ typlist tbl)
  unfolding add_all_references
  add_all_references-IsTable typ [] fs gs tbl h =
      subst (λ l. IsTable snake_case (struct_fields typ) fs l tbl) (sym (append-nil gs)) h
  add_all_references-IsTable typ (r ∷ rs) fs gs tbl h =
      let here = fields_by_func (struct_fields r) (refers_to snake_case typ) in
      IfOk-bind (IsTable snake_case (struct_fields typ) fs (gs ++ here)) _
        (add_references snake_case (struct_fields typ) here tbl) _
        (add_references-IsTable snake_case (struct_fields typ) here fs gs tbl h)
        λ t k.
          subst
            (λ l.
              IfOk (IsTable snake_case (struct_fields typ) fs l)
                (add_all_references snake_case struct_fields typ rs t))
            (append_assoc gs here (referring snake_case struct_fields typ rs))
            (add_all_references-IsTable typ rs fs (gs ++ here) t k)

  compute_of-IfOk :
      (typlist : List Str) (typ : Str)
      → IfOk
          (IsTable snake_case
            (struct_fields typ)
            (fields_by_func (struct_fields typ) is_column_field)
            (referring snake_case struct_fields typ typlist))
          (compute_of snake_case struct_fields typlist typ)
  unfolding compute_of
  compute_of-IfOk typlist typ =
      let all = struct_fields typ in
      let fs = fields_by_func all is_column_field in
      IfOk-bind (IsTable snake_case all fs []) _ (add_columns snake_case fs _) _
        (add_columns-IsTable snake_case all fs [] (empty_table snake_case struct_fields typ)
          (record {
            fields = refl;
            marked = tt;
            keyed = refl;
            refs = [];
            refe_fields_of = refl;
            keys = tt;
            reference_keys = refl;
            one_to_many = refl;
            many_to_one = refl;
          }))
        λ t k. add_all_references-IsTable typ typlist fs [] t k

  -- A table that `computeOf` returns has one column for each column field of the struct, in the order
  -- of the fields, marked if the field is a primary key field, and its primary key is the marked
  -- ones. It has one reference key for each field of a registered type that refers to the struct, in
  -- order, with the columns that the field names and the struct has; the one-to-many keys are those of
  -- the fields that are collections, and the many-to-one keys those of the fields that are not, and
  -- are a struct or a pointer to one.
  pub compute_of-IsTable :
      (typlist : List Str) (typ : Str) (tbl : MetaTable)
      → compute_of snake_case struct_fields typlist typ ≡ ok tbl
      → IsTable snake_case
          (struct_fields typ)
          (fields_by_func (struct_fields typ) is_column_field)
          (referring snake_case struct_fields typ typlist)
          tbl
  compute_of-IsTable typlist typ tbl e = IfOk-ok _ _ tbl (compute_of-IfOk typlist typ) e
