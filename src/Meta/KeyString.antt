-- ===== src/Meta/KeyString.antt =====
-- `KeyStringFromRowKey` of meta.go: the identity text of a row key.
use goen.Prelude.{
  ℕ, ◌/◌, ◌%◌, ◌+◌, ◌-◌, length, List, [], ◌∷◌, ◌++◌, map, Str, All, All-append, ltb, if◌then◌else◌,
  Option, none, some, ◌≡◌, ◌≢◌, refl, sym, arith, ap, ap₂, ◌∙◌, append_assoc,
}
use goen.Go.Result.{Result, ok, err, panic, error_value, panic_text, safe_do, ◌>>=◌}
use goen.Go.Value.{Value}
use goen.RowKey.{MapRowKey, row_key}
use goen.StructTag.{split}
use goen.StructTag.Split.{Lacks, join, split-join}

-- What a value implements, and its default format: encoding.TextMarshaler and
-- encoding.BinaryMarshaler (`none` if the value does not implement it), and fmt.Sprint. The
-- implementations are those of the program's own types.
pub record Marshal : Type 0 where
  pub text : Value → Option (Result Str)
  pub binary : Value → Option (Result Str)
  pub sprint : Value → Str

hex_digit : ℕ → ℕ
hex_digit n = if ltb n 10 then b'0' + n else b'a' + (n - 10)

-- hex.EncodeToString
pub hex_encode : Str → Str
unfolding hex_digit
hex_encode [] = []
hex_encode (b ∷ s) = hex_digit (b / 16) ∷ hex_digit (b % 16) ∷ hex_encode s

-- `if b, err := …; err != nil { panic(err) }`
pub or_panic : Result Str → Result Str
or_panic (ok s) = ok s
or_panic (err e) = panic (error_value e)
or_panic (panic p) = panic p

-- The function that is handed to `safeDo`.
pub format_value : Marshal → Value → Result Str
unfolding or_panic hex_encode
format_value m v = elim (m.text v) [
  | some r ↦ or_panic r
  | none ↦ elim (m.binary v) [
    | some r ↦ (do b ← or_panic r; ok (hex_encode b))
    | none ↦ ok (m.sprint v)
  ]
]

-- The text of an error replaces the value.
abbrev or_error_text : Result Str → Str
or_error_text (ok s) = s
or_error_text (err e) = e
or_error_text (panic p) = panic_text p

unfoldable pub value_string : Marshal → Value → Str
unfolding format_value safe_do
value_string m v = or_error_text (safe_do (format_value m v))

-- The loop over the columns; both lists have the same length.
unfoldable pub params : Marshal → List Str → List Value → List Str
params m (c ∷ cs) (v ∷ vs) = (c ++ b'=' ∷ value_string m v) ∷ params m cs vs
params m [] vs = []
params m (c ∷ cs) [] = []

unfoldable pub key_string : Marshal → Str → List Str → List Value → Str
unfolding params
key_string m table cols vals = table ++ b';' ∷ join b';' (params m cols vals)

-- `KeyStringFromRowKey` of a `MapRowKey`.
unfoldable pub key_string_of : Marshal → MapRowKey → Str
unfolding key_string row_key
key_string_of m k = let (cols, vals) = row_key k in key_string m k.table cols vals

append_cancel : (s : Str) {t u : Str} → s ++ t ≡ s ++ u → t ≡ u
append_cancel [] h = h
append_cancel (c ∷ s) h = append_cancel s (cc)

module _ (m : Marshal) where
  -- The text of a value has no semicolon.
  abbrev pub IsPlain : Value → Type 0
  IsPlain v = Lacks b';' (value_string m v)

  params-Lacks :
      (cs : List Str) (vs : List Value)
      → All (Lacks b';') cs
      → All IsPlain vs
      → All (Lacks b';') (params m cs vs)
  unfolding params
  params-Lacks [] vs h k = tt
  params-Lacks (c ∷ cs) [] h k = tt
  params-Lacks (c ∷ cs) (v ∷ vs) h k = (
    All-append (λ x. x ≢ b';') c (b'=' ∷ value_string m v) h.0 ((λ e. absurd (omega arith)), k.0),
    params-Lacks cs vs h.1 k.1,
  )

  cons_cancel : (x y : Str) (xs ys : List Str) → x ∷ xs ≡ y ∷ ys → (x ≡ y) × (xs ≡ ys)
  cons_cancel x y xs ys h = (cc, cc)

  params-injective :
      (cs : List Str) (vs ws : List Value)
      → length vs ≡ length cs
      → length ws ≡ length cs
      → params m cs vs ≡ params m cs ws
      → map (value_string m) vs ≡ map (value_string m) ws
  unfolding params
  params-injective [] [] [] p q h = refl
  params-injective [] [] (w ∷ ws) p q h = absurd (omega arith)
  params-injective [] (v ∷ vs) ws p q h = absurd (omega arith)
  params-injective (c ∷ cs) [] ws p q h = absurd (omega arith)
  params-injective (c ∷ cs) (v ∷ vs) [] p q h = absurd (omega arith)
  params-injective (c ∷ cs) (v ∷ vs) (w ∷ ws) p q h =
      let (here, there) = cons_cancel _ _ _ _ h in
      ap₂ ◌∷◌ (append_cancel (b'=' ∷ []) (append_cancel c here))
        (params-injective cs vs ws (omega arith) (omega arith) there)

  join-injective :
      (cs : List Str) (vs ws : List Value)
      → All (Lacks b';') cs
      → All IsPlain vs
      → All IsPlain ws
      → length vs ≡ length cs
      → length ws ≡ length cs
      → join b';' (params m cs vs) ≡ join b';' (params m cs ws)
      → params m cs vs ≡ params m cs ws
  unfolding params
  join-injective [] vs ws hc hv hw p q h = refl
  join-injective (c ∷ cs) [] ws hc hv hw p q h = absurd (omega arith)
  join-injective (c ∷ cs) (v ∷ vs) [] hc hv hw p q h = absurd (omega arith)
  join-injective (c ∷ cs) (v ∷ vs) (w ∷ ws) hc hv hw p q h =
      sym (split-join b';' _ _ (params-Lacks (c ∷ cs) (v ∷ vs) hc hv))
      ∙ ap (split b';') h
      ∙ split-join b';' _ _ (params-Lacks (c ∷ cs) (w ∷ ws) hc hw)

  -- Two keys of one table and the same columns have one identity text only if their values have the
  -- same texts, provided that no column and no value's text has a semicolon in it.
  pub key_string-injective :
      (table : Str) (cols : List Str) (vs ws : List Value)
      → All (Lacks b';') cols
      → All IsPlain vs
      → All IsPlain ws
      → length vs ≡ length cols
      → length ws ≡ length cols
      → key_string m table cols vs ≡ key_string m table cols ws
      → map (value_string m) vs ≡ map (value_string m) ws
  unfolding key_string
  key_string-injective table cols vs ws hc hv hw p q h =
      params-injective cols vs ws p q
        (join-injective cols vs ws hc hv hw p q (append_cancel (b';' ∷ []) (append_cancel table h)))

  -- Where values may hold a semicolon, different keys of two columns share an identity text: for
  -- all texts x, y and z, the values `x;b=y` and `z` have the same one as `x` and `y;b=z`.
  pub key_string_collision :
      (table a b x y z : Str) (v v' w w' : Value)
      → value_string m v ≡ x ++ b';' ∷ (b ++ b'=' ∷ y)
      → value_string m v' ≡ z
      → value_string m w ≡ x
      → value_string m w' ≡ y ++ b';' ∷ (b ++ b'=' ∷ z)
      → key_string m table (a ∷ b ∷ []) (v ∷ v' ∷ [])
        ≡ key_string m table (a ∷ b ∷ []) (w ∷ w' ∷ [])
  unfolding key_string params
  key_string_collision table a b x y z v v' w w' e e' f f' = rw (e, e', f, f') (simp append_assoc)
