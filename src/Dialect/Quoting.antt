-- ===== src/Dialect/Quoting.antt =====
-- A quoted name of `Quote` in dialect/postgres/dialect.go and dialect/sqlite3/dialect.go, read back
-- by the rule of SQL for quoted identifiers: two quotes in a row stand for one.
use goen.Prelude.{
  ℕ, Bool, false, [], ◌∷◌, ◌++◌, append_assoc, Str, ◌==◌, if◌then◌else◌, Option, none, some, ◌≡◌,
  refl, sym, arith, ap, ◌∙◌, ==_iff, Bool-cases, inl, inr,
}
use goen.Dialect.{double_quotes, quote_with}
use goen.Dialect.Postgres
use goen.Dialect.Sqlite3

abbrev push : ℕ → Option (Str × Str) → Option (Str × Str)
push c none = none
push c (some (name, rest)) = some (c ∷ name, rest)

-- What stands behind the opening quote: the name, and the text behind the closing quote.
unfoldable pub read_body : ℕ → Str → Option (Str × Str)
read_body q [] = none
read_body q (c ∷ []) = if c == q then some ([], []) else none
read_body q (c ∷ d ∷ s) =
    let doubled = push q (read_body q s) in
    let plain = push c (read_body q (d ∷ s)) in
    if c == q then (if d == q then doubled else some ([], d ∷ s)) else plain

unfoldable pub read_identifier : ℕ → Str → Option (Str × Str)
unfolding read_body
read_identifier q [] = none
read_identifier q (c ∷ s) = let body = read_body q s in if c == q then body else none

abbrev pub starts_with : ℕ → Str → Bool
starts_with q [] = false
starts_with q (c ∷ s) = c == q

read_body_close :
    (q : ℕ) (rest : Str) → starts_with q rest ≡ false → read_body q (q ∷ rest) ≡ some ([], rest)
unfolding read_body
read_body_close q [] h = ground arith
read_body_close q (c ∷ rest) h = ground arith

read_body_quote : (q : ℕ) (s : Str) → read_body q (q ∷ q ∷ s) ≡ push q (read_body q s)
unfolding read_body
read_body_quote q s = ground arith

read_body_plain :
    (q c d : ℕ) (t s : Str)
    → t ≡ d ∷ s
    → (c == q) ≡ false
    → read_body q (c ∷ t) ≡ push c (read_body q t)
unfolding read_body
read_body_plain q c d t s e h = rw (e, h)

-- Behind a plain byte there is always another, the closing quote at last.
double_quotes-cons :
    (q : ℕ) (s rest : Str) → (d : ℕ) × (t : Str) × (double_quotes q s ++ q ∷ rest ≡ d ∷ t)
unfolding double_quotes
double_quotes-cons q [] rest = (q, rest, refl)
double_quotes-cons q (c ∷ s) rest = elim (Bool-cases (c == q)) [
  | inl e ↦ (c, c ∷ (double_quotes q s ++ q ∷ rest), rw e)
  | inr e ↦ (c, double_quotes q s ++ q ∷ rest, rw e)
]

read_body_lem :
    (q : ℕ) (s rest : Str)
    → starts_with q rest ≡ false
    → read_body q (double_quotes q s ++ q ∷ rest) ≡ some (s, rest)
unfolding double_quotes
read_body_lem q [] rest h = read_body_close q rest h
read_body_lem q (c ∷ s) rest h = elim (Bool-cases (c == q)) [
  | inl e ↦ rw (e, (==_iff c q).0 e, read_body_quote, read_body_lem q s rest h)
  | inr e ↦
      let (d, t, shape) = double_quotes-cons q s rest in
      rw e (read_body_plain q c d _ t shape e ∙ rw (read_body_lem q s rest h))
]

read_identifier_lem :
    (q : ℕ) (s rest : Str)
    → starts_with q rest ≡ false
    → read_identifier q (quote_with q s ++ rest) ≡ some (s, rest)
unfolding read_identifier quote_with
read_identifier_lem q s rest h = rw (append_assoc, (==_iff q q).1 refl) (read_body_lem q s rest h)

-- Any name, quoted for PostgreSQL and followed by a text that does not start with a quote, is read
-- back by the rule of SQL as the name, and the text behind it is what is left.
pub read_identifier-postgres :
    (s rest : Str)
    → starts_with b'"' rest ≡ false
    → read_identifier b'"' (Postgres.quote s ++ rest) ≡ some (s, rest)
unfolding Postgres.quote
read_identifier-postgres s rest h = read_identifier_lem b'"' s rest h

-- Any name, quoted for SQLite and followed by a text that does not start with a back quote, is read
-- back by the same rule with back quotes as the name, and the text behind it is what is left.
pub read_identifier-sqlite3 :
    (s rest : Str)
    → starts_with b'`' rest ≡ false
    → read_identifier b'`' (Sqlite3.quote s ++ rest) ≡ some (s, rest)
unfolding Sqlite3.quote
read_identifier-sqlite3 s rest h = read_identifier_lem b'`' s rest h

some_pair : (a b c d : Str) → ◌≡◌ {A = Option (Str × Str)} (some (a, c)) (some (b, d)) → a ≡ b
some_pair a b c d h = cc

-- Names that differ are quoted differently.
pub quote_injective : (s t : Str) → Postgres.quote s ≡ Postgres.quote t → s ≡ t
quote_injective s t h = some_pair s t [] [] (
    sym (read_identifier-postgres s [] refl)
    ∙ ap (λ x. read_identifier b'"' (x ++ [])) h
    ∙ read_identifier-postgres t [] refl)
