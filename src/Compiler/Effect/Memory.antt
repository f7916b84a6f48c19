-- ===== src/Compiler/Effect/Memory.antt =====
-- A database in memory, with a squirrel of its own: it shows that what `Database` asks of the two
-- can be met. A row is a function from columns to values.
use mathlib.Core.List.{foldl}
use mathlib.Core.Option.{some-injective}
use goen.Prelude.{
  ℕ, Bool, true, false, ◌&&◌, ◌||◌, List, [], ◌∷◌, ◌++◌, map, Str, str_eq, if◌then◌else◌, ◌≡◌, refl,
  sym, ap, ◌∙◌, fun_ext, arith, Bool-cases, append_assoc, append-nil, ◌⊎◌, inl, inr, some, All,
}
use goen.Go.Value.{Value, nil, deep_equal, deep_equal_all}
use goen.Go.Value.Canonical.{canonical, canonical-eq}
use goen.Go.Map.{Map}
use goen.Squirrel.{Squirrel}
use goen.Compiler.Effect.{Database, set_all, exec_all}

abbrev pub Row : Type 0
Row = Str → Value

-- Each row with the name of its table.
abbrev pub State : Type 0
State = List (Str × Row)

-- An expression by the rows that it selects, a statement by what it does.
pub record Statement : Type 0 where
  pub test : Row → Bool
  pub run : State → State

pub record InsertBuilder : Type 0 where
  pub table : Str
  pub cols : List Str
  pub rows : List (List Value)

pub record UpdateBuilder : Type 0 where
  pub table : Str
  pub assign : Row → Row
  pub cond : Row → Bool

pub record DeleteBuilder : Type 0 where
  pub table : Str
  pub cond : Row → Bool

abbrev row_of : List Str → List Value → Row
row_of (c ∷ cs) (v ∷ vs) k = if str_eq c k then canonical v else row_of cs vs k
row_of [] vs k = nil
row_of (c ∷ cs) [] k = nil

abbrev all_equal : Map Value → Row → Bool
all_equal [] r = true
all_equal ((c, v) ∷ m) r = deep_equal (r c) (canonical v) && all_equal m r

abbrev any_test : List Statement → Row → Bool
any_test [] r = false
any_test (c ∷ cs) r = c.test r || any_test cs r

abbrev remove : (Str × Row → Bool) → State → State
remove f [] = []
remove f (e ∷ s) = let rest = remove f s in if f e then rest else e ∷ rest

abbrev modify : (Str × Row → Bool) → (Row → Row) → State → State
modify f g [] = []
modify f g (e ∷ s) = (if f e then (e.0, g e.1) else e) ∷ modify f g s

abbrev selects : Str → (Row → Bool) → Str × Row → Bool
selects table cond e = str_eq e.0 table && cond e.1

abbrev pub memory_squirrel : Squirrel
memory_squirrel = record {
  Sqlizer = Statement;
  PlaceholderFormat = ℕ;
  StatementBuilder = ℕ;
  InsertBuilder = InsertBuilder;
  UpdateBuilder = UpdateBuilder;
  DeleteBuilder = DeleteBuilder;
  statement_builder = 0;
  placeholder_format = λ sb f. f;
  insert = λ sb t. record { table = t; cols = []; rows = [] };
  update = λ sb t. record { table = t; assign = λ r. r; cond = λ r. true };
  delete = λ sb t. record { table = t; cond = λ r. true };
  columns = λ b cs. record b { cols = cs };
  values = λ b vs. record b { rows = b.rows ++ vs ∷ [] };
  set_column =
      λ b c v. record b { assign = λ r k. if str_eq c k then canonical v else b.assign r k };
  update_where = λ b c. record b { cond = c.test };
  delete_where = λ b c. record b { cond = c.test };
  eq = λ m. record { test = all_equal m; run = λ s. s };
  or_any = λ cs. record { test = any_test cs; run = λ s. s };
  insert_sqlizer = λ b. record {
    test = λ r. false;
    run = λ s. s ++ map (λ vs. (b.table, row_of b.cols vs)) b.rows;
  };
  update_sqlizer =
      λ b. record { test = λ r. false; run = modify (selects b.table b.cond) b.assign };
  delete_sqlizer = λ b. record { test = λ r. false; run = remove (selects b.table b.cond) };
}

abbrev with_rows : InsertBuilder → List (List Value) → InsertBuilder
with_rows b rows = record b { rows = b.rows ++ rows }

foldl-values :
    (rows : List (List Value)) (b : InsertBuilder)
    → foldl memory_squirrel.values b rows ≡ with_rows b rows
foldl-values [] b = λ i. record b { rows = sym (append-nil b.rows) i }
foldl-values (r ∷ rows) b = foldl-values rows (memory_squirrel.values b r) ∙ λ i. record b {
  rows = append_assoc b.rows (r ∷ []) rows i;
}

remove_or :
    (f g h : Str × Row → Bool) (s : State)
    → ((e : Str × Row) → h e ≡ (f e || g e))
    → remove h s ≡ remove g (remove f s)
remove_or f g h [] same = refl
remove_or f g h (e ∷ s) same = ground (arith, same e, remove_or f g h s same)

-- An assignment of constants to columns.
abbrev IsConstant : (Row → Row) → Type 0
IsConstant g = (k : Str) → ((v : Value) × ((r : Row) → g r k ≡ v)) ⊎ ((r : Row) → g r k ≡ r k)

IsConstant-twice : (g : Row → Row) → IsConstant g → (r : Row) → g (g r) ≡ g r
IsConstant-twice g c r =
    fun_ext λ k. elim (c k) [ inl (v, same) ↦ same (g r) ∙ sym (same r) | inr keeps ↦ keeps (g r) ]

set_all-IsConstant :
    (cols : List Str) (vals : List Value) (b : UpdateBuilder)
    → IsConstant b.assign
    → IsConstant (set_all memory_squirrel cols vals b).assign
set_all-IsConstant [] vals b h = h
set_all-IsConstant (c ∷ cs) [] b h = h
set_all-IsConstant (c ∷ cs) (v ∷ vs) b h =
    set_all-IsConstant cs vs (memory_squirrel.set_column b c v) λ k.
      elim (Bool-cases (str_eq c k)) [ inl e ↦ inl (canonical v, λ r. rw e) | inr e ↦ rw e (h k) ]

modify_or :
    (f g : Row → Bool) (t : Str) (assign : Row → Row) (s : State)
    → ((r : Row) → assign (assign r) ≡ assign r)
    → modify (selects t (λ r. f r || g r)) assign s
      ≡ modify (selects t g) assign (modify (selects t f) assign s)
modify_or f g t assign [] twice = refl
modify_or f g t assign ((n, r) ∷ s) twice = ground (arith, twice r, modify_or f g t assign s twice)

and_left : (a b : Bool) → (a && b) ≡ true → a ≡ true
and_left a b h = ground arith

and_right : (a b : Bool) → (a && b) ≡ true → b ≡ true
and_right a b h = ground arith

or_false : (b : Bool) → (b || false) ≡ b
or_false b = ground arith

-- Equal constants assign alike.
set_all-equal :
    (cols : List Str) (vals vals' : List Value) (b : UpdateBuilder)
    → deep_equal_all vals vals' ≡ true
    → set_all memory_squirrel cols vals b ≡ set_all memory_squirrel cols vals' b
unfolding deep_equal_all
set_all-equal [] vals vals' b h = refl
set_all-equal (c ∷ cs) [] [] b h = refl
set_all-equal (c ∷ cs) [] (w ∷ ws) b h = cc
set_all-equal (c ∷ cs) (v ∷ vs) [] b h = cc
set_all-equal (c ∷ cs) (v ∷ vs) (w ∷ ws) b h =
    let same : canonical v ≡ canonical w = canonical-eq v w (and_left _ _ h) in
    rw same (set_all-equal cs vs ws _ (and_right _ _ h))

-- The rows of an INSERT are appended in order.
insert_run :
    (b : InsertBuilder) (rows : List (List Value)) (s : State)
    → (memory_squirrel.insert_sqlizer (foldl memory_squirrel.values b rows)).run s
      ≡ s ++ map (λ vs. (b.table, row_of b.cols vs)) (b.rows ++ rows)
insert_run b rows s = ap (λ x. (memory_squirrel.insert_sqlizer x).run s) (foldl-values rows b)

remove_same :
    (t : Str) (f g : Row → Bool) (s : State)
    → ((r : Row) → f r ≡ g r)
    → remove (selects t f) s ≡ remove (selects t g) s
remove_same t f g s same = ap (λ h. remove (selects t h) s) (fun_ext same)

modify_same :
    (t : Str) (f g : Row → Bool) (assign : Row → Row) (s : State)
    → ((r : Row) → f r ≡ g r)
    → modify (selects t f) assign s ≡ modify (selects t g) assign s
modify_same t f g assign s same = ap (λ h. modify (selects t h) assign s) (fun_ext same)

and_or : (a b c : Bool) → (a && (b || c)) ≡ (a && b || a && c)
and_or a b c = ground arith

assign_twice :
    (cols : List Str) (vals : List Value) (t : Str)
    → let g = (set_all memory_squirrel cols vals (memory_squirrel.update 0 t)).assign in
      (r : Row) → g (g r) ≡ g r
assign_twice cols vals t = IsConstant-twice _ (set_all-IsConstant cols vals _ λ k. inr (λ r. refl))

-- A state that is got in one step or in two.
chained :
    (g : State → State) {a b t u : State}
    → b ≡ g a
    → some a ≡ some t
    → some (g t) ≡ some u
    → some b ≡ some u
chained g {a} {b} {t} {u} same first later =
    ap some (same ∙ ap g (some-injective a t first)) ∙ later

abbrev updating : List Str → List Value → Str → UpdateBuilder
updating cols vals t = set_all memory_squirrel cols vals (memory_squirrel.update 0 t)

pub memory_database : Database memory_squirrel
memory_database = record {
  State = State;
  exec = λ x s. some (x.run s);
  Fits = λ x. Unit;
  insert_fewer = λ sb t cols r r' rows h. tt;
  insert_cons = λ sb t cols r r' rows s v u fits.
      chained
        (memory_squirrel.insert_sqlizer (
          foldl memory_squirrel.values (record { table = t; cols = cols; rows = r' ∷ [] })
            rows)).run
        (insert_run (record { table = t; cols = cols; rows = r ∷ r' ∷ [] }) rows s
          ∙ sym (append_assoc s ((t, row_of cols r) ∷ []) _)
          ∙ sym (insert_run (record { table = t; cols = cols; rows = r' ∷ [] }) rows _));
  delete_one =
      λ sb t c s. ap some (remove_same t (any_test (c ∷ [])) c.test s (λ r. or_false (c.test r)));
  delete_fewer = λ sb t c c' cs h. tt;
  delete_cons = λ sb t c c' cs s v u fits. chained (remove (selects t (any_test (c' ∷ cs)))) (
      remove_or (selects t c.test) (selects t (any_test (c' ∷ cs))) _ s
        (λ e. and_or (str_eq e.0 t) (c.test e.1) (any_test (c' ∷ cs) e.1)));
  update_one = λ sb t cols vals c s.
      ap some (modify_same _ (any_test (c ∷ [])) c.test _ s (λ r. or_false (c.test r)));
  update_fewer = λ sb t cols vals c c' cs h. tt;
  update_cons = λ sb t cols vals c c' cs s v u fits.
      chained
        (modify (selects (updating cols vals t).table (any_test (c' ∷ cs)))
          (updating cols vals t).assign)
        (modify_or c.test (any_test (c' ∷ cs)) _ _ s (assign_twice cols vals t));
  update_equal = λ sb t cols vals vals' h c s.
      ap (λ b. some ((memory_squirrel.update_sqlizer (memory_squirrel.update_where b c)).run s))
        (set_all-equal cols vals vals' _ h);
}

pub empty : memory_database.State
unfolding memory_database
empty = []

-- A statement of this database always succeeds.
pub run_all : List memory_squirrel.Sqlizer → memory_database.State → memory_database.State
unfolding memory_database
run_all [] s = s
run_all (x ∷ xs) s = run_all xs (x.run s)

pub exec_all-run_all :
    (xs : List memory_squirrel.Sqlizer) (s : memory_database.State)
    → exec_all memory_database xs s ≡ some (run_all xs s)
unfolding memory_database run_all
exec_all-run_all [] s = refl
exec_all-run_all (x ∷ xs) s = exec_all-run_all xs (x.run s)

pub all_fit : (xs : List memory_squirrel.Sqlizer) → All memory_database.Fits xs
unfolding memory_database
all_fit [] = tt
all_fit (x ∷ xs) = (tt, all_fit xs)
