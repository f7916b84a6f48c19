-- ===== src/Logger.antt =====
-- logger.go: a logger made of a function. `Printf` hands over a text that is formatted only when the
-- function asks for it; fmt.Sprintf is the parameter `sprintf`.
use goen.Prelude.{List, [], ◌∷◌, Str}

-- An argument of a logger: a value of any type, or a `stringerFunc`.
pub data LogArg (V : Type 0) : Type 0 where
  value : V → LogArg V
  stringer : (Unit {0} → Str) → LogArg V

-- `Logger`, for effects of the type E.
pub record Logger (V E : Type 0) : Type 0 where
  pub print : List V → E
  pub printf : Str → List V → E

abbrev values : {V : Type 0} → List V → List (LogArg V)
values [] = []
values (v ∷ vs) = value v ∷ values vs

-- `LoggerFunc`
unfoldable pub logger_func :
    {V E : Type 0} → (Str → List V → Str) → (List (LogArg V) → E) → Logger V E
logger_func sprintf fn = record {
  print = λ args. fn (values args);
  printf = λ format args. fn (stringer (λ u. sprintf format args) ∷ []);
}
