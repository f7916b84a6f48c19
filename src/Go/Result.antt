-- ===== src/Go/Result.antt =====
-- A Go function that may return an error or panic, and utils.go's `safeDo`.
use goen.Prelude.{Str, String, codes, ◌++◌}

-- The argument of `panic`: an `error`, or a text (a fixed part and what is appended to it).
pub data Panic : Type 0 where
  error_value : Str → Panic
  message : String → Str → Panic

-- An error is known by its text.
pub data Result {ℓ} (A : Type ℓ) : Type ℓ where
  ok : A → Result A
  err : Str → Result A
  panic : Panic → Result A

infixl 5 ◌>>=◌
abbrev pub ◌>>=◌ {ℓ κ} : {A : Type ℓ} {B : Type κ} → Result A → (A → Result B) → Result B
ok a >>= f = f a
err e >>= f = err e
panic p >>= f = panic p

-- The text of the error that a recovered panic becomes.
abbrev pub panic_text : Panic → Str
panic_text (error_value e) = e
panic_text (message m s) = codes "PANIC=" ++ codes m ++ s

-- A panic of the function is recovered into an error.
unfoldable pub safe_do {ℓ} : {A : Type ℓ} → Result A → Result A
safe_do (ok a) = ok a
safe_do (err e) = err e
safe_do (panic p) = err (panic_text p)
