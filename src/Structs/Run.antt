-- ===== src/Structs/Run.antt =====
-- Functions that may panic, and that call themselves as often as the program's types are nested:
-- `none` means that the fuel for that ran out.
pub mod Settling
use goen.Prelude.{Option, none, some, ◌≡◌, refl, subst, Bool, true, false}
use goen.Go.Succeeding.{IfOk}
use goen.Go.Result.{Result, ok, err, panic}

abbrev pub Run : Type 0 → Type 0
Run A = Option (Result A)

abbrev pub pure : {A : Type 0} → A → Run A
pure a = some (ok a)

abbrev pub fail : {A : Type 0} → Result A → Run A
fail r = some r

infixl 5 ◌>>=◌
abbrev pub ◌>>=◌ : {A B : Type 0} → Run A → (A → Run B) → Run B
none >>= f = none
some (ok a) >>= f = f a
some (err e) >>= f = some (err e)
some (panic p) >>= f = some (panic p)

-- A predicate on what a function returns without an error.
abbrev pub IfDone {κ} : {A : Type 0} → (A → Type κ) → Run A → Type κ
IfDone P none = Unit
IfDone P (some (ok a)) = P a
IfDone P (some (err e)) = Unit
IfDone P (some (panic p)) = Unit

module _ {κ ι} {A B : Type 0} where
  pub IfDone-bind :
      (P : A → Type κ) (Q : B → Type ι) (r : Run A) (f : A → Run B)
      → IfDone P r
      → ((a : A) → P a → IfDone Q (f a))
      → IfDone Q (r >>= f)
  IfDone-bind P Q none f h k = tt
  IfDone-bind P Q (some (ok a)) f h k = k a h
  IfDone-bind P Q (some (err e)) f h k = tt
  IfDone-bind P Q (some (panic p)) f h k = tt

-- What a call returned.
pub IfDone-self : {A : Type 0} (r : Run A) → IfDone (λ a. r ≡ some (ok a)) r
IfDone-self none = tt
IfDone-self (some (ok a)) = refl
IfDone-self (some (err e)) = tt
IfDone-self (some (panic p)) = tt

-- A bind after a call of which nothing is known.
pub IfDone-after {ι} :
    {A B : Type 0} (Q : B → Type ι) (r : Run A) (f : A → Run B)
    → ((a : A) → r ≡ some (ok a) → IfDone Q (f a))
    → IfDone Q (r >>= f)
IfDone-after Q r f k = IfDone-bind (λ a. r ≡ some (ok a)) Q r f (IfDone-self r) k

pub IfDone-done {κ} :
    {A : Type 0} (P : A → Type κ) (r : Run A) (a : A) → IfDone P r → r ≡ some (ok a) → P a
IfDone-done P r a h e = subst (IfDone P) e h

pub IfDone-if {κ} :
    {A : Type 0} (P : A → Type κ) (b : Bool) (r s : Run A)
    → IfDone P r
    → IfDone P s
    → IfDone P (elim b [ false ↦ r | true ↦ s ])
IfDone-if P false r s h k = h
IfDone-if P true r s h k = k

pub IfDone-both {κ ι} :
    {A : Type 0} (P : A → Type κ) (Q : A → Type ι) (r : Run A)
    → IfDone P r
    → IfDone Q r
    → IfDone (λ a. P a × Q a) r
IfDone-both P Q none h k = tt
IfDone-both P Q (some (ok a)) h k = (h, k)
IfDone-both P Q (some (err e)) h k = tt
IfDone-both P Q (some (panic p)) h k = tt

pub IfDone-weaken {κ ι} :
    {A : Type 0} (P : A → Type κ) (Q : A → Type ι) (r : Run A)
    → ((a : A) → P a → Q a)
    → IfDone P r
    → IfDone Q r
IfDone-weaken P Q none f h = tt
IfDone-weaken P Q (some (ok a)) f h = f a h
IfDone-weaken P Q (some (err e)) f h = tt
IfDone-weaken P Q (some (panic p)) f h = tt

pub IfDone-fail {κ} : {A : Type 0} (P : A → Type κ) (r : Result A) → IfOk P r → IfDone P (fail r)
IfDone-fail P (ok a) h = h
IfDone-fail P (err e) h = tt
IfDone-fail P (panic p) h = tt
