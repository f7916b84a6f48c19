-- ===== src/Go/Succeeding.antt =====
-- Predicates on what Go functions return, for the proofs about chains of calls.
use goen.Prelude.{◌≡◌, refl, subst, Bool, true, false, if◌then◌else◌}
use goen.Go.Result.{Result, ok, err, panic, ◌>>=◌}

-- A predicate on what a function returns without an error.
abbrev pub IfOk {ℓ κ} : {A : Type ℓ} → (A → Type κ) → Result A → Type κ
IfOk P (ok a) = P a
IfOk P (err e) = Unit
IfOk P (panic p) = Unit

module _ {ℓ κ ι} {A : Type ℓ} {B : Type κ} where
  pub IfOk-bind :
      (P : A → Type ι) (Q : B → Type ι) (r : Result A) (f : A → Result B)
      → IfOk P r
      → ((a : A) → P a → IfOk Q (f a))
      → IfOk Q (r >>= f)
  IfOk-bind P Q (ok a) f h k = k a h
  IfOk-bind P Q (err e) f h k = tt
  IfOk-bind P Q (panic p) f h k = tt

pub IfOk-any {ℓ} : {A : Type ℓ} (r : Result A) → IfOk (λ a. Unit {0}) r
IfOk-any (ok a) = tt
IfOk-any (err e) = tt
IfOk-any (panic p) = tt

pub IfOk-ok {ℓ κ} : {A : Type ℓ} (P : A → Type κ) (r : Result A) (a : A) → IfOk P r → r ≡ ok a → P a
IfOk-ok P r a h e = subst (IfOk P) e h

-- What a call returned.
pub IfOk-self {ℓ} : {A : Type ℓ} (r : Result A) → IfOk (λ a. r ≡ ok a) r
IfOk-self (ok a) = refl
IfOk-self (err e) = tt
IfOk-self (panic p) = tt

pub IfOk-if {ℓ κ} :
    {A : Type ℓ} (P : A → Type κ) (b : Bool) (r s : Result A)
    → IfOk P r
    → IfOk P s
    → IfOk P (if b then r else s)
IfOk-if P true r s h k = h
IfOk-if P false r s h k = k

pub IfOk-weaken {ℓ κ ι} :
    {A : Type ℓ} (P : A → Type κ) (Q : A → Type ι) (r : Result A)
    → ((a : A) → P a → Q a)
    → IfOk P r
    → IfOk Q r
IfOk-weaken P Q (ok a) f h = f a h
IfOk-weaken P Q (err e) f h = tt
IfOk-weaken P Q (panic p) f h = tt
