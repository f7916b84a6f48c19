-- ===== src/Structs/Run/Settling.antt =====
-- Functions on fuel that give one result from some fuel on.
use goen.Prelude.{ℕ, zero, suc, ◌+◌, ◌≤◌, Bool, true, false, some, ◌≡◌, refl, arith}
use goen.Go.Result.{Result, ok, err, panic}
use goen.Structs.Run.{Run, fail, ◌>>=◌}

-- The result, and the fuel from which on it is given.
abbrev pub Settles : {A : Type 0} → (ℕ → Run A) → Type 0
Settles {A} r = (n : ℕ) × (k : Result A) × ((m : ℕ) → n ≤ m → r m ≡ some k)

pub Settles-some : {A : Type 0} (k : Result A) → Settles (λ m. some k)
Settles-some k = (0, k, λ m h. refl)

-- A function that spends one unit of fuel.
pub Settles-suc : {A : Type 0} (r : ℕ → Run A) → Settles (λ m. r (suc m)) → Settles r
Settles-suc r (n, k, h) = (suc n, k, stable)
  where
    stable : (m : ℕ) → suc n ≤ m → r m ≡ some k
    stable zero le = ground arith
    stable (suc m) le = h m (omega arith)

pub Settles-shift : {A : Type 0} (r : ℕ → Run A) → Settles r → Settles (λ m. r (suc m))
Settles-shift r (n, k, h) = (n, k, λ m le. h (suc m) (omega arith))

module _ {A B : Type 0} where
  settle :
      (r : ℕ → Run A) (f : ℕ → A → Run B) (n : ℕ) (k : Result A)
      → ((m : ℕ) → n ≤ m → r m ≡ some k)
      → ((a : A) (m : ℕ) → r m ≡ some (ok a) → Settles (λ m. f m a))
      → Settles (λ m. r m >>= f m)
  settle r f n (ok a) h g =
      let (n', k', h') = g a n (h n (omega arith)) in
      (n + n', k', λ m le. rw (h m (omega arith)) (h' m (omega arith)))
  settle r f n (err e) h g = (n, err e, λ m le. rw (h m le) refl)
  settle r f n (panic p) h g = (n, panic p, λ m le. rw (h m le) refl)

  pub Settles-bind :
      (r : ℕ → Run A) (f : ℕ → A → Run B)
      → Settles r
      → ((a : A) (m : ℕ) → r m ≡ some (ok a) → Settles (λ m. f m a))
      → Settles (λ m. r m >>= f m)
  Settles-bind r f (n, k, h) g = settle r f n k h g

  pub Settles-fail :
      (r : Result A) (f : ℕ → A → Run B)
      → ((a : A) → r ≡ ok a → Settles (λ m. f m a))
      → Settles (λ m. fail r >>= f m)
  Settles-fail (ok a) f g = g a refl
  Settles-fail (err e) f g = Settles-some (err e)
  Settles-fail (panic p) f g = Settles-some (panic p)

pub Settles-if :
    {A : Type 0} (b : Bool) (r s : ℕ → Run A)
    → Settles r
    → Settles s
    → Settles (λ m. elim b [ false ↦ r m | true ↦ s m ])
Settles-if false r s h k = h
Settles-if true r s h k = k
