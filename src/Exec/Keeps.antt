-- ===== src/Exec/Keeps.antt =====
-- `with connection:`, invariants, and the errors of its block.
use db_sanitizer.Base.{◌≡◌, refl}
use db_sanitizer.Errors.{Error, Result, ok, err}
use db_sanitizer.Exec.{Exec, transaction, settle}

module _ {ℓ κ} {S : Type ℓ} {A : Type κ} where
  settle-err : (s : S) (p : Result A × S) (e : Error) → (settle s p).0 ≡ err e → (settle s p).1 ≡ s
  settle-err s (ok a, t) e h = cc
  settle-err s (err f, t) e h = refl

  -- A transaction that raises leaves the state as it was.
  pub transaction-err :
      (m : Exec S A) (s : S) (e : Error) → (transaction m s).0 ≡ err e → (transaction m s).1 ≡ s
  unfolding transaction
  transaction-err m s e h = settle-err s (m s) e h

  settle-ok :
      (s : S) (p : Result A × S) (a : A) → (settle s p).0 ≡ ok a → p ≡ (ok a, (settle s p).1)
  settle-ok s (ok b, t) a h = cc
  settle-ok s (err f, t) a h = cc

  -- A transaction that returns has done what its block does.
  pub transaction-ok :
      (m : Exec S A) (s : S) (a : A)
      → (transaction m s).0 ≡ ok a
      → m s ≡ (ok a, (transaction m s).1)
  unfolding transaction
  transaction-ok m s a h = settle-ok s (m s) a h

module _ {ℓ κ ν} {S : Type ℓ} {A : Type κ} (P : S → Type ν) where
  settle-keeps : (s : S) (p : Result A × S) → P s → P p.1 → P (settle s p).1
  settle-keeps s (ok a, t) h k = k
  settle-keeps s (err f, t) h k = h

  pub transaction-keeps : (m : Exec S A) (s : S) → P s → P (m s).1 → P (transaction m s).1
  unfolding transaction
  transaction-keeps m s h k = settle-keeps s (m s) h k
