-- ===== src/Exec.antt =====
-- Methods that mutate an object and may raise: what was written before a raise stays written, so
-- the state comes back beside the error too. `transaction` is `with connection:` of sqlite3.
pub mod Keeps
use db_sanitizer.Base.{Bool, true, false, List, [], ◌∷◌}
use db_sanitizer.Errors.{Error, Result, ok, err}

abbrev pub Exec {ℓ κ} : Type ℓ → Type κ → Type (ℓ ⊔ κ)
Exec S A = S → Result A × S

module _ {ℓ κ} {S : Type ℓ} {A : Type κ} where
  abbrev pub pure : A → Exec S A
  pure a s = (ok a, s)

  abbrev pub raise : Error → Exec S A
  raise e s = (err e, s)

  abbrev pub lift : Result A → Exec S A
  lift r s = (r, s)

  abbrev pub gets : (S → A) → Exec S A
  gets f s = (ok (f s), s)

  -- Commits when the block returns, and rolls every write back when it raises.
  abbrev pub settle : S → Result A × S → Result A × S
  settle s (ok a, s') = (ok a, s')
  settle s (err e, s') = (err e, s)

  unfoldable pub transaction : Exec S A → Exec S A
  transaction m s = settle s (m s)

infixl 5 ◌>>=◌ ◌>>◌
abbrev pub ◌>>=◌ {ℓ κ ν} :
    {S : Type ℓ} {A : Type κ} {B : Type ν} → Exec S A → (A → Exec S B) → Exec S B
◌>>=◌ m f s = let (r, s') = m s in elim r [ ok a ↦ f a s' | err e ↦ (err e, s') ]

abbrev pub ◌>>◌ {ℓ κ ν} : {S : Type ℓ} {A : Type κ} {B : Type ν} → Exec S A → Exec S B → Exec S B
m >> k = m >>= λ _. k

abbrev pub modify {ℓ} : {S : Type ℓ} → (S → S) → Exec S (Unit {0})
modify f s = (ok tt, f s)

abbrev pub raise_if {ℓ} : {S : Type ℓ} → Bool → Error → Exec S (Unit {0})
raise_if true e s = (err e, s)
raise_if false e s = (ok tt, s)

-- `for x in xs: body(x)`
unfoldable pub for_each {ℓ κ} :
    {S : Type ℓ} {A : Type κ} → (A → Exec S (Unit {0})) → List A → Exec S (Unit {0})
for_each body [] s = (ok tt, s)
for_each body (x ∷ xs) s = (body x >> for_each body xs) s
