-- ===== src/Common/Exec.antt =====
-- Methods that change a session and may raise. What was written before a raise stays written until
-- a rollback, so the state comes back beside the exception too.
use peka_saas.Common.{Bool, true, false, Option, none, some}

pub data Result {ℓ} (E A : Type ℓ) : Type ℓ where
  ok : A → Result E A
  err : E → Result E A

abbrev pub is_ok {ℓ} : {E A : Type ℓ} → Result E A → Bool
is_ok (ok a) = true
is_ok (err e) = false

-- The database as the current transaction sees it, and as it was last committed.
pub record Session {ℓ} (D : Type ℓ) : Type ℓ where
  pub working : D
  pub committed : D

-- A transaction that begins on the committed rows.
abbrev pub begin {ℓ} : {D : Type ℓ} → D → Session D
begin d = record { working = d; committed = d }

abbrev pub Exec {ℓ} : Type ℓ → Type ℓ → Type ℓ → Type ℓ
Exec S E A = S → Result E A × S

module _ {ℓ} {S E A : Type ℓ} where
  abbrev pub pure : A → Exec S E A
  pure a s = (ok a, s)

  abbrev pub raise : E → Exec S E A
  raise e s = (err e, s)

  abbrev pub gets : (S → A) → Exec S E A
  gets f s = (ok (f s), s)

  abbrev pub or_raise : Option A → E → Exec S E A
  or_raise none e = raise e
  or_raise (some a) e = pure a

infixl 5 ◌>>=◌ ◌>>◌
abbrev pub ◌>>=◌ {ℓ} : {S E A B : Type ℓ} → Exec S E A → (A → Exec S E B) → Exec S E B
◌>>=◌ m f s = let (r, t) = m s in elim r [ ok a ↦ f a t | err e ↦ (err e, t) ]

abbrev pub ◌>>◌ {ℓ} : {S E A B : Type ℓ} → Exec S E A → Exec S E B → Exec S E B
m >> k = m >>= λ _. k

abbrev pub modify : {S E : Type 0} → (S → S) → Exec S E (Unit {0})
modify f s = (ok tt, f s)

abbrev pub raise_if : {S E : Type 0} → Bool → E → Exec S E (Unit {0})
raise_if true e s = (err e, s)
raise_if false e s = (ok tt, s)

module _ {D E A : Type 0} where
  abbrev pub query : (D → A) → Exec (Session D) E A
  query f s = (ok (f s.working), s)

module _ {D E : Type 0} where
  -- a change to the rows of the current transaction
  abbrev pub write : (D → D) → Exec (Session D) E (Unit {0})
  write f s = (ok tt, record s { working = f s.working })

  abbrev pub commit : Exec (Session D) E (Unit {0})
  commit s = (ok tt, record s { committed = s.working })

  abbrev pub rollback : Exec (Session D) E (Unit {0})
  rollback s = (ok tt, record s { working = s.committed })
