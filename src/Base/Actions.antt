-- ===== src/Base/Actions.antt =====
-- Code that runs several transactions against one database.
use mathlib.Core.Bool.{Bool, true, false}
use hanstock_svc.Base.Results.{Error, Result, ok, err}

-- A method over a database: what earlier transactions committed stays, also when it raises.
abbrev pub Action : Type 0 → Type 0 → Type 0
Action S A = S → Result A × S

module _ {S A : Type 0} where
  abbrev pub pure : A → Action S A
  pure a s = (ok a, s)

  abbrev pub raise : Error → Action S A
  raise e s = (err e, s)

  -- A transaction commits, or leaves the database as it was.
  abbrev pub commit_or_rollback : S → Result (A × S) → Result A × S
  commit_or_rollback s (ok (a, s')) = (ok a, s')
  commit_or_rollback s (err e) = (err e, s)

  abbrev pub transaction : (S → Result (A × S)) → Action S A
  transaction t s = commit_or_rollback s (t s)

module _ {S A B : Type 0} where
  abbrev pub continue : Result A → S → (A → Action S B) → Result B × S
  continue (ok a) s f = f a s
  continue (err e) s f = (err e, s)

  infixl 5 ◌>>=◌ ◌>>◌
  abbrev pub ◌>>=◌ : Action S A → (A → Action S B) → Action S B
  ◌>>=◌ m f s = let (r, s') = m s in continue r s' f

  abbrev pub ◌>>◌ : Action S A → Action S B → Action S B
  m >> k = m >>= λ _. k

abbrev pub check_not : {S : Type 0} → Bool → Error → Action S (Unit {0})
check_not true e s = (err e, s)
check_not false e s = (ok tt, s)
