-- ===== src/Base/Inversion.antt =====
-- What a method that returned has gone through.
use mathlib.Core.Path.{◌≡◌, refl}
use mathlib.Core.Bool.{Bool, true, false}
use native.Mathlib.Omega.{arith}
use hanstock_svc.Base.Results.{Error, Result, ok, err}
use hanstock_svc.Base.Actions.{
  Action, transaction, commit_or_rollback, continue, check_not, ◌>>=◌, ◌>>◌,
}

module _ {S A B : Type 0} where
  continue-ok :
      (x : Result A × S) (f : A → Action S B) (b : B) (t : S)
      → continue x.0 x.1 f ≡ (ok b, t)
      → (a : A) × (u : S) × (x ≡ (ok a, u)) × (f a u ≡ (ok b, t))
  continue-ok (ok a, u) f b t h = (a, u, refl, h)
  continue-ok (err e, u) f b t h = absurd (ground arith)

  -- A sequence returned: so did its first part, and the second part after it.
  pub bind-ok :
      (m : Action S A) (f : A → Action S B) (s : S) (b : B) (t : S)
      → (m >>= f) s ≡ (ok b, t)
      → (a : A) × (u : S) × (m s ≡ (ok a, u)) × (f a u ≡ (ok b, t))
  bind-ok m f s b t h = continue-ok (m s) f b t h

module _ {S A : Type 0} where
  committed-ok :
      (s : S) (r : Result (A × S)) (a : A) (u : S)
      → commit_or_rollback s r ≡ (ok a, u)
      → r ≡ ok (a, u)
  committed-ok s (ok (x, v)) a u h = ground arith
  committed-ok s (err e) a u h = absurd (ground arith)

  pub transaction-ok :
      (t : S → Result (A × S)) (s : S) (a : A) (u : S)
      → transaction t s ≡ (ok a, u)
      → t s ≡ ok (a, u)
  transaction-ok t s a u h = committed-ok s (t s) a u h

  -- A check that was passed changed nothing.
  pub check-ok :
      (b : Bool) (e : Error) (m : Action S A) (s : S) (a : A) (t : S)
      → (check_not b e >> m) s ≡ (ok a, t)
      → (b ≡ false) × (m s ≡ (ok a, t))
  check-ok true e m s a t h = absurd (ground arith)
  check-ok false e m s a t h = (refl, h)

pub check-passed :
    {S : Type 0} (b : Bool) (e : Error) (s t : S)
    → check_not b e s ≡ (ok tt, t)
    → (b ≡ false) × (t ≡ s)
check-passed true e s t h = absurd (ground arith)
check-passed false e s t h = (refl, ground arith)
