-- ===== src/Base/Keeps.antt =====
-- A relation between the database before and after that a method keeps, whether it returns or
-- raises: one rule for each way to build a method.
use hanstock_svc.Base.Results.{Error, Result, ok, err}
use hanstock_svc.Base.Actions.{
  Action, pure, raise, transaction, commit_or_rollback, continue, check_not, ◌>>=◌, ◌>>◌,
}
use hanstock_svc.Base.Tests.{if◌then◌else◌}
use mathlib.Core.Path.{◌≡◌, refl}
use mathlib.Core.Bool.{Bool, true, false}

pub record IsPreorder {S : Type 0} (R : S → S → Type 0) : Type 0 where
  pub stay : (s : S) → R s s
  pub chain : (s t u : S) → R s t → R t u → R s u

pub record Keeps {S A : Type 0} (R : S → S → Type 0) (m : Action S A) : Type 0 where
  pub at : (s : S) → R s (m s).1

module _ {S : Type 0} {R : S → S → Type 0} (o : IsPreorder R) where
  module _ {A : Type 0} where
    pub Keeps-pure : (a : A) → Keeps R (pure a)
    Keeps-pure a = record { at = λ s. o.stay s }

    pub Keeps-raise : (e : Error) → Keeps R (raise {A = A} e)
    Keeps-raise e = record { at = λ s. o.stay s }

    -- A method that only reads.
    pub Keeps-read : (f : S → Result A) → Keeps R (λ s. (f s, s))
    Keeps-read f = record { at = λ s. o.stay s }

    pub Keeps-if :
        (b : Bool) (m n : Action S A)
        → (b ≡ true → Keeps R m)
        → (b ≡ false → Keeps R n)
        → Keeps R (if b then m else n)
    Keeps-if true m n km kn = km refl
    Keeps-if false m n km kn = kn refl

    committed :
        (s : S) (r : Result (A × S))
        → ((a : A) (s' : S) → r ≡ ok (a, s') → R s s')
        → R s (commit_or_rollback s r).1
    committed s (ok (a, s')) h = h a s' refl
    committed s (err e) h = o.stay s

    -- A transaction is judged by what it commits.
    pub Keeps-transaction :
        (t : S → Result (A × S))
        → ((s : S) (a : A) (s' : S) → t s ≡ ok (a, s') → R s s')
        → Keeps R (transaction t)
    Keeps-transaction t h = record { at = λ s. committed s (t s) (h s) }

  pub Keeps-check : (b : Bool) (e : Error) → Keeps R (check_not b e)
  Keeps-check true e = record { at = λ s. o.stay s }
  Keeps-check false e = record { at = λ s. o.stay s }

  module _ {A B : Type 0} where
    continued :
        (s : S) (r : Result A) (s' : S) (f : A → Action S B)
        → R s s'
        → ((a : A) → r ≡ ok a → R s' (f a s').1)
        → R s (continue r s' f).1
    continued s (ok a) s' f h k = o.chain s s' (f a s').1 h (k a refl)
    continued s (err e) s' f h k = h

    pub Keeps-bind :
        (m : Action S A) (f : A → Action S B)
        → Keeps R m
        → ((a : A) → Keeps R (f a))
        → Keeps R (m >>= f)
    Keeps-bind m f km kf = record {
      at = λ s. continued s (m s).0 (m s).1 f (km.at s) (λ a _. (kf a).at (m s).1);
    }

    pub Keeps-then : (m : Action S A) (n : Action S B) → Keeps R m → Keeps R n → Keeps R (m >> n)
    Keeps-then m n km kn = Keeps-bind m (λ _. n) km (λ _. kn)

  module _ {A : Type 0} where
    -- What stands behind a check may use that it passed.
    pub Keeps-check_then :
        (b : Bool) (e : Error) (m : Action S A)
        → (b ≡ false → Keeps R m)
        → Keeps R (check_not b e >> m)
    Keeps-check_then true e m h = record { at = λ s. o.stay s }
    Keeps-check_then false e m h = record { at = λ s. (h refl).at s }

pub ruleset keeps_rules =
    (Keeps-pure, Keeps-raise, Keeps-read, Keeps-if, Keeps-check, Keeps-bind, Keeps-then)
