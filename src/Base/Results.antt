-- ===== src/Base/Results.antt =====
-- Python's exceptions as values, and the body of one transaction.
use mathlib.Core.Path.{◌≡◌, refl, ap}
use mathlib.Core.Logic.{◌⊎◌, inl, inr}
use mathlib.Core.Bool.{Bool, true, false}
use mathlib.Core.Option.{Option, none, some}
use Prim.Native.String.{String}
use native.Mathlib.Omega.{arith}

-- The exception classes of the modelled files.
pub data Error : Type 0 where
  -- `ValueError`
  value_error : String → Error
  -- `OrderStateError`
  order_state_error : String → Error
  -- `ConcurrentOrderUpdate`
  concurrent_order_update : Error
  -- `ProtectionError`
  protection_error : String → Error
  -- `TypeError`, from a column that is NULL
  type_error : String → Error
  -- `RuntimeError`, `KeyError`, and SQLite's `IntegrityError`
  runtime_error key_error integrity_error : String → Error
  -- `AssertionError`, and `OverflowError` from a float that is not finite
  assertion_error overflow_error : Error
  -- what a broker call raised
  broker_error : String → Error

pub data Result {ℓ} (A : Type ℓ) : Type ℓ where
  err : Error → Result A
  ok : A → Result A

-- A check of a handler, by the condition under which it raises.
abbrev pub raise_if : Bool → Error → Result (Unit {0})
raise_if false _ = ok tt
raise_if true why = err why

-- A check by the condition under which it goes on.
abbrev pub guard : Bool → Error → Result (Unit {0})
guard false why = err why
guard true _ = ok tt

-- A row that must be there.
abbrev pub require : {A : Type 0} → Option A → Error → Result A
require none why = err why
require (some row) _ = ok row

-- One transaction: a raised error discards what was written (`conn.rollback()`, or the
-- connection's context manager), so an error carries no database.
infixl 5 ◌>>=◌
abbrev pub ◌>>=◌ {ℓ κ} : {A : Type ℓ} {B : Type κ} → Result A → (A → Result B) → Result B
◌>>=◌ (err why) _ = err why
◌>>=◌ (ok x) rest = rest x

infixl 5 ◌>>◌
abbrev pub ◌>>◌ {ℓ} : {B : Type ℓ} → Result (Unit {0}) → Result B → Result B
◌>>◌ (err why) _ = err why
◌>>◌ (ok _) rest = rest

-- To split on a result and keep the equation.
pub Result-cases {ℓ} :
    {A : Type ℓ} (r : Result A) → ((why : Error) × (r ≡ err why)) ⊎ ((x : A) × (r ≡ ok x))
Result-cases (err why) = inl (why, refl)
Result-cases (ok x) = inr (x, refl)

-- What a do block that returned has gone through.
module _ {A : Type 0} where
  pub guard-ok :
      (b : Bool) (why : Error) (m : Result A) (x : A)
      → (guard b why >> m) ≡ ok x
      → (b ≡ true) × (m ≡ ok x)
  guard-ok false why m x h = absurd (ground arith)
  guard-ok true why m x h = (refl, h)

  pub raise_if-ok :
      (b : Bool) (why : Error) (m : Result A) (x : A)
      → (raise_if b why >> m) ≡ ok x
      → (b ≡ false) × (m ≡ ok x)
  raise_if-ok true why m x h = absurd (ground arith)
  raise_if-ok false why m x h = (refl, h)

  pub require-ok :
      {B : Type 0} (o : Option B) (why : Error) (f : B → Result A) (x : A)
      → (require o why >>= f) ≡ ok x
      → (b : B) × (o ≡ some b) × (f b ≡ ok x)
  require-ok none why f x h = absurd (ground arith)
  require-ok (some b) why f x h = (b, refl, h)

  pub bind-ok :
      {B : Type 0} (m : Result B) (f : B → Result A) (x : A)
      → (m >>= f) ≡ ok x
      → (b : B) × (m ≡ ok b) × (f b ≡ ok x)
  bind-ok (err why) f x h = absurd (ground arith)
  bind-ok (ok b) f x h = (b, refl, h)

  pub require-run :
      {B : Type 0} (o : Option B) (why : Error) (f : B → Result A) (b : B)
      → o ≡ some b
      → (require o why >>= f) ≡ f b
  require-run o why f b h = ap (λ o. require o why >>= f) h

  pub bind-run : {B : Type 0} (m : Result B) (f : B → Result A) (b : B) → m ≡ ok b → (m >>= f) ≡ f b
  bind-run m f b h = ap (λ m. m >>= f) h

  pub guard-run : (b : Bool) (why : Error) (m : Result A) → b ≡ true → (guard b why >> m) ≡ m
  guard-run b why m h = ap (λ b. guard b why >> m) h
