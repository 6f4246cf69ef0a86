-- ===== src/Ledger/Runs.antt =====
-- Runs of the order ledger: any sequence of its operations, each one transaction
-- (src/application/orders/repository.py).
use hanstock_svc.Base.{◌≡◌, refl, ℕ, String, Option, List, [], ◌∷◌, ℤ, Float, Result, ok, err}
use hanstock_svc.Ledger.Records.{PyText, UnifiedOrderStatus, LedgerOrder, LedgerDb}
use hanstock_svc.Ledger.Moves.{create_order, transition_order, bind_broker_result, record_event}
use hanstock_svc.Ledger.Intents.{OrderIntent}
use hanstock_svc.Ledger.Costs.{Raw}
use hanstock_svc.Ledger.Snapshots.{reconcile_snapshot}
use hanstock_svc.Ledger.Alignment.{Aligned, apply_latest_issues}

-- A call of one operation.
pub data LedgerCall (F : Type 0) : Type 0 where
  call_create : OrderIntent F → UnifiedOrderStatus → LedgerCall F
  call_transition :
      ℕ → UnifiedOrderStatus → UnifiedOrderStatus → String → String → String → LedgerCall F
  call_bind : ℕ → String → String → String → LedgerCall F
  call_record : ℕ → String → String → String → String → LedgerCall F
  call_reconcile : ℕ → String → ℤ → F → String → String → Raw F → LedgerCall F
  call_align : String → Option String → Option String → LedgerCall F

-- What a transaction leaves: an error writes nothing.
abbrev pub after : {A F : Type 0} → LedgerDb F → Result (A × LedgerDb F) → LedgerDb F
after db (ok (_, db')) = db'
after db (err _) = db

module _ {F : Type 0} ⦃fl : Float F⦄ ⦃tx : PyText⦄ where
  -- The database after the call at a time, whether it returned or raised.
  unfoldable pub run_ledger_call : LedgerDb F → String → LedgerCall F → LedgerDb F
  run_ledger_call db now (call_create i status) = after db (create_order i status now db)
  run_ledger_call db now (call_transition oid expected target actor reason payload) =
      after db (transition_order oid expected target actor reason payload now db)
  run_ledger_call db now (call_bind oid number date message) =
      after db (bind_broker_result oid number date message now db)
  run_ledger_call db now (call_record oid kind actor reason payload) =
      after db (record_event oid kind actor reason payload now db)
  run_ledger_call db now (call_reconcile oid word qty average number date raw) =
      after db (reconcile_snapshot oid word qty average number date raw now db)
  run_ledger_call db now (call_align actor account market) =
      after db (apply_latest_issues actor account market now db)

  unfoldable pub run_ledger : LedgerDb F → List (String × LedgerCall F) → LedgerDb F
  run_ledger db [] = db
  run_ledger db ((now, x) ∷ xs) = run_ledger (run_ledger_call db now x) xs

-- What holds between the ledgers before and after every operation that returns.
pub record LedgerLaw {F : Type 0} ⦃fl : Float F⦄ ⦃tx : PyText⦄
    (R : LedgerDb F → LedgerDb F → Type 0) : Type 0 where
  pub stay : (db : LedgerDb F) → R db db
  pub chain : (a b c : LedgerDb F) → R a b → R b c → R a c
  pub create :
      (i : OrderIntent F) (status : UnifiedOrderStatus) (now : String) (db db' : LedgerDb F)
      → (x : ℕ × LedgerOrder F) → create_order i status now db ≡ ok (x, db')
      → R db db'
  pub transition :
      (oid : ℕ) (expected target : UnifiedOrderStatus) (actor reason payload now : String)
      (db db' : LedgerDb F) (x : LedgerOrder F)
      → transition_order oid expected target actor reason payload now db ≡ ok (x, db')
      → R db db'
  pub bind :
      (oid : ℕ) (number date message now : String) (db db' : LedgerDb F)
      → bind_broker_result oid number date message now db ≡ ok (tt, db')
      → R db db'
  pub note :
      (oid : ℕ) (kind actor reason payload now : String) (db db' : LedgerDb F)
      → record_event oid kind actor reason payload now db ≡ ok (tt, db')
      → R db db'
  pub reconcile :
      (oid : ℕ) (word : String) (qty : ℤ) (average : F) (number date : String) (raw : Raw F)
      (now : String) (db db' : LedgerDb F) (x : LedgerOrder F)
      → reconcile_snapshot oid word qty average number date raw now db ≡ ok (x, db')
      → R db db'
  pub align :
      (actor : String) (account market : Option String) (now : String) (db db' : LedgerDb F)
      (x : List Aligned)
      → apply_latest_issues actor account market now db ≡ ok (x, db')
      → R db db'

module _ {F : Type 0} ⦃fl : Float F⦄ ⦃tx : PyText⦄ {R : LedgerDb F → LedgerDb F → Type 0}
    (law : LedgerLaw R) where
  after-law :
      {A : Type 0} (db : LedgerDb F) (r : Result (A × LedgerDb F))
      → ((x : A) (db' : LedgerDb F) → r ≡ ok (x, db') → R db db')
      → R db (after db r)
  after-law db (ok (x, db')) h = h x db' refl
  after-law db (err why) h = law.stay db

  run_ledger_call-law :
      (db : LedgerDb F) (now : String) (x : LedgerCall F) → R db (run_ledger_call db now x)
  unfolding run_ledger_call
  run_ledger_call-law db now (call_create i status) =
      after-law db (create_order i status now db) (λ x db' h. law.create i status now db db' x h)
  run_ledger_call-law db now (call_transition oid expected target actor reason payload) =
      after-law db (transition_order oid expected target actor reason payload now db)
        (λ x db' h. law.transition oid expected target actor reason payload now db db' x h)
  run_ledger_call-law db now (call_bind oid number date message) =
      after-law db (bind_broker_result oid number date message now db)
        (λ x db' h. law.bind oid number date message now db db' h)
  run_ledger_call-law db now (call_record oid kind actor reason payload) =
      after-law db (record_event oid kind actor reason payload now db)
        (λ x db' h. law.note oid kind actor reason payload now db db' h)
  run_ledger_call-law db now (call_reconcile oid word qty average number date raw) =
      after-law db (reconcile_snapshot oid word qty average number date raw now db)
        (λ x db' h. law.reconcile oid word qty average number date raw now db db' x h)
  run_ledger_call-law db now (call_align actor account market) =
      after-law db (apply_latest_issues actor account market now db)
        (λ x db' h. law.align actor account market now db db' x h)

  -- A run keeps what each operation keeps.
  pub run_ledger-law :
      (db : LedgerDb F) (xs : List (String × LedgerCall F)) → R db (run_ledger db xs)
  unfolding run_ledger
  run_ledger-law db [] = law.stay db
  run_ledger-law db ((now, x) ∷ xs) =
      law.chain db (run_ledger_call db now x) _ (run_ledger_call-law db now x)
        (run_ledger-law (run_ledger_call db now x) xs)
