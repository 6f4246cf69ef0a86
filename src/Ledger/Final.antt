-- ===== src/Ledger/Final.antt =====
-- What no run of the ledger undoes: an order's end, its fills, its identity and its submission
-- (src/application/orders/models.py, src/application/orders/repository.py).
use hanstock_svc.Base.{
  ℕ, String, ◌≡◌, refl, sym, ap, ◌∙◌, ◌||◌, ◌≤◌, Bool, true, false, some, List, Float, Bool-cases,
  inl, inr, arith, get_row,
}
use hanstock_svc.Ledger.Records.{
  PyText, UnifiedOrderStatus, same_unified, created, risk_approved, approval_pending, approved,
  filled, canceled, rejected, expired, LedgerOrder, LedgerDb,
}
use hanstock_svc.Ledger.Statuses.{allows, is_completed}
use hanstock_svc.Ledger.SnapshotSteps.{MaySettle}
use hanstock_svc.Ledger.Runs.{LedgerCall, run_ledger}
use hanstock_svc.Ledger.Rows.{LedgerRowLaw, run_ledger-LedgerRows}

allows-completed : (a b : UnifiedOrderStatus) → allows a b ≡ true → is_completed a ≡ false
unfolding allows
allows-completed filled b h = ground arith
allows-completed rejected b h = ground arith
allows-completed expired b h = ground arith
allows-completed canceled b h = ground arith
allows-completed _ b h = refl

-- Before the claim for submission.
abbrev pub is_unsent : UnifiedOrderStatus → Bool
is_unsent created = true
is_unsent risk_approved = true
is_unsent approval_pending = true
is_unsent approved = true
is_unsent _ = false

allows-unsent :
    (a b : UnifiedOrderStatus) → allows a b ≡ true → is_unsent a ≡ false → is_unsent b ≡ false
unfolding allows
allows-unsent a created h c = ground arith
allows-unsent a risk_approved h c = ground arith
allows-unsent a approval_pending h c = ground arith
allows-unsent a approved h c = ground arith
allows-unsent a _ h c = refl

pub same_unified→eq : (a b : UnifiedOrderStatus) → same_unified a b ≡ true → a ≡ b
same_unified→eq a b h = ground arith

module _ {F : Type 0} ⦃fl : Float F⦄ where
  may-completed :
      (o : LedgerOrder F) (n : ℕ) (status : UnifiedOrderStatus)
      → MaySettle o n status
      → is_completed o.status ≡ true
      → o.status ≡ status
  may-completed o n status may t = elim (Bool-cases (same_unified o.status status)) [
    | inl same ↦ same_unified→eq o.status status same
    | inr other ↦
        let legal : (same_unified o.status status || allows o.status status) ≡ true = may.legal in
        let moves : allows o.status status ≡ true = ground arith in
        absurd (ground (arith, allows-completed o.status status moves))
  ]

  -- The end of an order, with its fills.
  pub record StaysEnded (o o' : LedgerOrder F) : Type 0 where
    pub ended : is_completed o.status ≡ true → o'.status ≡ o.status

  StaysEnded-law : LedgerRowLaw StaysEnded
  StaysEnded-law = record {
    stay = λ o. record { ended = λ t. refl };
    chain = λ o p q x y. record {
      ended = λ t. let first = x.ended t in y.ended (ap is_completed first ∙ t) ∙ first;
    };
    move = λ o target now h. record {
      ended = λ t. absurd (ground (arith, allows-completed o.status target h));
    };
    bind = λ o number date message now. record { ended = λ t. refl };
    sync = λ o n status average number date now low high may. record {
      ended = λ t. sym (may-completed o n status may t);
    };
  }

  -- What is fixed at creation, and what only grows.
  pub record Grows (o o' : LedgerOrder F) : Type 0 where
    pub client_order_key : o'.client_order_key ≡ o.client_order_key
    pub account_key : o'.account_key ≡ o.account_key
    pub market : o'.market ≡ o.market
    pub symbol : o'.symbol ≡ o.symbol
    pub side : o'.side ≡ o.side
    pub requested_qty : o'.requested_qty ≡ o.requested_qty
    pub filled_qty : o.filled_qty ≤ o'.filled_qty
    pub within : o.filled_qty ≤ o.requested_qty → o'.filled_qty ≤ o'.requested_qty
    pub version : o.version ≤ o'.version

  Grows-law : LedgerRowLaw Grows
  Grows-law = record {
    stay = λ o. ground arith;
    chain = λ o p q x y. record {
      client_order_key = y.client_order_key ∙ x.client_order_key;
      account_key = y.account_key ∙ x.account_key;
      market = y.market ∙ x.market;
      symbol = y.symbol ∙ x.symbol;
      side = y.side ∙ x.side;
      requested_qty = y.requested_qty ∙ x.requested_qty;
      filled_qty = ground (arith, x.filled_qty, y.filled_qty);
      within = λ h. y.within (x.within h);
      version = ground (arith, x.version, y.version);
    };
    move = λ o target now h. ground arith;
    bind = λ o number date message now. ground arith;
    sync = λ o n status average number date now low high may. ground arith;
  }

  pub record StaysSent (o o' : LedgerOrder F) : Type 0 where
    pub sent : is_unsent o.status ≡ false → is_unsent o'.status ≡ false

  StaysSent-law : LedgerRowLaw StaysSent
  StaysSent-law = record {
    stay = λ o. record { sent = λ t. t };
    chain = λ o p q x y. record { sent = λ t. y.sent (x.sent t) };
    move = λ o target now h. record { sent = allows-unsent o.status target h };
    bind = λ o number date message now. record { sent = λ t. t };
    sync = λ o n status average number date now low high may. record {
      sent = λ t. elim (Bool-cases (same_unified o.status status)) [
        | inl same ↦ ap is_unsent (sym (same_unified→eq o.status status same)) ∙ t
        | inr other ↦
            let legal : (same_unified o.status status || allows o.status status) ≡ true =
              may.legal in
            allows-unsent o.status status (ground arith) t
      ];
    };
  }

  module _ ⦃tx : PyText⦄ where
    -- Whatever operations run, in whatever order, with whatever reports of the broker, and whichever
    -- of them raise: an order that is filled, canceled, rejected or expired is there afterwards with
    -- that status.
    pub run_ledger-ended :
        (db : LedgerDb F) (xs : List (String × LedgerCall F)) (oid : ℕ) (o : LedgerOrder F)
        → get_row oid db.orders ≡ some o
        → is_completed o.status ≡ true
        → (o' : LedgerOrder F) × (get_row oid (run_ledger db xs).orders ≡ some o')
          × (o'.status ≡ o.status)
    run_ledger-ended db xs oid o h t =
        let (o', here, same) = (run_ledger-LedgerRows StaysEnded-law db xs).kept oid o h in
        (o', here, same.ended t)

    -- Over any run an order keeps its key, account, market, symbol, side and requested quantity; its
    -- filled quantity and its version do not fall; and an order that is not filled beyond its
    -- request never gets so.
    pub run_ledger-Grows :
        (db : LedgerDb F) (xs : List (String × LedgerCall F)) (oid : ℕ) (o : LedgerOrder F)
        → get_row oid db.orders ≡ some o
        → (o' : LedgerOrder F) × (get_row oid (run_ledger db xs).orders ≡ some o') × Grows o o'
    run_ledger-Grows db xs oid o h = (run_ledger-LedgerRows Grows-law db xs).kept oid o h

    -- An order that was claimed for submission, or has ended, is never back at `created`,
    -- `risk_approved`, `approval_pending` or `approved` after any run.
    pub run_ledger-sent :
        (db : LedgerDb F) (xs : List (String × LedgerCall F)) (oid : ℕ) (o : LedgerOrder F)
        → get_row oid db.orders ≡ some o
        → is_unsent o.status ≡ false
        → (o' : LedgerOrder F) × (get_row oid (run_ledger db xs).orders ≡ some o')
          × (is_unsent o'.status ≡ false)
    run_ledger-sent db xs oid o h t =
        let (o', here, same) = (run_ledger-LedgerRows StaysSent-law db xs).kept oid o h in
        (o', here, same.sent t)
