-- ===== src/OrderState/Final.antt =====
-- What no run of the order service undoes: the end of an order, and the claim of its submission.
use hanstock_svc.Base.{ℕ, ◌≡◌, refl, Bool, true, false, some, List, Float, arith, get_row}
use hanstock_svc.Schema.{
  Db, Order, OrderStatus, intent_created, risk_approved, approval_queued, approved, filled,
  rejected, expired, canceled,
}
use hanstock_svc.Execution.{accepts_fill}
use hanstock_svc.OrderState.Transitions.{Clock, is_terminal, allowed}
use hanstock_svc.OrderState.Broker.{Service}
use hanstock_svc.OrderState.Rows.{RowLaw}
use hanstock_svc.OrderState.Runs.{Call, run_calls, run_calls-RowsKept}

allowed_live : (a b : OrderStatus) → allowed a b ≡ true → is_terminal a ≡ false
unfolding allowed
allowed_live filled b h = ground arith
allowed_live rejected b h = ground arith
allowed_live expired b h = ground arith
allowed_live canceled b h = ground arith
allowed_live _ b h = refl

accepts_fill_live : (a : OrderStatus) → accepts_fill a ≡ true → is_terminal a ≡ false
accepts_fill_live a h = ground arith

-- Past approval: claimed for submission, or ended.
abbrev pub is_claimed : OrderStatus → Bool
is_claimed intent_created = false
is_claimed risk_approved = false
is_claimed approval_queued = false
is_claimed approved = false
is_claimed _ = true

allowed_claimed :
    (a b : OrderStatus) → allowed a b ≡ true → is_claimed a ≡ true → is_claimed b ≡ true
unfolding allowed
allowed_claimed a intent_created h c = ground arith
allowed_claimed a risk_approved h c = ground arith
allowed_claimed a approval_queued h c = ground arith
allowed_claimed a approved h c = ground arith
allowed_claimed a _ h c = refl

module _ {F : Type 0} ⦃fl : Float F⦄ where
  Ended : Order F → Order F → Type 0
  Ended o o' = is_terminal o.status ≡ true → o' ≡ o

  Claimed : Order F → Order F → Type 0
  Claimed o o' = is_claimed o.status ≡ true → is_claimed o'.status ≡ true

  Ended-RowLaw : RowLaw Ended
  unfolding Ended
  Ended-RowLaw = record {
    stay = λ o t. refl;
    chain = λ o p q x y t. let same = x t in ground (arith, y, same);
    move = λ o target bid e now h t. absurd (ground (arith, allowed_live o.status target h));
    fill = λ o qty average now h t. absurd (ground (arith, accepts_fill_live o.status h));
  }

  Claimed-RowLaw : RowLaw Claimed
  unfolding Claimed
  Claimed-RowLaw = record {
    stay = λ o t. t;
    chain = λ o p q x y t. y (x t);
    move = λ o target bid e now h t. allowed_claimed o.status target h t;
    fill = λ o qty average now h t. ground arith;
  }

  -- An order that is filled, rejected, expired or canceled is final: whatever methods of the
  -- service run afterwards, on whatever order, in whatever sequence, with whatever brokers, and
  -- whichever of them raise, its row is exactly the one it ended with.
  pub run_calls-terminal :
      (s : Service F) (db : Db F) (xs : List (Clock × Call F)) (oid : ℕ) (o : Order F)
      → get_row oid db.orders ≡ some o
      → is_terminal o.status ≡ true
      → get_row oid (run_calls s db xs).orders ≡ some o
  unfolding Ended
  run_calls-terminal s db xs oid o h t =
      let (o', here, same) = (run_calls-RowsKept Ended-RowLaw s db xs).kept oid o h in
      ground (arith, here, same t)

  -- An order past its approval is never approved again by a run.
  pub run_calls-claimed :
      (s : Service F) (db : Db F) (xs : List (Clock × Call F)) (oid : ℕ) (o : Order F)
      → get_row oid db.orders ≡ some o
      → is_claimed o.status ≡ true
      → (o' : Order F) × (get_row oid (run_calls s db xs).orders ≡ some o')
        × (is_claimed o'.status ≡ true)
  unfolding Claimed
  run_calls-claimed s db xs oid o h t =
      let (o', here, same) = (run_calls-RowsKept Claimed-RowLaw s db xs).kept oid o h in
      (o', here, same t)
