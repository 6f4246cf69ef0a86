-- ===== src/OrderState/Protecting.antt =====
-- Protecting a fill keeps the books (src/strategy/autonomy/order_state.py).
use hanstock_svc.Base.{
  ℕ, String, ◌≡◌, refl, sym, subst, Bool, true, false, Option, none, some, ℤ, Float, Result, ok,
  err,
}
use hanstock_svc.Base.Keeps.{Keeps, keeps_rules}
use hanstock_svc.Schema.{Db, OrderAction, buy, sell}
use hanstock_svc.Protection.{ProtectionBroker}
use hanstock_svc.Risk.{Protected}
use hanstock_svc.Protection.Frame.{
  SameBooks, SameBooks-IsPreorder, Keeps-request_entry_fill, Keeps-submit_requested,
  Keeps-reconcile_after_sell_fill,
}
use hanstock_svc.OrderState.Fills.{
  require_full_protection, protect_buy, protect_sell, protect_side, needs_recovery, protect_fill,
}

module _ {F : Type 0} ⦃fl : Float F⦄ where
  Keeps-require_full_protection :
      (found : Option (Protected F)) (qty : ℕ) (flat : Bool)
      → Keeps (SameBooks {F = F}) (require_full_protection found qty flat)
  unfolding require_full_protection
  Keeps-require_full_protection none qty flat = search (keeps_rules, SameBooks-IsPreorder)
  Keeps-require_full_protection (some g) qty true = search (keeps_rules, SameBooks-IsPreorder)
  Keeps-require_full_protection (some g) qty false = search (keeps_rules, SameBooks-IsPreorder)

  Keeps-protect_buy :
      (pid : ℕ) (qty : ℤ) (broker : Option (ProtectionBroker F)) (now : String)
      → Keeps (SameBooks {F = F}) (protect_buy pid qty broker now)
  unfolding protect_buy
  Keeps-protect_buy pid qty none now = search (keeps_rules, SameBooks-IsPreorder)
  Keeps-protect_buy pid qty (some broker) now =
      search
        (
          keeps_rules, SameBooks-IsPreorder, Keeps-request_entry_fill, Keeps-submit_requested,
          Keeps-require_full_protection,
        )
        depth 8

  Keeps-protect_sell :
      (pid : ℕ) (broker : Option (ProtectionBroker F)) (now : String)
      → Keeps (SameBooks {F = F}) (protect_sell pid broker now)
  unfolding protect_sell
  Keeps-protect_sell pid none now = search (keeps_rules, SameBooks-IsPreorder)
  Keeps-protect_sell pid (some broker) now =
      search
        (
          keeps_rules, SameBooks-IsPreorder, Keeps-reconcile_after_sell_fill,
          Keeps-require_full_protection,
        )
        depth 8

  Keeps-protect_side :
      (a : OrderAction) (pid : ℕ) (qty : ℤ) (broker : Option (ProtectionBroker F)) (now : String)
      → Keeps (SameBooks {F = F}) (protect_side a pid qty broker now)
  unfolding protect_side
  Keeps-protect_side buy pid qty broker now = Keeps-protect_buy pid qty broker now
  Keeps-protect_side sell pid qty broker now = Keeps-protect_sell pid broker now
  Keeps-protect_side (OrderAction.other _) pid qty broker now =
      search (keeps_rules, SameBooks-IsPreorder)

  needs_recovery-state : (r : Result (Unit {0})) (db : Db F) → (needs_recovery (r, db)).1 ≡ db
  needs_recovery-state (ok tt) db = refl
  needs_recovery-state (err e) db = refl

  -- Protecting a fill writes no order, fill, position or reservation, also when it raises.
  pub Keeps-protect_fill :
      (a : OrderAction) (pid : ℕ) (qty : ℤ) (broker : Option (ProtectionBroker F)) (now : String)
      → Keeps (SameBooks {F = F}) (protect_fill a pid qty broker now)
  unfolding protect_fill
  Keeps-protect_fill a pid qty broker now = record {
    at = λ db.
        subst (SameBooks db)
          (sym (
            needs_recovery-state (protect_side a pid qty broker now db).0
              (protect_side a pid qty broker now db).1))
          ((Keeps-protect_side a pid qty broker now).at db);
  }
