-- ===== src/Tests/Recoveries.antt =====
-- The recovery at start-up on a sample order of the day before.
use hanstock_svc.Base.{ℕ, false, ◌≡◌, refl, none, some, [], ◌∷◌, arith, find_row, update_row}
use hanstock_svc.Ledger.{
  UnifiedOrderStatus-discrete, submitted, broker_unknown, LedgerDb, RecoveryClock, newest_is,
  due_orders, flag_orders, count_due, close_expired_orders,
}
use hanstock_svc.Ledger.Audit.{logged_status}
use hanstock_svc.Ledger.AuditRuns.{IsLogged}
use hanstock_svc.Ledger.RecoveryRuns.{close_expired_orders-IsLogged}
use hanstock_svc.Tests.Samples.{whole_won}
use hanstock_svc.Tests.OrderLedgers.{sample_order, sample_event, empty_ledger}

abbrev morning : RecoveryClock
morning = record {
  cutoff = "2026-01-03";
  updated_at = "t9";
  us_cutoff = 2;
  expire_current_us_day = false;
  order_day = λ t. none;
}

abbrev yesterday : LedgerDb ℕ
yesterday = record empty_ledger {
  orders = record {
    next_id = 2;
    rows = (1, record (sample_order submitted) { broker_order_date = "2026-01-02" }) ∷ [];
  };
  events = sample_event submitted ∷ [];
}

flag_runs :
    ((close_expired_orders morning yesterday).0 ≡ 1)
    × (logged_status 1 (close_expired_orders morning yesterday).1.events ≡ some broker_unknown)
unfolding close_expired_orders due_orders count_due flag_orders find_row update_row logged_status
    newest_is UnifiedOrderStatus-discrete
flag_runs = (refl, refl)

yesterday-IsLogged : IsLogged yesterday
unfolding find_row logged_status
yesterday-IsLogged = record {
  ids = ((refl, tt), (omega arith, tt));
  below = (omega arith, tt);
  audited = λ oid o e. ground arith;
}

close_expired_orders-IsLogged_example : IsLogged (close_expired_orders morning yesterday).1
close_expired_orders-IsLogged_example =
    close_expired_orders-IsLogged morning yesterday yesterday-IsLogged
