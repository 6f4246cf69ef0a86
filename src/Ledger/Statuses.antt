-- ===== src/Ledger/Statuses.antt =====
-- The transition table (src/application/orders/models.py).
use hanstock_svc.Base.{String, Bool, true, false}
use hanstock_svc.Ledger.Records.{
  UnifiedOrderStatus, created, risk_approved, approval_pending, approved, submitting, submitted,
  open_, partial, filled, cancel_pending, canceled, rejected, expired, broker_unknown, failed,
}

-- `ALLOWED_TRANSITIONS`: from, to.
unfoldable pub allows : UnifiedOrderStatus → UnifiedOrderStatus → Bool
allows created risk_approved = true
allows created approval_pending = true
allows created approved = true
allows created rejected = true
allows created expired = true
allows risk_approved approval_pending = true
allows risk_approved approved = true
allows risk_approved rejected = true
allows risk_approved expired = true
allows approval_pending approved = true
allows approval_pending rejected = true
allows approval_pending expired = true
allows approved submitting = true
allows approved rejected = true
allows approved expired = true
allows submitting submitted = true
allows submitting broker_unknown = true
allows submitting rejected = true
allows submitting failed = true
allows submitted open_ = true
allows submitted partial = true
allows submitted filled = true
allows submitted cancel_pending = true
allows submitted canceled = true
allows submitted rejected = true
allows submitted broker_unknown = true
allows open_ partial = true
allows open_ filled = true
allows open_ cancel_pending = true
allows open_ canceled = true
allows open_ rejected = true
allows open_ broker_unknown = true
allows partial open_ = true
allows partial partial = true
allows partial filled = true
allows partial cancel_pending = true
allows partial canceled = true
allows partial broker_unknown = true
allows cancel_pending partial = true
allows cancel_pending filled = true
allows cancel_pending canceled = true
allows cancel_pending broker_unknown = true
allows broker_unknown submitted = true
allows broker_unknown open_ = true
allows broker_unknown partial = true
allows broker_unknown filled = true
allows broker_unknown cancel_pending = true
allows broker_unknown canceled = true
allows broker_unknown rejected = true
allows failed rejected = true
allows failed filled = true
allows _ _ = false

-- {"filled", "canceled", "rejected", "expired"}
abbrev pub is_completed : UnifiedOrderStatus → Bool
is_completed filled = true
is_completed canceled = true
is_completed rejected = true
is_completed expired = true
is_completed _ = false

-- `.value`
unfoldable pub status_text : UnifiedOrderStatus → String
status_text created = "created"
status_text risk_approved = "risk_approved"
status_text approval_pending = "approval_pending"
status_text approved = "approved"
status_text submitting = "submitting"
status_text submitted = "submitted"
status_text open_ = "open"
status_text partial = "partial"
status_text filled = "filled"
status_text cancel_pending = "cancel_pending"
status_text canceled = "canceled"
status_text rejected = "rejected"
status_text expired = "expired"
status_text broker_unknown = "broker_unknown"
status_text failed = "failed"
