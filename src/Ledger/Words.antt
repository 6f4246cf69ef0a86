-- ===== src/Ledger/Words.antt =====
-- The words of a broker for the status of an order (`reconcile_snapshot` of
-- src/application/orders/repository.py).
use hanstock_svc.Base.{
  String, Bool, false, ◌||◌, Option, none, some, List, [], ◌∷◌, str_eq, if◌then◌else◌,
}
use hanstock_svc.Ledger.Records.{
  UnifiedOrderStatus, created, risk_approved, approval_pending, approved, submitting, submitted,
  open_, partial, filled, cancel_pending, canceled, rejected, expired, broker_unknown, failed,
}
use hanstock_svc.Ledger.Statuses.{allows, status_text}

-- `aliases.get(status, status)`
abbrev pub unalias : String → String
unalias t =
    if str_eq t "accepted"
    then "submitted"
    else if str_eq t "pending"
    then "open"
    else if str_eq t "working"
    then "open"
    else if str_eq t "partially_filled"
    then "partial"
    else if str_eq t "cancelled"
    then "canceled"
    else if str_eq t "failed"
    then "rejected"
    else if str_eq t "unknown"
    then "broker_unknown"
    else t

abbrev pub all_statuses : List UnifiedOrderStatus
all_statuses =
    created ∷ risk_approved ∷ approval_pending ∷ approved ∷ submitting ∷ submitted ∷ open_ ∷ partial
    ∷ filled ∷ cancel_pending ∷ canceled ∷ rejected ∷ expired ∷ broker_unknown ∷ failed ∷ []

unfoldable pub any_status : (UnifiedOrderStatus → Bool) → List UnifiedOrderStatus → Bool
any_status p [] = false
any_status p (s ∷ rest) = p s || any_status p rest

unfoldable pub keep_statuses :
    (UnifiedOrderStatus → Bool) → List UnifiedOrderStatus → List UnifiedOrderStatus
keep_statuses p [] = []
keep_statuses p (s ∷ rest) = let kept = keep_statuses p rest in if p s then s ∷ kept else kept

-- What the table of transitions names: a status with a target, or a target.
abbrev pub is_named : UnifiedOrderStatus → Bool
is_named s = any_status (allows s) all_statuses || any_status (λ t. allows t s) all_statuses

abbrev pub valid_statuses : List UnifiedOrderStatus
valid_statuses = keep_statuses is_named all_statuses

unfoldable pub find_status : String → List UnifiedOrderStatus → Option UnifiedOrderStatus
find_status t [] = none
find_status t (s ∷ rest) = if str_eq t (status_text s) then some s else find_status t rest

-- The status that a broker's word stands for, in lower case.
abbrev pub parse_status : String → Option UnifiedOrderStatus
parse_status t = find_status (unalias t) valid_statuses
