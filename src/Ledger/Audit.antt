-- ===== src/Ledger/Audit.antt =====
-- The event log determines every order's status
-- (src/application/orders/repository.py).
use hanstock_svc.Base.{
  ℕ, suc, String, ◌≡◌, refl, ◌<◌, ◌==◌, true, false, Option, none, some, List, [], ◌∷◌, Bool-cases,
  inl, inr, arith, get_row, set_row, Table, IsTable, insert_row, set_row-IsTable,
  insert_row-IsTable, find_row-update_row_ne, find_row-update_row_self, find_row-lt,
  find_row-append_row_self, find_row-append_row_ne, ==→eq, if◌then◌else◌,
}
use hanstock_svc.Ledger.Records.{UnifiedOrderStatus, LedgerOrder, LedgerEvent}
use hanstock_svc.Ledger.Moves.{created_event, has_created}

-- The status that the newest event of an order leads to.
unfoldable pub logged_status : ℕ → List LedgerEvent → Option UnifiedOrderStatus
logged_status oid [] = none
logged_status oid (e ∷ es) = if e.order_id == oid then some e.to_status else logged_status oid es

-- Every event is of an order below the next id.
abbrev pub EventsBelow : ℕ → List LedgerEvent → Type 0
EventsBelow n [] = Unit
EventsBelow n (e ∷ es) = (e.order_id < n) × EventsBelow n es

-- The log knows every order: it was created, and its newest event leads to its status.
pub record IsAudited {F : Type 0} (orders : Table (LedgerOrder F)) (events : List LedgerEvent)
    : Type 0 where
  pub ids : IsTable orders
  pub below : EventsBelow orders.next_id events
  pub audited :
      (oid : ℕ) (o : LedgerOrder F)
      → get_row oid orders ≡ some o
      → (logged_status oid events ≡ some o.status) × (has_created oid events ≡ true)

EventsBelow-suc : (n : ℕ) (es : List LedgerEvent) → EventsBelow n es → EventsBelow (suc n) es
EventsBelow-suc n [] h = tt
EventsBelow-suc n (e ∷ es) h = (ground arith, EventsBelow-suc n es h.1)

pub has_created-new : (n : ℕ) (es : List LedgerEvent) → EventsBelow n es → has_created n es ≡ false
unfolding has_created
has_created-new n [] h = refl
has_created-new n (e ∷ es) h = ground (arith, has_created-new n es h.1)

module _ {F : Type 0} where
  -- An event that leads to the row's status.
  pub note-IsAudited :
      (orders : Table (LedgerOrder F)) (events : List LedgerEvent) (oid : ℕ) (o : LedgerOrder F)
      (e : LedgerEvent)
      → IsAudited orders events
      → get_row oid orders ≡ some o
      → e.order_id ≡ oid
      → e.to_status ≡ o.status
      → IsAudited orders (e ∷ events)
  unfolding logged_status has_created
  note-IsAudited orders events oid o e a h same to = record {
    ids = a.ids;
    below = (ground (arith, find_row-lt orders.next_id oid o orders.rows a.ids.1 h), a.below);
    audited = λ i x ex.
        let (s, c) = a.audited i x ex in
        elim (Bool-cases (i == oid)) [
          | inl here ↦ let there : i ≡ oid = ==→eq i oid here in ground arith
          | inr other ↦ ground arith
        ];
  }

  -- A row that is written, with its status.
  pub set-IsAudited :
      (orders : Table (LedgerOrder F)) (events : List LedgerEvent) (oid : ℕ) (o o' : LedgerOrder F)
      → IsAudited orders events
      → get_row oid orders ≡ some o
      → o'.status ≡ o.status
      → IsAudited (set_row oid (λ p. o') orders) events
  set-IsAudited orders events oid o o' a h same = record {
    ids = set_row-IsTable oid (λ p. o') orders a.ids;
    below = a.below;
    audited = λ i x ex. elim (Bool-cases (i == oid)) [
      | inl here ↦
          let there : i ≡ oid = ==→eq i oid here in
          let row = find_row-update_row_self oid (λ p. o') orders.rows o h in
          let is : x ≡ o' = ground arith in let (s, c) = a.audited oid o h in ground arith
      | inr other ↦
          let row = find_row-update_row_ne i oid (λ p. o') orders.rows (ground arith) in
          a.audited i x (ground arith)
    ];
  }

  -- A row that is written, with the event that leads to its status.
  pub move-IsAudited :
      (orders : Table (LedgerOrder F)) (events : List LedgerEvent) (oid : ℕ) (o o' : LedgerOrder F)
      (e : LedgerEvent)
      → IsAudited orders events
      → get_row oid orders ≡ some o
      → e.order_id ≡ oid
      → e.to_status ≡ o'.status
      → IsAudited (set_row oid (λ p. o') orders) (e ∷ events)
  unfolding logged_status has_created
  move-IsAudited orders events oid o o' e a h same to = record {
    ids = set_row-IsTable oid (λ p. o') orders a.ids;
    below = (ground (arith, find_row-lt orders.next_id oid o orders.rows a.ids.1 h), a.below);
    audited = λ i x ex. elim (Bool-cases (i == oid)) [
      | inl here ↦
          let there : i ≡ oid = ==→eq i oid here in
          let row = find_row-update_row_self oid (λ p. o') orders.rows o h in
          let is : x ≡ o' = ground arith in let (s, c) = a.audited oid o h in ground arith
      | inr other ↦
          let row = find_row-update_row_ne i oid (λ p. o') orders.rows (ground arith) in
          let (s, c) = a.audited i x (ground arith) in ground arith
    ];
  }

  -- A new row, with its first event.
  pub create-IsAudited :
      (orders : Table (LedgerOrder F)) (events : List LedgerEvent) (o : LedgerOrder F)
      (now : String)
      → IsAudited orders events
      → IsAudited (insert_row o orders) (created_event orders.next_id o.status now ∷ events)
  unfolding logged_status has_created
  create-IsAudited orders events o now a = record {
    ids = insert_row-IsTable o orders a.ids;
    below = (ground arith, EventsBelow-suc orders.next_id events a.below);
    audited = λ i x ex. elim (Bool-cases (i == orders.next_id)) [
      | inl here ↦
          let there : i ≡ orders.next_id = ==→eq i orders.next_id here in
          let row = find_row-append_row_self orders.next_id o orders.rows a.ids.1 in
          let is : x ≡ o = ground arith in ground arith
      | inr other ↦
          let row = find_row-append_row_ne i orders.next_id o orders.rows (ground arith) in
          let (s, c) = a.audited i x (ground arith) in ground arith
    ];
  }
