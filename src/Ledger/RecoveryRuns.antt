-- ===== src/Ledger/RecoveryRuns.antt =====
-- What the recovery at start-up keeps (src/application/orders/recovery.py).
use hanstock_svc.Base.{
  ℕ, String, ◌≡◌, refl, sym, subst, ◌∙◌, ◌⊎◌, inl, inr, Bool, ◌==◌, some, List, [], ◌∷◌, ◌++◌,
  if◌then◌else◌, Float, Rows, get_row, set_row, find_row, find_row-update_row_self,
  find_row-update_row_ne, Bool-cases, ==→eq, arith, IsKeyed,
}
use hanstock_svc.Ledger.Records.{
  UnifiedOrderStatus, same_unified, broker_unknown, LedgerOrder, text, LedgerDb,
}
use hanstock_svc.Ledger.Moves.{status_event, add_event}
use hanstock_svc.Ledger.Recovery.{
  RecoveryClock, due_orders, is_due_domestic, is_due_us, unverified_order, flag_row, flag_order,
  flag_orders, expired_orders, close_expired_orders,
}
use hanstock_svc.Ledger.Audit.{note-IsAudited, move-IsAudited}
use hanstock_svc.Ledger.AuditRuns.{IsLogged}

module _ {F : Type 0} ⦃fl : Float F⦄ where
  -- An order that is flagged has the status it was listed with, or is flagged already.
  abbrev IsDue : LedgerDb F → ℕ → UnifiedOrderStatus → Type 0
  IsDue db oid previous =
      (o : LedgerOrder F) × (get_row oid db.orders ≡ some o)
      × ((o.status ≡ previous) ⊎ (o.status ≡ broker_unknown))

  abbrev AllDue : LedgerDb F → List (ℕ × UnifiedOrderStatus) → Type 0
  AllDue db [] = Unit
  AllDue db ((oid, previous) ∷ r) = IsDue db oid previous × AllDue db r

  AllDue-append :
      (db : LedgerDb F) (xs ys : List (ℕ × UnifiedOrderStatus))
      → AllDue db xs
      → AllDue db ys
      → AllDue db (xs ++ ys)
  AllDue-append db [] ys a b = b
  AllDue-append db (x ∷ xs) ys a b = (a.0, AllDue-append db xs ys a.1 b)

  -- The rows that a query lists are there.
  due_orders-AllDue :
      (db : LedgerDb F) (p : ℕ → LedgerOrder F → Bool) (r : Rows (LedgerOrder F))
      → IsKeyed r
      → ((oid : ℕ) (o : LedgerOrder F) → find_row oid r ≡ some o → get_row oid db.orders ≡ some o)
      → AllDue db (due_orders p r)
  unfolding due_orders find_row
  due_orders-AllDue db p [] k h = tt
  due_orders-AllDue db p ((oid, o) ∷ r) k h =
      let rest = due_orders-AllDue db p r k.1 (λ i x e. h i x (elim (Bool-cases (i == oid)) [
        | inl same ↦ let there : i ≡ oid = ==→eq i oid same in absurd (ground arith)
        | inr other ↦ ground arith
      ])) in
      let here : get_row oid db.orders ≡ some o = h oid o (ground arith) in
      elim (Bool-cases (p oid o)) [
        | inl taken ↦
            subst (λ b. AllDue db (if b then (oid, o.status) ∷ due_orders p r else due_orders p r))
              (sym taken) ((o, here, inl refl), rest)
        | inr left ↦
            subst (λ b. AllDue db (if b then (oid, o.status) ∷ due_orders p r else due_orders p r))
              (sym left) rest
      ]

  -- One order is flagged: the log tells its new status, and the orders behind it are as due as
  -- before.
  flag_order-IsLogged :
      (oid : ℕ) (previous : UnifiedOrderStatus) (now : String) (db : LedgerDb F)
      → IsDue db oid previous
      → IsLogged db
      → IsLogged (flag_order oid previous now db)
  flag_order-IsLogged oid previous now db (o, here, was) logged =
      let event =
        status_event oid "prior_session_verification_required" previous broker_unknown
          "startup_recovery" "final broker execution snapshot required" (text "{}") now in
      let moved : LedgerDb F = record db {
        orders = set_row oid (λ p. unverified_order now o) db.orders;
      } in
      let both = λ (b : Bool). add_event event (if b then moved else db) in
      subst (λ r. IsLogged (add_event event (flag_row oid previous now r db))) (sym here)
        (elim (Bool-cases (same_unified o.status previous)) [
          | inl same ↦
              subst (λ b. IsLogged (both b)) (sym same)
                (move-IsAudited db.orders db.events oid o (unverified_order now o) event logged here
                  refl refl)
          | inr other ↦
              let flagged : o.status ≡ broker_unknown = elim was [
                | inl eq ↦ absurd (ground arith)
                | inr done ↦ done
              ] in
              subst (λ b. IsLogged (both b)) (sym other)
                (note-IsAudited db.orders db.events oid o event logged here refl (sym flagged))
        ])

  flag_order-IsDue :
      (oid i : ℕ) (previous other : UnifiedOrderStatus) (now : String) (db : LedgerDb F)
      → IsDue db oid previous
      → IsDue db i other
      → IsDue (flag_order oid previous now db) i other
  flag_order-IsDue oid i previous other now db (o, here, was) (x, there, due) =
      let row = find_row-update_row_self oid (λ p. unverified_order now o) db.orders.rows o here in
      let rest = find_row-update_row_ne i oid (λ p. unverified_order now o) db.orders.rows in
      let moved : LedgerDb F = record db {
        orders = set_row oid (λ p. unverified_order now o) db.orders;
      } in
      subst (λ r. IsDue (flag_row oid previous now r db) i other) (sym here)
        (elim (Bool-cases (same_unified o.status previous)) [
          | inr off ↦ subst (λ b. IsDue (if b then moved else db) i other) (sym off) (x, there, due)
          | inl same ↦
              subst (λ b. IsDue (if b then moved else db) i other) (sym same)
                (elim (Bool-cases (i == oid)) [
                  | inl at ↦
                      let is : oid ≡ i = sym (==→eq i oid at) in
                      subst (λ j. IsDue moved j other) is (unverified_order now o, row, inr refl)
                  | inr ne ↦ (x, rest (ground arith) ∙ there, due)
                ])
        ])

  flag_order-AllDue :
      (oid : ℕ) (previous : UnifiedOrderStatus) (now : String) (db : LedgerDb F)
      (xs : List (ℕ × UnifiedOrderStatus))
      → IsDue db oid previous
      → AllDue db xs
      → AllDue (flag_order oid previous now db) xs
  flag_order-AllDue oid previous now db [] d a = tt
  flag_order-AllDue oid previous now db ((i, other) ∷ xs) d a = (
    flag_order-IsDue oid i previous other now db d a.0,
    flag_order-AllDue oid previous now db xs d a.1,
  )

  flag_orders-IsLogged :
      (xs : List (ℕ × UnifiedOrderStatus)) (now : String) (db : LedgerDb F)
      → AllDue db xs
      → IsLogged db
      → IsLogged (flag_orders xs now db)
  unfolding flag_orders
  flag_orders-IsLogged [] now db a l = l
  flag_orders-IsLogged ((oid, previous) ∷ xs) now db a l =
      flag_orders-IsLogged xs now (flag_order oid previous now db)
        (flag_order-AllDue oid previous now db xs a.0 a.1)
        (flag_order-IsLogged oid previous now db a.0 l)

  -- The recovery moves orders beside the transition table, a canceled one too, but the log stays
  -- true: if every order's newest event leads to its status and every order has a `created` event,
  -- then so it is after the orders of completed sessions were flagged for verification.
  pub close_expired_orders-IsLogged :
      (c : RecoveryClock) (db : LedgerDb F) → IsLogged db → IsLogged (close_expired_orders c db).1
  unfolding close_expired_orders
  close_expired_orders-IsLogged c db logged =
      let there = λ (oid : ℕ) (o : LedgerOrder F) (e : find_row oid db.orders.rows ≡ some o). e in
      let keyed = logged.ids.0 in
      flag_orders-IsLogged (expired_orders c db) c.updated_at db
        (AllDue-append db (due_orders (is_due_domestic c db.events) db.orders.rows)
          (due_orders (is_due_us c) db.orders.rows)
          (due_orders-AllDue db (is_due_domestic c db.events) db.orders.rows keyed there)
          (due_orders-AllDue db (is_due_us c) db.orders.rows keyed there))
        logged
