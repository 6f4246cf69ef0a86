-- ===== src/Protection/Covered.antt =====
-- What a request for protection that the broker acknowledged leaves in the database.
use hanstock_svc.Base.{
  ℕ, String, ◌≡◌, Bool, ◌==◌, some, ℤ, pos, pos_part, Float, IsTable, get_row, Bool-cases,
  Option-cases, Result, ok, err, inl, inr, arith, find_where-found, find_row-update_row_self,
  find_row-append_row_self,
}
use hanstock_svc.Base.Inversion.{transaction-ok}
use hanstock_svc.Schema.{Db, Position, Protection}
use hanstock_svc.Execution.{find_protection, re_requested, new_protection}
use hanstock_svc.Risk.{
  Protected, request_row, request_position_protection, activate_position_protection, activated,
}
use hanstock_svc.Protection.Requests.{
  ProtectionBroker, ProtectionAck, require_position, request_entry_fill, accept_ack, settle_call,
  submit_requested, place, request_for,
}

module _ {F : Type 0} ⦃fl : Float F⦄ where
  -- The protection is stored, and is that of the position.
  pub record Stored (pid : ℕ) (x : Protected F) (db : Db F) : Type 0 where
    pub row : get_row x.0 db.protections ≡ some x.1
    pub owner : x.1.position_id ≡ pid

  request_row-Stored :
      (pid : ℕ) (p : Position F) (qty : ℕ) (stop : F) (reason now : String) (db db' : Db F)
      (x : Protected F)
      → IsTable db.protections
      → request_row pid p qty stop reason now db (find_protection pid db) ≡ ok (x, db')
      → Stored pid x db'
  unfolding request_row
  request_row-Stored pid p qty stop reason now db db' x k h =
      elim (Option-cases (find_protection pid db)) [
        | inl free ↦
            let there =
              find_row-append_row_self db.protections.next_id (new_protection pid p qty stop now)
                db.protections.rows k.1 in
            record { row = ground arith; owner = ground arith }
        | inr ((gid, g), taken) ↦
            let (row, test) =
              find_where-found (λ (g : Protection F). g.position_id == pid) gid g
                db.protections.rows k.0 taken in
            let there =
              find_row-update_row_self gid (re_requested qty stop now) db.protections.rows g row in
            record { row = ground arith; owner = ground arith }
      ]

  request-Stored :
      (pid : ℕ) (qty : ℤ) (stop : F) (reason now : String) (db db' : Db F) (x : Protected F)
      → IsTable db.protections
      → request_position_protection pid qty stop reason now db ≡ ok (x, db')
      → Stored pid x db'
  unfolding request_position_protection
  request-Stored pid qty stop reason now db db' x k h =
      elim (Option-cases (get_row pid db.positions)) [
        | inl missing ↦ absurd (ground arith)
        | inr (p, here) ↦
            request_row-Stored pid p (pos_part qty) stop reason now db db' x k (ground arith)
      ]

  activate-Stored :
      (pid : ℕ) (x : Protected F) (order : String) (qty : ℤ) (stop : F) (payload now : String)
      (db db' : Db F) (y : Protected F)
      → Stored pid x db
      → activate_position_protection x.0 order qty stop payload now db ≡ ok (y, db')
      → Stored pid y db'
  unfolding activate_position_protection
  activate-Stored pid x order qty stop payload now db db' y s h =
      let there =
        find_row-update_row_self x.0 (activated order (pos_part qty) stop now) db.protections.rows
          x.1 s.row in
      record { row = ground (arith, s.row); owner = ground (arith, s.row, s.owner) }

  accept_ack-Stored :
      (pid : ℕ) (x : Protected F) (ack : ProtectionAck F) (now : String) (db db' : Db F)
      (y : Protected F)
      → Stored pid x db
      → accept_ack x ack now db ≡ (ok y, db')
      → Stored pid y db'
  unfolding accept_ack
  accept_ack-Stored pid x ack now db db' y s h = elim (Bool-cases ack.accepted) [
    | inl fine ↦
        activate-Stored pid x ack.broker_order_id ack.protected_qty ack.stop_price ack.payload now
          db db' y s
          (transaction-ok
            (activate_position_protection x.0 ack.broker_order_id ack.protected_qty ack.stop_price
              ack.payload now)
            db y db' (ground arith))
    | inr refused ↦ absurd (ground arith)
  ]

  settle_call-Stored :
      (pid : ℕ) (x : Protected F) (why : String) (r : Result (ProtectionAck F)) (now : String)
      (db db' : Db F) (y : Protected F)
      → Stored pid x db
      → settle_call x why r now db ≡ (ok y, db')
      → Stored pid y db'
  unfolding settle_call
  settle_call-Stored pid x why (ok ack) now db db' y s h =
      accept_ack-Stored pid x ack now db db' y s h
  settle_call-Stored pid x why (err e) now db db' y s h = absurd (ground arith)

  -- A submission that returns has stored the acknowledged protection of the position.
  pub submit_requested-Stored :
      (pid : ℕ) (x : Protected F) (broker : ProtectionBroker F) (force_new : Bool) (now : String)
      (db db' : Db F) (y : Protected F)
      → Stored pid x db
      → submit_requested x broker force_new now db ≡ (ok y, db')
      → Stored pid y db'
  unfolding submit_requested
  submit_requested-Stored pid x broker force_new now db db' y s h =
      settle_call-Stored pid x "hard-stop broker call failed"
        (place broker (request_for x force_new)) now db db' y s h

  -- A request for an entry fill that returns has stored the protection of the position.
  pub request_entry_fill-Stored :
      (pid : ℕ) (qty : ℤ) (stop : F) (now : String) (db db' : Db F) (x : Protected F)
      → IsTable db.protections
      → request_entry_fill pid qty stop now db ≡ (ok x, db')
      → Stored pid x db'
  unfolding request_entry_fill require_position
  request_entry_fill-Stored pid qty stop now db db' x k h =
      elim (Option-cases (get_row pid db.positions)) [
        | inl missing ↦ absurd (ground arith)
        | inr (p, here) ↦
            request-Stored pid (pos p.remaining_qty) stop "protect entry fill" now db db' x k (
              transaction-ok
                (request_position_protection pid (pos p.remaining_qty) stop "protect entry fill"
                  now)
                db x db' (ground arith))
      ]
