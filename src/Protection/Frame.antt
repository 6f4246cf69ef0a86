-- ===== src/Protection/Frame.antt =====
-- The protection service writes protections and their events, and nothing else.
use hanstock_svc.Base.{
  ℕ, String, ◌≡◌, refl, ◌∙◌, Bool, Option, none, some, ℤ, Float, Result, ok, err, Option-cases, inl,
  inr, arith, get_row,
}
use hanstock_svc.Base.Actions.{transaction}
use hanstock_svc.Base.Keeps.{IsPreorder, Keeps, Keeps-transaction, keeps_rules}
use hanstock_svc.Schema.{Db}
use hanstock_svc.Execution.{find_protection}
use hanstock_svc.Risk.{
  Protected, request_row, request_position_protection, activate_position_protection,
  fail_position_protection, cancel_position_protection, request_position_protection_cancel,
}
use hanstock_svc.Protection.Requests.{
  ProtectionBroker, ProtectionAck, request_entry_fill, accept_ack, settle_call, submit_requested,
  require_position,
}
use hanstock_svc.Protection.Reconcile.{
  require_protection, settle_cancel, cancel_after_flat, reconcile_flat, reconcile_open,
  reconcile_found, reconcile_after_sell_fill,
}

module _ {F : Type 0} where
  -- Orders, fills, positions and reservations are as they were.
  pub record SameBooks (db db' : Db F) : Type 0 where
    pub orders : db'.orders ≡ db.orders
    pub fills : db'.fills ≡ db.fills
    pub positions : db'.positions ≡ db.positions
    pub reservations : db'.reservations ≡ db.reservations

  pub SameBooks-IsPreorder : IsPreorder (SameBooks)
  SameBooks-IsPreorder = record {
    stay = λ s. record { orders = refl; fills = refl; positions = refl; reservations = refl };
    chain = λ s t u a b. record {
      orders = b.orders ∙ a.orders;
      fills = b.fills ∙ a.fills;
      positions = b.positions ∙ a.positions;
      reservations = b.reservations ∙ a.reservations;
    };
  }

module _ {F : Type 0} ⦃fl : Float F⦄ where
  Keeps-request :
      (pid : ℕ) (qty : ℤ) (stop : F) (reason now : String)
      → Keeps
          (SameBooks {F = F})
          (transaction (request_position_protection pid qty stop reason now))
  unfolding request_position_protection request_row
  Keeps-request pid qty stop reason now = Keeps-transaction SameBooks-IsPreorder _ λ s a s' h.
      elim (Option-cases (get_row pid s.positions)) [
        | inl e ↦ absurd (ground arith)
        | inr (p, e) ↦ elim (Option-cases (find_protection pid s)) [
          | inl e2 ↦ ground arith
          | inr (x, e2) ↦ ground arith
        ]
      ]

  Keeps-activate :
      (gid : ℕ) (order : String) (qty : ℤ) (stop : F) (payload now : String)
      → Keeps
          (SameBooks {F = F})
          (transaction (activate_position_protection gid order qty stop payload now))
  unfolding activate_position_protection
  Keeps-activate gid order qty stop payload now =
      Keeps-transaction SameBooks-IsPreorder _ λ s a s' h. ground arith

  Keeps-fail :
      (gid : ℕ) (error payload now : String)
      → Keeps (SameBooks {F = F}) (transaction (fail_position_protection gid error payload now))
  unfolding fail_position_protection
  Keeps-fail gid error payload now =
      Keeps-transaction SameBooks-IsPreorder _ λ s a s' h. ground arith

  Keeps-cancel :
      (gid : ℕ) (reason now : String)
      → Keeps (SameBooks {F = F}) (transaction (cancel_position_protection gid reason now))
  unfolding cancel_position_protection
  Keeps-cancel gid reason now = Keeps-transaction SameBooks-IsPreorder _ λ s a s' h. ground arith

  Keeps-request_cancel :
      (gid : ℕ) (reason now : String)
      → Keeps (SameBooks {F = F}) (transaction (request_position_protection_cancel gid reason now))
  unfolding request_position_protection_cancel
  Keeps-request_cancel gid reason now =
      Keeps-transaction SameBooks-IsPreorder _ λ s a s' h. ground arith

  ruleset frame_rules = (
    keeps_rules, SameBooks-IsPreorder, Keeps-request, Keeps-activate, Keeps-fail, Keeps-cancel,
    Keeps-request_cancel,
  )

  Keeps-require_position : (pid : ℕ) → Keeps (SameBooks {F = F}) (require_position pid)
  unfolding require_position
  Keeps-require_position pid = record { at = λ db. ground arith }

  Keeps-require_protection :
      (pid : ℕ) (why : String) → Keeps (SameBooks {F = F}) (require_protection pid why)
  Keeps-require_protection pid why = record { at = λ db. ground arith }

  pub Keeps-request_entry_fill :
      (pid : ℕ) (qty : ℤ) (stop : F) (now : String)
      → Keeps (SameBooks {F = F}) (request_entry_fill pid qty stop now)
  unfolding request_entry_fill
  Keeps-request_entry_fill pid qty stop now = search (frame_rules, Keeps-require_position)

  Keeps-accept_ack :
      (protection : Protected F) (ack : ProtectionAck F) (now : String)
      → Keeps (SameBooks {F = F}) (accept_ack protection ack now)
  unfolding accept_ack
  Keeps-accept_ack protection ack now = search frame_rules

  Keeps-settle_call :
      (protection : Protected F) (why : String) (r : Result (ProtectionAck F)) (now : String)
      → Keeps (SameBooks {F = F}) (settle_call protection why r now)
  unfolding settle_call
  Keeps-settle_call protection why (ok ack) now = Keeps-accept_ack protection ack now
  Keeps-settle_call protection why (err e) now = search frame_rules

  pub Keeps-submit_requested :
      (protection : Protected F) (broker : ProtectionBroker F) (force_new : Bool) (now : String)
      → Keeps (SameBooks {F = F}) (submit_requested protection broker force_new now)
  unfolding submit_requested
  Keeps-submit_requested protection broker force_new now = Keeps-settle_call _ _ _ now

  Keeps-settle_cancel :
      (gid : ℕ) (r : Result (ProtectionAck F)) (reason now : String)
      → Keeps (SameBooks {F = F}) (settle_cancel gid r reason now)
  unfolding settle_cancel
  Keeps-settle_cancel gid (ok ack) reason now = search frame_rules
  Keeps-settle_cancel gid (err e) reason now = search frame_rules

  pub Keeps-cancel_after_flat :
      (pid : ℕ) (broker : ProtectionBroker F) (reason : String) (b : Bool) (now : String)
      → Keeps (SameBooks {F = F}) (cancel_after_flat pid broker reason b now)
  unfolding cancel_after_flat
  Keeps-cancel_after_flat pid broker reason b now =
      search (frame_rules, Keeps-require_position, Keeps-require_protection, Keeps-settle_cancel)
        depth 8

  Keeps-reconcile_flat :
      (pid : ℕ) (broker : Option (ProtectionBroker F)) (protection : Protected F) (now : String)
      → Keeps (SameBooks {F = F}) (reconcile_flat pid broker protection now)
  unfolding reconcile_flat
  Keeps-reconcile_flat pid none protection now = search frame_rules
  Keeps-reconcile_flat pid (some broker) protection now =
      search (frame_rules, Keeps-cancel_after_flat)

  Keeps-reconcile_open :
      (pid : ℕ) (broker : Option (ProtectionBroker F)) (protection : Protected F) (remaining : ℕ)
      (now : String)
      → Keeps (SameBooks {F = F}) (reconcile_open pid broker protection remaining now)
  unfolding reconcile_open
  Keeps-reconcile_open pid none protection remaining now = search frame_rules
  Keeps-reconcile_open pid (some broker) protection remaining now =
      search (frame_rules, Keeps-submit_requested)

  Keeps-reconcile_found :
      (pid : ℕ) (broker : Option (ProtectionBroker F)) (remaining : ℕ)
      (found : Option (Protected F)) (now : String)
      → Keeps (SameBooks {F = F}) (reconcile_found pid broker remaining found now)
  unfolding reconcile_found
  Keeps-reconcile_found pid broker remaining none now = search frame_rules
  Keeps-reconcile_found pid broker remaining (some protection) now =
      search (frame_rules, Keeps-reconcile_flat, Keeps-reconcile_open)

  pub Keeps-reconcile_after_sell_fill :
      (pid : ℕ) (broker : Option (ProtectionBroker F)) (now : String)
      → Keeps (SameBooks {F = F}) (reconcile_after_sell_fill pid broker now)
  unfolding reconcile_after_sell_fill
  Keeps-reconcile_after_sell_fill pid broker now =
      search (frame_rules, Keeps-require_position, Keeps-reconcile_found)
