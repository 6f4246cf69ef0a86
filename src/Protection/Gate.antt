-- ===== src/Protection/Gate.antt =====
-- What the protection gate promises (src/strategy/autonomy/protection.py).
use hanstock_svc.Base.{
  ℕ, String, ◌≡◌, true, false, ◌&&◌, Option, some, [], ◌∷◌, ◌<◌, Float, Rows, find_row, get_row,
  Option-cases, inl, inr, arith,
}
use hanstock_svc.Schema.{Db, Position, Protection}
use hanstock_svc.Execution.{find_protection}
use hanstock_svc.Risk.{
  is_long, is_held, has_stop, is_covered, is_unprotected, in_market, unprotected_rows,
  list_unprotected_strategy_positions,
}
use hanstock_svc.Protection.Reconcile.{gate_of, global_gate_signal}

module _ {F : Type 0} ⦃fl : Float F⦄ where
  unprotected_rows-none :
      (market : Option String) (db : Db F) (pid : ℕ) (p : Position F) (rows : Rows (Position F))
      → unprotected_rows market db rows ≡ []
      → find_row pid rows ≡ some p
      → (is_unprotected db pid p && in_market market p) ≡ false
  unfolding unprotected_rows find_row
  unprotected_rows-none market db pid p [] h e = absurd (ground arith)
  unprotected_rows-none market db pid p ((j, q) ∷ rows) h e =
      ground (arith, unprotected_rows-none market db pid p rows)

  gate_open :
      (market : Option String) (db : Db F)
      → (global_gate_signal market db).block_new_risk ≡ false
      → unprotected_rows market db db.positions.rows ≡ []
  unfolding gate_of list_unprotected_strategy_positions
  gate_open market db h = ground arith

  -- Where the gate lets new risk through, every long position of the market that is held with an
  -- open quantity has a hard stop that is live at the broker for exactly that quantity.
  pub gate_open-covered :
      (market : Option String) (db : Db F) (pid : ℕ) (p : Position F)
      → (global_gate_signal market db).block_new_risk ≡ false
      → get_row pid db.positions ≡ some p
      → (is_long p.side && is_held p.status && in_market market p) ≡ true
      → 0 < p.remaining_qty
      → (gid : ℕ) × (g : Protection F) × (find_protection pid db ≡ some (gid, g))
        × (has_stop g.status ≡ true)
        × (g.protected_qty ≡ p.remaining_qty)
  unfolding is_unprotected is_covered
  gate_open-covered market db pid p h e k n =
      let none_left =
        unprotected_rows-none market db pid p db.positions.rows (gate_open market db h) e in
      elim (Option-cases (find_protection pid db)) [
        | inl missing ↦ absurd (ground arith)
        | inr ((gid, g), here) ↦ (gid, g, here, ground arith, ground arith)
      ]
