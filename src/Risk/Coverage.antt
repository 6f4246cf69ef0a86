-- ===== src/Risk/Coverage.antt =====
-- `list_unprotected_strategy_positions` of src/db/ai_risk_repository.py: the open quantities that no
-- active stop covers in full.
use hanstock_svc.Base.{
  ℕ, String, Bool, true, false, ◌&&◌, ◌||◌, Option, none, some, [], ◌∷◌, ◌==◌, ltb, not, str_eq,
  if◌then◌else◌, Float, Rows, Result, ok,
}
use hanstock_svc.Base.Results.{◌>>◌}
use hanstock_svc.Schema.{Db, Position, PositionStatus, ProtectionStatus, open_long, exit_pending}
use hanstock_svc.Execution.{find_protection, require_storable_market}
use hanstock_svc.Risk.Protections.{Protected, is_long}

-- p.status IN ('open', 'exit_pending')
abbrev pub is_held : PositionStatus → Bool
is_held open_long = true
is_held exit_pending = true
is_held _ = false

-- g.status IN ('active', 'amend_pending')
abbrev pub has_stop : ProtectionStatus → Bool
has_stop ProtectionStatus.active = true
has_stop ProtectionStatus.amend_pending = true
has_stop _ = false

-- `require_storable_market` of a market that is given.
unfoldable pub check_market : Option String → Result (Unit {0})
check_market none = ok tt
check_market (some m) = if str_eq m "" then ok tt else require_storable_market m

module _ {F : Type 0} ⦃fl : Float F⦄ where
  -- The LEFT JOIN's test on the protection of a position, or its absence.
  unfoldable pub is_covered : Position F → Option (Protected F) → Bool
  is_covered p none = false
  is_covered p (some (_, g)) = has_stop g.status && (g.protected_qty == p.remaining_qty)

  -- A long position with an open quantity that no active stop covers in full.
  unfoldable pub is_unprotected : Db F → ℕ → Position F → Bool
  is_unprotected db pid p =
      is_long p.side
      && is_held p.status
      && ltb 0 p.remaining_qty
      && not (is_covered p (find_protection pid db))

  -- The positions of one market, or of every market.
  abbrev pub in_market : Option String → Position F → Bool
  in_market none p = true
  in_market (some m) p = str_eq m "" || str_eq p.market m

  unfoldable pub unprotected_rows : Option String → Db F → Rows (Position F) → Rows (Position F)
  unprotected_rows market db [] = []
  unprotected_rows market db ((pid, p) ∷ rows) =
      let rest = unprotected_rows market db rows in
      if is_unprotected db pid p && in_market market p then (pid, p) ∷ rest else rest

  unfoldable pub list_unprotected_strategy_positions :
      Option String → Db F → Result (Rows (Position F))
  list_unprotected_strategy_positions market db = do
    check_market market
    ok (unprotected_rows market db db.positions.rows)
