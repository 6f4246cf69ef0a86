-- ===== src/OrderState/Outcomes.antt =====
-- What a transition leaves of an order's row, column by column (the UPDATE of
-- `transition_managed_order` in src/database/ai_execution_repository.py).
use hanstock_svc.Base.{
  String, ◌≡◌, ◌≢◌, ◌⊎◌, refl, true, false, Option, none, some, Float, inl, inr, or_keep, Bool,
  if◌then◌else◌, ◌∙◌, Bool-cases, arith,
}
use hanstock_svc.Schema.{Order, OrderStatus, submitted, OrderStatus-discrete, same_status}
use hanstock_svc.Execution.{transitioned, completes}
use hanstock_svc.OrderState.Transitions.{is_terminal}

-- `COALESCE(new, old)`: the new text, unless there is none.
abbrev pub Coalesced : Option String → Option String → Option String → Type 0
Coalesced new old result =
    ((new ≡ none) × (result ≡ old)) ⊎ ((x : String) × (new ≡ some x) × (result ≡ some x))

module _ {F : Type 0} where
  -- The row afterwards: the status is the target, a given broker id and error replace the ones
  -- that are stored, the first submission and the first end are dated, and no other column moved.
  pub record IsMoved (target : OrderStatus) (broker_order_id last_error : Option String)
      (now : String) (before after : Order F) : Type 0 where
    pub status : after.status ≡ target
    pub updated_at : after.updated_at ≡ now
    pub broker_id : Coalesced broker_order_id before.broker_order_id after.broker_order_id
    pub error : Coalesced last_error before.last_error after.last_error
    pub submission :
        ((target ≡ submitted) × Coalesced before.submitted_at (some now) after.submitted_at)
        ⊎ ((target ≢ submitted) × (after.submitted_at ≡ before.submitted_at))
    pub completion :
        ((is_terminal target ≡ true) × Coalesced before.completed_at (some now) after.completed_at)
        ⊎ ((is_terminal target ≡ false) × (after.completed_at ≡ before.completed_at))
    pub rest : after ≡ record before {
      status = after.status;
      broker_order_id = after.broker_order_id;
      last_error = after.last_error;
      submitted_at = after.submitted_at;
      completed_at = after.completed_at;
      updated_at = after.updated_at;
    }

Coalesced-or_keep : (new old : Option String) → Coalesced new old (or_keep new old)
Coalesced-or_keep none old = inl (refl, refl)
Coalesced-or_keep (some x) old = inr (x, refl, refl)

dated :
    (b : Bool) (old now : Option String)
    → b ≡ true
    → Coalesced old now (if b then or_keep old now else old)
dated true old now h = Coalesced-or_keep old now
dated false old now h = absurd (ground arith)

undated :
    (b : Bool) (old now : Option String) → b ≡ false → (if b then or_keep old now else old) ≡ old
undated true old now h = absurd (ground arith)
undated false old now h = refl

completes-is_terminal : (s : OrderStatus) → completes s ≡ is_terminal s
completes-is_terminal s = ground arith

module _ {F : Type 0} ⦃fl : Float F⦄ where
  module _ (target : OrderStatus) (broker_order_id last_error : Option String) (now : String)
      (o : Order F) where
    abbrev there : Order F
    there = transitioned target broker_order_id last_error now o

    submission-cases :
        ((target ≡ submitted) × Coalesced o.submitted_at (some now) there.submitted_at)
        ⊎ ((target ≢ submitted) × (there.submitted_at ≡ o.submitted_at))
    submission-cases = elim (OrderStatus-discrete target submitted) [
      | yes same ↦
          inl (same, dated (same_status target submitted) o.submitted_at (some now) (ground arith))
      | no other ↦
          inr
            (other, undated (same_status target submitted) o.submitted_at (some now) (ground arith))
    ]

    completion-cases :
        ((is_terminal target ≡ true) × Coalesced o.completed_at (some now) there.completed_at)
        ⊎ ((is_terminal target ≡ false) × (there.completed_at ≡ o.completed_at))
    completion-cases = elim (Bool-cases (is_terminal target)) [
      | inl ends ↦ inl (
        ends,
        dated (completes target) o.completed_at (some now) (completes-is_terminal target ∙ ends),
      )
      | inr live ↦ inr (
        live,
        undated (completes target) o.completed_at (some now) (completes-is_terminal target ∙ live),
      )
    ]

    pub transitioned-IsMoved : IsMoved target broker_order_id last_error now o there
    transitioned-IsMoved = record {
      status = refl;
      updated_at = refl;
      broker_id = Coalesced-or_keep broker_order_id o.broker_order_id;
      error = Coalesced-or_keep last_error o.last_error;
      submission = submission-cases;
      completion = completion-cases;
      rest = refl;
    }
