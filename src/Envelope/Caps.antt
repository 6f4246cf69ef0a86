-- ===== src/Envelope/Caps.antt =====
-- The quantity is the smallest of the caps, so it fits every room.
use hanstock_svc.Base.{
  ℕ, String, ◌≡◌, refl, sym, subst, ◌≤◌, ◌<◌, Bool, true, some, List, [], ◌∷◌, ◌==◌, pos_part,
  Float, ok, Bool-cases, Result-cases, inl, inr, arith, ltb, ◌⊎◌,
}
use hanstock_svc.Envelope.Records.{IntentAction, RiskLimits, RiskDecision}
use hanstock_svc.Envelope.Reduction.{floor_of}
use hanstock_svc.Envelope.Checks.{Readings}
use hanstock_svc.Envelope.Rooms.{Amounts, smallest, rooms, scaled, caps_of}
use hanstock_svc.Envelope.Increase.{amounts_of, decide, decide_caps, size}

-- No cap is below the quantity.
abbrev pub AtMost : ℕ → List (String × ℕ) → Type 0
AtMost q [] = Unit {0}
AtMost q (c ∷ cs) = (q ≤ c.1) × AtMost q cs

-- The cap stands in the list.
abbrev pub IsCap : String × ℕ → List (String × ℕ) → Type 0
IsCap x [] = ⊥
IsCap x (c ∷ cs) = (x ≡ c) ⊎ IsCap x cs

AtMost-mono : (a b : ℕ) (cs : List (String × ℕ)) → a ≤ b → AtMost b cs → AtMost a cs
AtMost-mono a b [] h k = tt
AtMost-mono a b (c ∷ cs) h k = (omega arith, AtMost-mono a b cs h k.1)

smallest-cons :
    (best c : String × ℕ) (cs : List (String × ℕ))
    → ((smallest best (c ∷ cs) ≡ smallest c cs) × (c.1 < best.1))
      ⊎ ((smallest best (c ∷ cs) ≡ smallest best cs) × (best.1 ≤ c.1))
unfolding smallest
smallest-cons best c cs = elim (Bool-cases (ltb c.1 best.1)) [
  | inl less ↦ inl (ground arith, ground arith)
  | inr more ↦ inr (ground arith, ground arith)
]

smallest-le :
    (best : String × ℕ) (cs : List (String × ℕ))
    → ((smallest best cs).1 ≤ best.1) × AtMost (smallest best cs).1 cs
unfolding smallest
smallest-le best [] = (omega arith, tt)
smallest-le best (c ∷ cs) = elim (smallest-cons best c cs) [
  | inl (e, less) ↦
      let (h, k) = smallest-le c cs in
      subst (λ (x : String × ℕ). (x.1 ≤ best.1) × AtMost x.1 (c ∷ cs)) (sym e) (omega arith, (h, k))
  | inr (e, more) ↦
      let (h, k) = smallest-le best cs in
      subst (λ (x : String × ℕ). (x.1 ≤ best.1) × AtMost x.1 (c ∷ cs)) (sym e) (h, (omega arith, k))
]

smallest-IsCap : (best : String × ℕ) (cs : List (String × ℕ)) → IsCap (smallest best cs) (best ∷ cs)
unfolding smallest
smallest-IsCap best [] = inl refl
smallest-IsCap best (c ∷ cs) = elim (smallest-cons best c cs) [
  | inl (e, _) ↦
      subst (λ (x : String × ℕ). IsCap x (best ∷ c ∷ cs)) (sym e) (inr (smallest-IsCap c cs))
  | inr (e, _) ↦
      subst (λ (x : String × ℕ). IsCap x (best ∷ c ∷ cs)) (sym e)
        (elim (smallest-IsCap best cs) [ inl f ↦ inl f | inr k ↦ inr (inr k) ])
]

module _ {F : Type 0} ⦃fl : Float F⦄ where
  -- Every room, scaled by the regime, is finite and holds the quantity.
  abbrev pub Fits : ℕ → F → List (String × F) → Type 0
  Fits q m [] = Unit {0}
  Fits q m (r ∷ rs) =
      ((fl.is_finite (scaled m r) ≡ true) × (q ≤ pos_part (fl.floor (scaled m r)))) × Fits q m rs

  caps-Fits :
      (m : F) (rs : List (String × F)) (cs : List (String × ℕ)) (q : ℕ)
      → caps_of m rs ≡ ok cs
      → AtMost q cs
      → Fits q m rs
  unfolding caps_of
  caps-Fits m [] cs q h k = tt
  caps-Fits m (r ∷ rs) cs q h k = elim (Result-cases (floor_of (scaled m r))) [
    | inl (why, e) ↦ absurd (ground arith)
    | inr (cap, e) ↦ elim (Result-cases (caps_of m rs)) [
      | inl (why, e2) ↦ absurd (ground arith)
      | inr (caps, e2) ↦
          let same : cs ≡ (r.0, cap) ∷ caps = ground arith in
          let k2 : AtMost q ((r.0, cap) ∷ caps) = subst (AtMost q) same k in
          (unfold floor_of in (ground arith, ground arith), caps-Fits m rs caps q e2 k2.1)
    ]
  ]

  -- What an approval of `size` has.
  pub record Sized (l : RiskLimits F) (r : Readings F) (d : RiskDecision F) : Type 0 where
    pub amounts : Amounts F
    pub read : amounts_of r ≡ ok amounts
    pub positive : 0 < d.quantity
    pub fits : Fits d.quantity amounts.regime_multiplier (rooms l amounts r.requested)
    pub within : AtMost d.quantity d.caps
    pub name : String
    pub binding : d.binding_cap ≡ some name
    pub bound : IsCap (name, d.quantity) d.caps

  decide_caps-Sized :
      (l : RiskLimits F) (r : Readings F) (action : IntentAction) (checks : List (String × Bool))
      (d : RiskDecision F) (a : Amounts F)
      → amounts_of r ≡ ok a
      → (caps : List (String × ℕ)) → caps_of a.regime_multiplier (rooms l a r.requested) ≡ ok caps
      → decide_caps l a action checks caps ≡ ok d
      → d.approved ≡ true
      → Sized l r d
  unfolding decide_caps decide
  decide_caps-Sized l r action checks d a e [] e2 h y = absurd (ground arith)
  decide_caps-Sized l r action checks d a e (c ∷ cs) e2 h y =
      let (below, rest) = smallest-le c cs in
      let all : AtMost (smallest c cs).1 (c ∷ cs) = (below, rest) in
      elim (Bool-cases ((smallest c cs).1 == 0)) [
        | inl none_left ↦ absurd (ground arith)
        | inr some_left ↦
            let quantity : d.quantity ≡ (smallest c cs).1 = ground arith in
            let caps : d.caps ≡ c ∷ cs = ground arith in
            record {
              amounts = a;
              read = e;
              positive = ground arith;
              fits = rw quantity (
                  caps-Fits a.regime_multiplier (rooms l a r.requested) (c ∷ cs) (smallest c cs).1
                    e2 all);
              within = rw (quantity, caps) all;
              name = (smallest c cs).0;
              binding = ground arith;
              bound = rw (quantity, caps) (smallest-IsCap c cs);
            }
      ]

  pub size-Sized :
      (l : RiskLimits F) (r : Readings F) (action : IntentAction) (checks : List (String × Bool))
      (d : RiskDecision F)
      → size l r action checks ≡ ok d
      → d.approved ≡ true
      → Sized l r d
  unfolding size
  size-Sized l r action checks d h y = elim (Result-cases (amounts_of r)) [
    | inl (why, e) ↦ absurd (ground arith)
    | inr (a, e) ↦ elim (Result-cases (caps_of a.regime_multiplier (rooms l a r.requested))) [
      | inl (why, e2) ↦ absurd (ground arith)
      | inr (caps, e2) ↦ decide_caps-Sized l r action checks d a e caps e2 (ground arith) y
    ]
  ]
