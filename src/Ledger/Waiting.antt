-- ===== src/Ledger/Waiting.antt =====
-- What the capacity check has to leave to the orders that wait, and what the broker says, told
-- without the code's sums and searches (src/application/orders/preflight.py).
use hanstock_svc.Base.{
  ℕ, String, ◌≡◌, ◌≢◌, ◌⊎◌, refl, Bool, true, false, ◌&&◌, ◌+◌, ◌-◌, ◌<◌, Option, none, some, List,
  [], ◌∷◌, ℤ, pos_part, Float, Rows, not, str_eq, eq_iff, Result, ok, err, type_error, Option-cases,
  Bool-cases, inl, inr, arith, ap,
}
use hanstock_svc.Ledger.Records.{OrderSide, buy_side, sell_side, LedgerOrder, LedgerEvent}
use hanstock_svc.Ledger.Capacity.{
  Holding, BrokerView, PriceReader, holds_capacity, is_excluded, sells, is_local, find_holding,
  broker_sellable, reserved_sell, reserve_price, reserved_cash,
}

-- The first holding of the symbol.
pub IsFirst : String → Holding → List Holding → Type 0
IsFirst symbol h [] = ⊥
IsFirst symbol h (x ∷ xs) =
    ((x.symbol ≡ symbol) × (x ≡ h)) ⊎ ((x.symbol ≢ symbol) × IsFirst symbol h xs)

-- The broker says that n shares can be sold: by the first holding of the symbol, if the adapter has
-- no query of its own; else by the query without the cache, or by the plain one where the adapter
-- knows no such argument.
abbrev pub SaysSellable : {F : Type 0} → BrokerView F → List Holding → String → ℤ → Type 0
SaysSellable view holdings symbol n =
    ((view.sellable ≡ none) × (h : Holding) × IsFirst symbol h holdings × (h.sellable_quantity ≡ n))
    ⊎ ((plain : Result ℤ) × (view.sellable ≡ some (ok n, plain)))
    ⊎ ((why : String) × (view.sellable ≡ some (err (type_error why), ok n)))

str_ne : (a b : String) → str_eq a b ≡ false → a ≢ b
str_ne a b h e = let same = (eq_iff a b).1 e in ground arith

find_holding-IsFirst :
    (symbol : String) (hs : List Holding) (h : Holding)
    → find_holding symbol hs ≡ some h
    → IsFirst symbol h hs
unfolding find_holding IsFirst
find_holding-IsFirst symbol [] h e = absurd (ground arith)
find_holding-IsFirst symbol (x ∷ xs) h e = elim (Bool-cases (str_eq x.symbol symbol)) [
  | inl same ↦ inl ((eq_iff x.symbol symbol).0 same, ground arith)
  | inr other ↦ inr (str_ne x.symbol symbol other, find_holding-IsFirst symbol xs h (ground arith))
]

-- A broker that lets at least one share be sold says so.
pub broker_sellable-SaysSellable :
    {F : Type 0} (view : BrokerView F) (holdings : List Holding) (symbol : String)
    → 0 < broker_sellable view.sellable (find_holding symbol holdings)
    → (n : ℤ) × SaysSellable view holdings symbol n
      × (broker_sellable view.sellable (find_holding symbol holdings) ≡ pos_part n)
broker_sellable-SaysSellable view holdings symbol h = elim (Option-cases view.sellable) [
  | inl e ↦ elim (Option-cases (find_holding symbol holdings)) [
    | inl f ↦ absurd (ground arith)
    | inr (x, f) ↦ (
      x.sellable_quantity,
      inl (e, x, find_holding-IsFirst symbol holdings x f, refl),
      ground arith,
    )
  ]
  | inr ((ok n, plain), e) ↦ (n, inr (inl (plain, e)), ground arith)
  | inr ((err (type_error why), ok n), e) ↦ (n, inr (inr (why, e)), ground arith)
  | inr ((err (type_error why), err w), e) ↦ absurd (ground arith)
  | inr ((err _, plain), e) ↦ absurd (ground arith)
]

module _ {F : Type 0} where
  -- An order of the account and market that the broker may not have taken into account yet.
  pub IsWaiting : String → String → Option ℕ → OrderSide → ℕ → LedgerOrder F → Type 0
  IsWaiting account market excluded side oid o =
      (o.account_key ≡ account)
      × (o.market ≡ market)
      × (holds_capacity o.status ≡ true)
      × (excluded ≢ some oid)
      × (o.side ≡ side)

  -- n is the number of shares of the symbol that wait to be sold.
  pub HeldShares : String → String → String → Option ℕ → Rows (LedgerOrder F) → ℕ → Type 0
  HeldShares account market symbol excluded [] n = n ≡ 0
  HeldShares account market symbol excluded ((oid, o) ∷ r) n =
      (m : ℕ) × HeldShares account market symbol excluded r m
      × (((IsWaiting account market excluded sell_side oid o × (o.symbol ≡ symbol))
            × (n ≡ (o.requested_qty - o.filled_qty) + m))
          ⊎ ((¬ (IsWaiting account market excluded sell_side oid o × (o.symbol ≡ symbol)))
              × (n ≡ m)))

four :
    (a b c d : Bool) → (a && b && c && d) ≡ true → (a ≡ true) × (b ≡ true) × (c ≡ true) × (d ≡ true)
four a b c d h = ground arith

two : (a b : Bool) → (a && b) ≡ true → (a ≡ true) × (b ≡ true)
two a b h = ground arith

sells-side : (s : OrderSide) → sells s ≡ true → s ≡ sell_side
sells-side s h = ground arith

buys-side : (s : OrderSide) → not (sells s) ≡ true → s ≡ buy_side
buys-side s h = ground arith

not_excluded :
    (excluded : Option ℕ) (oid : ℕ) → excluded ≢ some oid → is_excluded excluded oid ≡ false
not_excluded none oid h = refl
not_excluded (some x) oid h = ground arith

excluded_ne :
    (excluded : Option ℕ) (oid : ℕ) → not (is_excluded excluded oid) ≡ true → excluded ≢ some oid
excluded_ne none oid h e = absurd (ground arith)
excluded_ne (some x) oid h e = absurd (ground arith)

module _ {F : Type 0} ⦃fl : Float F⦄ where
  module _ (account market : String) (excluded : Option ℕ) where
    IsWaiting-is_local :
        (side : OrderSide) (oid : ℕ) (o : LedgerOrder F)
        → IsWaiting account market excluded side oid o
        → is_local account market excluded oid o ≡ true
    unfolding IsWaiting
    IsWaiting-is_local side oid o (a, m, h, x, s) =
        let a' = (eq_iff o.account_key account).1 a in
        let m' = (eq_iff o.market market).1 m in
        let x' = not_excluded excluded oid x in ground arith

    side_of :
        (side : OrderSide) (oid : ℕ) (o : LedgerOrder F)
        → IsWaiting account market excluded side oid o
        → o.side ≡ side
    unfolding IsWaiting
    side_of side oid o (_, _, _, _, s) = s

    is_local-IsWaiting :
        (side : OrderSide) (oid : ℕ) (o : LedgerOrder F)
        → is_local account market excluded oid o ≡ true
        → o.side ≡ side
        → IsWaiting account market excluded side oid o
    unfolding IsWaiting
    is_local-IsWaiting side oid o h s =
        let (a, m, st, x) =
          four (str_eq o.account_key account) (str_eq o.market market) (holds_capacity o.status)
            (not (is_excluded excluded oid)) h in
        (
          (eq_iff o.account_key account).0 a,
          (eq_iff o.market market).0 m,
          st,
          excluded_ne excluded oid x,
          s,
        )

    sale-cases :
        (oid : ℕ) (o : LedgerOrder F)
        → (((is_local account market excluded oid o && sells o.side) ≡ true)
            × IsWaiting account market excluded sell_side oid o)
          ⊎ (((is_local account market excluded oid o && sells o.side) ≡ false)
              × (¬ IsWaiting account market excluded sell_side oid o))
    sale-cases oid o = elim (Bool-cases (is_local account market excluded oid o && sells o.side)) [
      | inl waits ↦
          let (local, sale) = two (is_local account market excluded oid o) (sells o.side) waits in
          inl (waits, is_local-IsWaiting sell_side oid o local (sells-side o.side sale))
      | inr other ↦ inr (
        other,
        λ w.
            let sale : sells o.side ≡ true = ap sells (side_of sell_side oid o w) in
            let local = IsWaiting-is_local sell_side oid o w in ground arith,
      )
    ]

    purchase-cases :
        (oid : ℕ) (o : LedgerOrder F)
        → (((is_local account market excluded oid o && not (sells o.side)) ≡ true)
            × IsWaiting account market excluded buy_side oid o)
          ⊎ (((is_local account market excluded oid o && not (sells o.side)) ≡ false)
              × (¬ IsWaiting account market excluded buy_side oid o))
    purchase-cases oid o =
        elim (Bool-cases (is_local account market excluded oid o && not (sells o.side))) [
          | inl waits ↦
              let (local, purchase) =
                two (is_local account market excluded oid o) (not (sells o.side)) waits in
              inl (waits, is_local-IsWaiting buy_side oid o local (buys-side o.side purchase))
          | inr other ↦ inr (
            other,
            λ w.
                let purchase : sells o.side ≡ false = ap sells (side_of buy_side oid o w) in
                let local = IsWaiting-is_local buy_side oid o w in ground arith,
          )
        ]

    -- The shares that the check reserves are the ones that wait to be sold.
    pub reserved_sell-HeldShares :
        (symbol : String) (r : Rows (LedgerOrder F))
        → HeldShares account market symbol excluded r
            (reserved_sell account market symbol excluded r)
    unfolding HeldShares reserved_sell
    reserved_sell-HeldShares symbol [] = refl
    reserved_sell-HeldShares symbol ((oid, o) ∷ r) = (
      reserved_sell account market symbol excluded r,
      reserved_sell-HeldShares symbol r,
      elim (sale-cases oid o) [
        | inl (waits, w) ↦ elim (Bool-cases (str_eq o.symbol symbol)) [
          | inl same ↦ inl ((w, (eq_iff o.symbol symbol).0 same), ground arith)
          | inr other ↦ inr (λ (_, e). str_ne o.symbol symbol other e, ground arith)
        ]
        | inr (other, no_wait) ↦ inr (λ (w, _). no_wait w, ground arith)
      ],
    )

    module _ ⦃pr : PriceReader F⦄ where
      -- sum is what these orders' purchases hold, added to start in the order of the rows: each of
      -- them the open quantity at its price, or at the confirmed reference price if it has none.
      pub HeldCash : List LedgerEvent → Rows (LedgerOrder F) → F → F → Type 0
      HeldCash events [] start sum = sum ≡ start
      HeldCash events ((oid, o) ∷ r) start sum =
          (next : F) × HeldCash events r next sum
          × ((IsWaiting account market excluded buy_side oid o
                × (next
                    ≡ fl.add start (
                        fl.mul (fl.of_nat (o.requested_qty - o.filled_qty))
                          (reserve_price oid o events))))
              ⊎ ((¬ IsWaiting account market excluded buy_side oid o) × (next ≡ start)))

      pub reserved_cash-HeldCash :
          (events : List LedgerEvent) (r : Rows (LedgerOrder F)) (start : F)
          → HeldCash events r start (reserved_cash account market excluded events r start)
      unfolding HeldCash reserved_cash
      reserved_cash-HeldCash events [] start = refl
      reserved_cash-HeldCash events ((oid, o) ∷ r) start = (
        _,
        reserved_cash-HeldCash events r _,
        elim (purchase-cases oid o) [
          | inl (waits, w) ↦ inl (w, ground arith)
          | inr (other, no_wait) ↦ inr (no_wait, ground arith)
        ],
      )
