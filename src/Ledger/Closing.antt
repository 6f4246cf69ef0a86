-- ===== src/Ledger/Closing.antt =====
-- An alignment leaves no issue open (src/application/orders/position_reconciliation.py).
use hanstock_svc.Base.{
  ℕ, String, ◌≡◌, refl, sym, ap, subst, ◌∙◌, Bool, true, false, ◌&&◌, ◌||◌, not, ◌==◌, none, List,
  [], ◌∷◌, Float, Rows, Bool-cases, inl, inr, arith, str_eq, ok,
}
use hanstock_svc.Base.Results.{raise_if-ok, bind-ok}
use hanstock_svc.Ledger.Records.{Issue, LedgerDb}
use hanstock_svc.Ledger.Projection.{Scope, in_scope}
use hanstock_svc.Ledger.Alignment.{
  Aligned, is_open_issue, issue_scope, open_at, has_open, latest_issues, review_issue,
  review_issues, align_issue, align_issues, apply_latest_issues,
}
use hanstock_svc.Ledger.Totals.{in_scope-eq}
use hanstock_svc.Ledger.AlignSteps.{align_issue-ok}

-- Whether an issue of the list is of the position.
unfoldable pub names_scope : Scope → Rows Issue → Bool
names_scope t [] = false
names_scope t ((i, x) ∷ r) = in_scope t x.account_key x.market x.symbol || names_scope t r

-- A review opens nothing.
review_issue-open :
    (j : ℕ) (s t : Scope) (actor now : String) (i : ℕ) (x : Issue)
    → open_at t x ≡ false
    → open_at t (review_issue j s actor now i x) ≡ false
review_issue-open j s t actor now i x h = ground arith

-- It closes what is open at its position.
review_issue-closed :
    (j : ℕ) (s : Scope) (actor now : String) (i : ℕ) (x : Issue)
    → open_at s (review_issue j s actor now i x) ≡ false
review_issue-closed j s actor now i x = elim (Bool-cases (open_at s x)) [
  | inl stands ↦ elim (Bool-cases (i == j)) [ inl same ↦ ground arith | inr other ↦ ground arith ]
  | inr shut ↦ ground arith
]

review_issues-open :
    (j : ℕ) (s t : Scope) (actor now : String) (r : Rows Issue)
    → has_open t r ≡ false
    → has_open t (review_issues j s actor now r) ≡ false
unfolding has_open review_issues
review_issues-open j s t actor now [] h = refl
review_issues-open j s t actor now ((i, x) ∷ r) h =
    let first : open_at t x ≡ false = ground arith in
    let rest : has_open t r ≡ false = ground arith in
    let a = review_issue-open j s t actor now i x first in
    let b = review_issues-open j s t actor now r rest in
    ap (λ u. u || has_open t (review_issues j s actor now r)) a ∙ b

review_issues-closed :
    (j : ℕ) (s : Scope) (actor now : String) (r : Rows Issue)
    → has_open s (review_issues j s actor now r) ≡ false
unfolding has_open review_issues
review_issues-closed j s actor now [] = refl
review_issues-closed j s actor now ((i, x) ∷ r) =
    ap (λ u. u || has_open s (review_issues j s actor now r))
      (review_issue-closed j s actor now i x)
    ∙ review_issues-closed j s actor now r

-- Every position with an open issue has one among the latest.
latest_issues-names_scope :
    (t : Scope) (r : Rows Issue)
    → has_open t r ≡ true
    → names_scope t (latest_issues none none r) ≡ true
unfolding has_open latest_issues names_scope
latest_issues-names_scope t [] h = absurd (ground arith)
latest_issues-names_scope t ((i, x) ∷ r) h = elim (Bool-cases (has_open t r)) [
  | inl later ↦
      let rest = latest_issues-names_scope t r later in
      elim (Bool-cases
        (is_open_issue x.status && not (has_open (issue_scope x) r) && true && true)) [
          | inl taken ↦ ground arith
          | inr left ↦ ground arith
        ]
  | inr last ↦
      let here : open_at t x ≡ true = ground arith in
      let there : in_scope t x.account_key x.market x.symbol ≡ true = ground arith in
      let (a, b, c) = in_scope-eq t x.account_key x.market x.symbol there in
      let same : t ≡ issue_scope x = ground arith in
      let newest : has_open (issue_scope x) r ≡ false = ap (λ u. has_open u r) (sym same) ∙ last in
      ground arith
]

module _ {F : Type 0} ⦃fl : Float F⦄ where
  align_issues-closed :
      (t : Scope) (r : Rows Issue) (actor now : String) (db : LedgerDb F) (xs : List Aligned)
      (db' : LedgerDb F)
      → align_issues r actor now db ≡ ok (xs, db')
      → (has_open t db.issues.rows ≡ true → names_scope t r ≡ true)
      → has_open t db'.issues.rows ≡ false
  unfolding align_issues names_scope
  align_issues-closed t [] actor now db xs db' h k =
      let same : db ≡ db' = ground arith in
      elim (Bool-cases (has_open t db.issues.rows)) [
        | inl stands ↦ absurd (ground (arith, k stands))
        | inr shut ↦ subst (λ d. has_open t d.issues.rows ≡ false) same shut
      ]
  align_issues-closed t ((i, x) ∷ r) actor now db xs db' h k =
      let ((item, db1), e, h1) = bind-ok (align_issue i x actor now db) _ (xs, db') h in
      let ((items, db2), f, h2) = bind-ok (align_issues r actor now db1) _ (xs, db') h1 in
      let (_, same) = align_issue-ok i x actor now db item db1 e in
      let last : db2 ≡ db' = ground arith in
      let s = issue_scope x in
      let rows : db1.issues.rows ≡ review_issues i s actor now db.issues.rows =
        ap (λ d. d.issues.rows) same in
      let rest = align_issues-closed t r actor now db1 items db2 f in
      subst (λ d. has_open t d.issues.rows ≡ false) last
        (rest λ stands. elim (Bool-cases (has_open t db.issues.rows)) [
          | inr shut ↦
              let still =
                ap (has_open t) rows ∙ review_issues-open i s t actor now db.issues.rows shut in
              absurd (ground arith)
          | inl before ↦ elim (Bool-cases (in_scope t x.account_key x.market x.symbol)) [
            | inr off ↦ ground (arith, k before)
            | inl at ↦
                let (a, b, c) = in_scope-eq t x.account_key x.market x.symbol at in
                let here : t ≡ s = ground arith in
                let closed =
                  ap (λ u. has_open u db1.issues.rows) here
                  ∙ ap (has_open s) rows
                  ∙ review_issues-closed i s actor now db.issues.rows in
                absurd (ground arith)
          ]
        ])

  -- An alignment of all accounts and markets that returns leaves no issue open, of any position.
  pub apply_latest_issues-closed :
      (actor now : String) (db : LedgerDb F) (xs : List Aligned) (db' : LedgerDb F) (t : Scope)
      → apply_latest_issues actor none none now db ≡ ok (xs, db')
      → has_open t db'.issues.rows ≡ false
  unfolding apply_latest_issues
  apply_latest_issues-closed actor now db xs db' t h =
      let (_, h1) = raise_if-ok (str_eq actor "") _ _ (xs, db') h in
      align_issues-closed t (latest_issues none none db.issues.rows) actor now db xs db' h1
        (latest_issues-names_scope t db.issues.rows)
