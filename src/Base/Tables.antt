-- ===== src/Base/Tables.antt =====
-- SQL tables with an AUTOINCREMENT key, as lists of numbered rows in the order of their ids.
use Prim.Native.Nat.{ℕ, suc, ◌+◌, ◌<◌}
use mathlib.Core.Path.{◌≡◌, refl}
use mathlib.Core.Logic.{◌≢◌, inl, inr}
use mathlib.Core.Bool.{Bool, true}
use mathlib.Core.Option.{Option, none, some}
use mathlib.Core.List.{List, [], ◌∷◌}
use native.Mathlib.Omega.{arith}
use hanstock_svc.Base.Tests.{◌==◌, if◌then◌else◌, Bool-cases}

abbrev pub Rows : Type 0 → Type 0
Rows A = List (ℕ × A)

pub record Table (A : Type 0) : Type 0 where
  pub next_id : ℕ
  pub rows : Rows A

module _ {A : Type 0} where
  -- SELECT * … WHERE id=?
  unfoldable pub find_row : ℕ → Rows A → Option A
  find_row i [] = none
  find_row i ((j, a) ∷ r) = if i == j then some a else find_row i r

  -- UPDATE … WHERE id=?
  unfoldable pub update_row : ℕ → (A → A) → Rows A → Rows A
  update_row i f [] = []
  update_row i f ((j, a) ∷ r) = (j, if i == j then f a else a) ∷ update_row i f r

  -- SELECT * … WHERE test, the one with the lowest id.
  unfoldable pub find_where : (A → Bool) → Rows A → Option (ℕ × A)
  find_where p [] = none
  find_where p ((j, a) ∷ r) = if p a then some (j, a) else find_where p r

  -- SELECT * … WHERE test ORDER BY id DESC LIMIT 1
  unfoldable pub find_last : (A → Bool) → Rows A → Option (ℕ × A)
  find_last p [] = none
  find_last p ((j, a) ∷ r) = elim (find_last p r) [
    | none ↦ if p a then some (j, a) else none
    | some x ↦ some x
  ]

  unfoldable pub append_row : ℕ → A → Rows A → Rows A
  append_row i a [] = (i, a) ∷ []
  append_row i a (x ∷ r) = x ∷ append_row i a r

  -- INSERT: the new row takes the next id.
  abbrev pub insert_row : A → Table A → Table A
  insert_row a t = record { next_id = suc t.next_id; rows = append_row t.next_id a t.rows }

  abbrev pub get_row : ℕ → Table A → Option A
  get_row i t = find_row i t.rows

  abbrev pub set_row : ℕ → (A → A) → Table A → Table A
  set_row i f t = record t { rows = update_row i f t.rows }

  -- SELECT SUM(g) over the rows that pass the test
  unfoldable pub sum_where : (A → Bool) → (A → ℕ) → Rows A → ℕ
  sum_where p g [] = 0
  sum_where p g ((j, a) ∷ r) = (if p a then g a else 0) + sum_where p g r

  -- No id occurs twice.
  abbrev pub IsKeyed : Rows A → Type 0
  IsKeyed [] = Unit
  IsKeyed ((j, a) ∷ r) = (find_row j r ≡ none) × IsKeyed r

  -- Every id is below the next one.
  abbrev pub IsBelow : ℕ → Rows A → Type 0
  IsBelow n [] = Unit
  IsBelow n ((j, a) ∷ r) = (j < n) × IsBelow n r

  abbrev pub IsTable : Table A → Type 0
  IsTable t = IsKeyed t.rows × IsBelow t.next_id t.rows

  pub find_row-update_row_self :
      (i : ℕ) (f : A → A) (r : Rows A) (a : A)
      → find_row i r ≡ some a
      → find_row i (update_row i f r) ≡ some (f a)
  unfolding find_row update_row
  find_row-update_row_self i f [] a h = ground arith
  find_row-update_row_self i f (x ∷ r) a h = ground (arith, find_row-update_row_self i f r a)

  pub find_row-update_row_ne :
      (i j : ℕ) (f : A → A) (r : Rows A) → i ≢ j → find_row i (update_row j f r) ≡ find_row i r
  unfolding find_row update_row
  find_row-update_row_ne i j f [] h = refl
  find_row-update_row_ne i j f (x ∷ r) h = ground (arith, find_row-update_row_ne i j f r h)

  pub find_row-update_row-none :
      (i j : ℕ) (f : A → A) (r : Rows A)
      → find_row i r ≡ none
      → find_row i (update_row j f r) ≡ none
  unfolding find_row update_row
  find_row-update_row-none i j f [] h = refl
  find_row-update_row-none i j f (x ∷ r) h = ground (arith, find_row-update_row-none i j f r)

  pub update_row-IsKeyed : (i : ℕ) (f : A → A) (r : Rows A) → IsKeyed r → IsKeyed (update_row i f r)
  unfolding update_row
  update_row-IsKeyed i f [] h = tt
  update_row-IsKeyed i f (x ∷ r) h =
      (find_row-update_row-none x.0 i f r h.0, update_row-IsKeyed i f r h.1)

  pub update_row-IsBelow :
      (n i : ℕ) (f : A → A) (r : Rows A) → IsBelow n r → IsBelow n (update_row i f r)
  unfolding update_row
  update_row-IsBelow n i f [] h = tt
  update_row-IsBelow n i f (x ∷ r) h = (h.0, update_row-IsBelow n i f r h.1)

  pub set_row-IsTable : (i : ℕ) (f : A → A) (t : Table A) → IsTable t → IsTable (set_row i f t)
  set_row-IsTable i f t h =
      (update_row-IsKeyed i f t.rows h.0, update_row-IsBelow t.next_id i f t.rows h.1)

  sum_where-update_row-none :
      (p : A → Bool) (g : A → ℕ) (i : ℕ) (f : A → A) (r : Rows A)
      → find_row i r ≡ none
      → sum_where p g (update_row i f r) ≡ sum_where p g r
  unfolding find_row update_row sum_where
  sum_where-update_row-none p g i f [] h = refl
  sum_where-update_row-none p g i f ((j, b) ∷ r) h =
      ground (arith, sum_where-update_row-none p g i f r)

  -- A row that is updated adds to a sum what it adds to its own term.
  pub sum_where-update_row :
      (p : A → Bool) (g : A → ℕ) (i : ℕ) (f : A → A) (r : Rows A) (a : A)
      → IsKeyed r
      → find_row i r ≡ some a
      → p (f a) ≡ p a
      → sum_where p g (update_row i f r) + (if p a then g a else 0)
        ≡ sum_where p g r + (if p a then g (f a) else 0)
  unfolding find_row update_row sum_where
  sum_where-update_row p g i f [] a k h e = ground arith
  sum_where-update_row p g i f ((j, b) ∷ r) a k h e = elim (Bool-cases (i == j)) [
    | inl here ↦ ground (arith, sum_where-update_row-none p g i f r)
    | inr later ↦ ground (arith, sum_where-update_row p g i f r a k.1)
  ]

  -- The row that is inserted is found where no earlier row passes the test.
  pub find_where-append_row :
      (p : A → Bool) (i : ℕ) (a : A) (r : Rows A)
      → find_where p r ≡ none
      → p a ≡ true
      → find_where p (append_row i a r) ≡ some (i, a)
  unfolding find_where append_row
  find_where-append_row p i a [] h e = ground arith
  find_where-append_row p i a (x ∷ r) h e = ground (arith, find_where-append_row p i a r)

  pub find_row-append_row_self :
      (i : ℕ) (a : A) (r : Rows A) → IsBelow i r → find_row i (append_row i a r) ≡ some a
  unfolding find_row append_row
  find_row-append_row_self i a [] h = ground arith
  find_row-append_row_self i a (x ∷ r) h = ground (arith, find_row-append_row_self i a r h.1)

  pub find_row-append_row_ne :
      (i j : ℕ) (a : A) (r : Rows A) → i ≢ j → find_row i (append_row j a r) ≡ find_row i r
  unfolding find_row append_row
  find_row-append_row_ne i j a [] h = ground arith
  find_row-append_row_ne i j a (x ∷ r) h = ground (arith, find_row-append_row_ne i j a r h)

  -- An insertion hides no row.
  pub find_row-append_row_found :
      (i j : ℕ) (a b : A) (r : Rows A)
      → find_row i r ≡ some a
      → find_row i (append_row j b r) ≡ some a
  unfolding find_row append_row
  find_row-append_row_found i j a b [] h = absurd (ground arith)
  find_row-append_row_found i j a b (x ∷ r) h = ground (arith, find_row-append_row_found i j a b r)

  append_row-IsKeyed :
      (i : ℕ) (a : A) (r : Rows A) → IsKeyed r → IsBelow i r → IsKeyed (append_row i a r)
  unfolding append_row find_row
  append_row-IsKeyed i a [] k b = ground arith
  append_row-IsKeyed i a (x ∷ r) k b =
      ground (arith, append_row-IsKeyed i a r k.1 b.1, find_row-append_row_ne x.0 i a r)

  append_row-IsBelow :
      (n i : ℕ) (a : A) (r : Rows A) → i < n → IsBelow i r → IsBelow n (append_row i a r)
  unfolding append_row
  append_row-IsBelow n i a [] h b = (h, tt)
  append_row-IsBelow n i a (x ∷ r) h b = (omega arith, append_row-IsBelow n i a r h b.1)

  pub insert_row-IsTable : (a : A) (t : Table A) → IsTable t → IsTable (insert_row a t)
  insert_row-IsTable a t h = (
    append_row-IsKeyed t.next_id a t.rows h.0 h.1,
    append_row-IsBelow (suc t.next_id) t.next_id a t.rows (omega arith) h.1,
  )

  -- A row that is there has an id below the next one.
  pub find_row-lt : (n i : ℕ) (a : A) (r : Rows A) → IsBelow n r → find_row i r ≡ some a → i < n
  unfolding find_row
  find_row-lt n i a [] b h = absurd (ground arith)
  find_row-lt n i a (x ∷ r) b h = ground (arith, find_row-lt n i a r b.1)

  find_where-ne :
      (p : A → Bool) (i j : ℕ) (a : A) (r : Rows A)
      → find_where p r ≡ some (i, a)
      → find_row j r ≡ none
      → i ≢ j
  unfolding find_row find_where
  find_where-ne p i j a [] h e = absurd (ground arith)
  find_where-ne p i j a ((k, b) ∷ r) h e = ground (arith, find_where-ne p i j a r)

  -- What a search finds is the row of its id, and passes the test.
  pub find_where-found :
      (p : A → Bool) (i : ℕ) (a : A) (r : Rows A)
      → IsKeyed r
      → find_where p r ≡ some (i, a)
      → (find_row i r ≡ some a) × (p a ≡ true)
  unfolding find_row find_where
  find_where-found p i a [] k h = absurd (ground arith)
  find_where-found p i a ((j, b) ∷ r) k h = elim (Bool-cases (p b)) [
    | inl here ↦ ground arith
    | inr later ↦ ground (arith, find_where-found p i a r k.1, find_where-ne p i j a r)
  ]
