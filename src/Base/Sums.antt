-- ===== src/Base/Sums.antt =====
-- Sums of signed numbers.
use Prim.Native.Nat.{ℕ, ◌+◌, ◌-◌}
use mathlib.Core.Path.{◌≡◌, refl, ◌∙◌}
use native.Mathlib.Omega.{arith}
use hanstock_svc.Base.Ints.{ℤ, pos, negsuc, sub_ℕ, pos_part, neg_part, ◌+ℤ◌, ◌-ℤ◌}

pos_part-sub_ℕ : (a b : ℕ) → pos_part (sub_ℕ a b) ≡ a - b
pos_part-sub_ℕ a b = ground arith

neg_part-sub_ℕ : (a b : ℕ) → neg_part (sub_ℕ a b) ≡ b - a
neg_part-sub_ℕ a b = ground arith

sub_ℕ-parts : (b : ℤ) → sub_ℕ (pos_part b) (neg_part b) ≡ b
sub_ℕ-parts (pos n) = ground arith
sub_ℕ-parts (negsuc n) = ground arith

sub_ℕ-congr : (a b c d : ℕ) → a + d ≡ c + b → sub_ℕ a b ≡ sub_ℕ c d
sub_ℕ-congr a b c d h = ground arith

add_parts : (a b : ℤ) → a +ℤ b ≡ sub_ℕ (pos_part a + pos_part b) (neg_part a + neg_part b)
unfolding ◌+ℤ◌
add_parts a b = refl

parts-add :
    (a b : ℤ)
    → (pos_part (a +ℤ b) ≡ pos_part a + pos_part b - (neg_part a + neg_part b))
      × (neg_part (a +ℤ b) ≡ neg_part a + neg_part b - (pos_part a + pos_part b))
unfolding ◌+ℤ◌
parts-add a b = (
  pos_part-sub_ℕ (pos_part a + pos_part b) (neg_part a + neg_part b),
  neg_part-sub_ℕ (pos_part a + pos_part b) (neg_part a + neg_part b),
)

parts-sub :
    (a b : ℤ)
    → (pos_part (a -ℤ b) ≡ pos_part a + neg_part b - (neg_part a + pos_part b))
      × (neg_part (a -ℤ b) ≡ neg_part a + pos_part b - (pos_part a + neg_part b))
unfolding ◌-ℤ◌
parts-sub a b = (
  pos_part-sub_ℕ (pos_part a + neg_part b) (neg_part a + pos_part b),
  neg_part-sub_ℕ (pos_part a + neg_part b) (neg_part a + pos_part b),
)

balance :
    (pf nf pa na pb nb p1 n1 p2 n2 p3 n3 : ℕ)
    → p1 ≡ pf + pa - (nf + na)
    → n1 ≡ nf + na - (pf + pa)
    → p2 ≡ pb + n1 - (nb + p1)
    → n2 ≡ nb + p1 - (pb + n1)
    → p3 ≡ p2 + pa - (n2 + na)
    → n3 ≡ n2 + na - (p2 + pa)
    → pf + p3 + nb ≡ pb + (nf + n3)
balance pf nf pa na pb nb p1 n1 p2 n2 p3 n3 a b c d e f = omega arith

-- An adjustment by what a total lacks makes the total right.
pub add-adjust : (f a b : ℤ) → f +ℤ ((b -ℤ (f +ℤ a)) +ℤ a) ≡ b
add-adjust f a b =
    let t1 = f +ℤ a in
    let t2 = b -ℤ t1 in
    let t3 = t2 +ℤ a in
    let (p1, n1) = parts-add f a in
    let (p2, n2) = parts-sub b t1 in
    let (p3, n3) = parts-add t2 a in
    add_parts f t3
    ∙ sub_ℕ-congr (pos_part f + pos_part t3) (neg_part f + neg_part t3) (pos_part b) (neg_part b) (
        balance (pos_part f) (neg_part f) (pos_part a) (neg_part a) (pos_part b) (neg_part b)
          (pos_part t1) (neg_part t1) (pos_part t2) (neg_part t2) (pos_part t3) (neg_part t3) p1 n1
          p2 n2 p3 n3)
    ∙ sub_ℕ-parts b
