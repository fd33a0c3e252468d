-- ===== src/Prelude/Int.antt =====
-- Go's signed integers: ℤ over the native numbers, with its tests, and int64's range.
use bingsan.Prelude.{
  ℕ, suc, ◌+◌, ◌-◌, ◌^◌, ◌≤◌, ◌<◌, ◌≡◌, ◌↔◌, Bool, true, arith, ltb, leb, eqb, if◌then◌else◌,
}

-- `negsuc n` is -(n + 1).
pub data ℤ : Type 0 where
  pos : ℕ → ℤ
  negsuc : ℕ → ℤ

abbrev pub pos_part : ℤ → ℕ
pos_part (pos n) = n
pos_part (negsuc n) = 0

abbrev pub neg_part : ℤ → ℕ
neg_part (pos n) = 0
neg_part (negsuc n) = suc n

infix 50 ◌≤ℤ◌ ◌<ℤ◌
abbrev pub ◌≤ℤ◌ : ℤ → ℤ → Type 0
a ≤ℤ b = pos_part a + neg_part b ≤ pos_part b + neg_part a

abbrev pub ◌<ℤ◌ : ℤ → ℤ → Type 0
a <ℤ b = pos_part a + neg_part b < pos_part b + neg_part a

abbrev pub ltb_ℤ : ℤ → ℤ → Bool
ltb_ℤ a b = ltb (pos_part a + neg_part b) (pos_part b + neg_part a)

abbrev pub leb_ℤ : ℤ → ℤ → Bool
leb_ℤ a b = leb (pos_part a + neg_part b) (pos_part b + neg_part a)

abbrev pub eqb_ℤ : ℤ → ℤ → Bool
eqb_ℤ (pos m) (pos n) = eqb m n
eqb_ℤ (negsuc m) (negsuc n) = eqb m n
eqb_ℤ (pos m) (negsuc n) = Bool.false
eqb_ℤ (negsuc m) (pos n) = Bool.false

pub eqb_ℤ_iff : (a b : ℤ) → (eqb_ℤ a b ≡ true) ↔ (a ≡ b)
eqb_ℤ_iff a b = ground arith

-- `int` and `int64`: both have 64 bits.
abbrev pub max_int64 : ℕ
max_int64 = 2 ^ 63 - 1

abbrev pub min_int64 : ℤ
min_int64 = negsuc max_int64

abbrev pub in_int64 : ℤ → Bool
in_int64 (pos n) = leb n max_int64
in_int64 (negsuc n) = leb n max_int64

-- `n + 1` on an `int`, which wraps round at the greatest value.
abbrev pub add_one : ℤ → ℤ
add_one (pos n) = if eqb n max_int64 then min_int64 else pos (n + 1)
add_one (negsuc n) = if eqb n 0 then pos 0 else negsuc (n - 1)

-- `a + n` for a number `n` that is not negative.
unfoldable pub shift : ℤ → ℕ → ℤ
shift (pos a) n = pos (a + n)
shift (negsuc a) n = if leb n a then negsuc (a - n) else pos (n - suc a)

pub shift_parts :
    (a : ℤ) (n : ℕ) → pos_part (shift a n) + neg_part a ≡ pos_part a + n + neg_part (shift a n)
unfolding shift
shift_parts (pos a) n = omega arith
shift_parts (negsuc a) n = ground arith

-- `a + d` on ℤ.
abbrev pub ◌+ℤ◌ : ℤ → ℤ → ℤ
a +ℤ pos n = shift a n
pos a +ℤ negsuc n = if leb (suc n) a then pos (a - suc n) else negsuc (n - a)
negsuc a +ℤ negsuc n = negsuc (a + suc n)

infix 60 ◌+ℤ◌
