-- ===== src/Go/Float64.antt =====
-- The finite values of Go's float64, its conversion to int64, and the float64 that encoding/json
-- decodes from an integer literal.
use bingsan.Prelude.{
  ℕ, zero, suc, ◌+◌, ◌-◌, ◌*◌, ◌/◌, ◌%◌, ◌^◌, ◌≤◌, ◌<◌, ◌≡◌, ◌≢◌, Bool, true, false, ◌&&◌, ◌||◌,
  arith, ltb, eqb, if◌then◌else◌,
}
use bingsan.Prelude.Int.{ℤ, pos, negsuc, pos_part, neg_part, min_int64, in_int64}
use native.Mathlib.Nat.{pow-suc, mul_assoc, div-le_self}

-- A sign, and mantissa * 2 ^ scale.
pub record Float64 : Type 0 where
  pub negative : Bool
  pub mantissa : ℕ
  pub scale : ℤ

-- A mantissa has 53 bits.
abbrev pub IsFloat64 : Float64 → Type 0
IsFloat64 f = f.mantissa < 2 ^ 53

abbrev pub signed : Bool → ℕ → ℤ
signed false n = pos n
signed true zero = pos 0
signed true (suc n) = negsuc n

-- The fraction is dropped, towards zero.
scaled : ℕ → ℤ → ℕ
scaled m (pos e) = m * 2 ^ e
scaled m (negsuc d) = m / 2 ^ suc d

-- `int64(f)`. The language leaves a value out of range to the implementation; on amd64 it is the
-- least integer.
unfoldable pub to_int64 : Float64 → ℤ
unfolding scaled
to_int64 f =
    let n = signed f.negative (scaled f.mantissa f.scale) in if in_int64 n then n else min_int64

-- How often `n` is halved until 53 bits are enough.
excess : ℕ → ℕ → ℕ
excess zero n = 0
excess (suc fuel) n = let rest = excess fuel (n / 2) in if ltb n (2 ^ 53) then 0 else suc rest

-- `n / 2 ^ k` rounded to the nearest, and to even where two are as near.
round_half_even : ℕ → ℕ → ℕ
round_half_even n k =
    let q = n / 2 ^ k in
    let r = n % 2 ^ k in
    let half = 2 ^ (k - 1) in if ltb half r || eqb r half && eqb (q % 2) 1 then q + 1 else q

of_magnitude : Bool → ℕ → Float64
of_magnitude s n =
    let k = excess 64 n in
    let q = round_half_even n k in
    if eqb k 0
    then record { negative = s; mantissa = n; scale = pos 0 }
    else if eqb q (2 ^ 53)
    then record { negative = s; mantissa = 2 ^ 52; scale = pos (k + 1) }
    else record { negative = s; mantissa = q; scale = pos k }

unfoldable pub of_int64 : ℤ → Float64
unfolding of_magnitude excess round_half_even
of_int64 (pos n) = of_magnitude false n
of_int64 (negsuc n) = of_magnitude true (suc n)

lt→ltb : (a b : ℕ) → a < b → ltb a b ≡ true
lt→ltb a b h = ground arith

excess_small : (n : ℕ) → n < 2 ^ 53 → excess 64 n ≡ 0
unfolding excess
excess_small n h = rw (lt→ltb n (2 ^ 53) h)

scaled_whole : (n : ℕ) → scaled n (pos 0) ≡ n
unfolding scaled
scaled_whole n = omega arith

of_magnitude_small :
    (s : Bool) (n : ℕ)
    → n < 2 ^ 53
    → of_magnitude s n ≡ record { negative = s; mantissa = n; scale = pos 0 }
unfolding of_magnitude
of_magnitude_small s n h = rw (excess_small n h)

-- An integer of at most 53 bits survives the trip through float64.
pub to_int64-of_int64 : (n : ℤ) → pos_part n + neg_part n < 2 ^ 53 → to_int64 (of_int64 n) ≡ n
unfolding to_int64 of_int64
to_int64-of_int64 (pos n) h =
    rw (of_magnitude_small false n (omega arith), scaled_whole n) (ground arith)
to_int64-of_int64 (negsuc n) h =
    rw (of_magnitude_small true (suc n) (omega arith), scaled_whole (suc n)) (ground arith)

even_double : (m e : ℕ) → m * 2 ^ suc e % 2 ≡ 0
even_double m e = rw (pow-suc 2 e, ← mul_assoc m (2 ^ e) 2) (omega arith)

scaled-ne_odd : (m n : ℕ) (e : ℤ) → m < 2 ^ 53 → 2 ^ 53 ≤ n → n % 2 ≡ 1 → scaled m e ≢ n
unfolding scaled
scaled-ne_odd m n (pos zero) h big odd eq = omega arith
scaled-ne_odd m n (pos (suc e)) h big odd eq = ground (arith, even_double m e)
scaled-ne_odd m n (negsuc d) h big odd eq = omega (arith, div-le_self m (2 ^ suc d))

signed-pos : (s : Bool) (k n : ℕ) → signed s k ≡ pos n → k ≡ n
signed-pos false k n h = ground arith
signed-pos true zero n h = ground arith
signed-pos true (suc k) n h = ground arith

-- A float64 holds no odd integer of more than 53 bits.
pub to_int64-ne_odd :
    (f : Float64) (n : ℕ) → IsFloat64 f → 2 ^ 53 ≤ n → n % 2 ≡ 1 → to_int64 f ≢ pos n
unfolding to_int64
to_int64-ne_odd f n h big odd eq = ground (
  arith,
  scaled-ne_odd f.mantissa n f.scale h big odd,
  signed-pos f.negative (scaled f.mantissa f.scale) n,
)
