-- ===== src/Auth/Duration.antt =====
-- internal/api/handlers/apikeys.go: `parseDuration`, on a text given by its bytes. `int` and
-- time.Duration have 64 bits and wrap round.
use bingsan.Prelude.{
  ℕ, ◌+◌, ◌-◌, ◌*◌, ◌%◌, ◌^◌, ◌≤◌, ◌<◌, ◌≡◌, refl, true, false, Option, none, some, List, [], ◌∷◌,
  ◌++◌, ap, ◌∙◌, arith, ltb, eqb, ◌||◌, if◌then◌else◌, All,
}
use bingsan.Prelude.Int.{ℤ, pos, negsuc}

-- `x` as a signed number of 64 bits.
abbrev pub to_signed : ℕ → ℤ
to_signed x = let r = x % 2 ^ 64 in if ltb r (2 ^ 63) then pos r else negsuc (2 ^ 64 - 1 - r)

abbrev pub hour : ℕ
hour = 3600000000000

-- The multiplier of a unit, in nanoseconds.
unfoldable pub multiplier : ℕ → Option ℕ
multiplier unit =
    if eqb unit b'd'
    then some (24 * hour)
    else if eqb unit b'w'
    then some (168 * hour)
    else if eqb unit b'm'
    then some (720 * hour)
    else if eqb unit b'y'
    then some (8760 * hour)
    else if eqb unit b'h'
    then some hour
    else none

-- `n = n*10 + int(c-'0')`, modulo 2 ^ 64; `none` at a byte that is no digit.
unfoldable pub parse_digits : ℕ → List ℕ → Option ℕ
parse_digits n [] = some n
parse_digits n (c ∷ cs) =
    let rest = parse_digits ((n * 10 + (c - b'0')) % 2 ^ 64) cs in
    if ltb c b'0' || ltb b'9' c then none else rest

-- The last byte, and those before it.
unfoldable pub split_last : ℕ → List ℕ → List ℕ × ℕ
split_last c [] = ([], c)
split_last c (d ∷ cs) = let (front, l) = split_last d cs in (c ∷ front, l)

abbrev times : Option ℕ → Option ℕ → Option ℤ
times none n = none
times (some m) none = none
times (some m) (some n) = some (to_signed (n * m))

unfoldable pub parse_duration : List ℕ → Option ℤ
parse_duration [] = none
parse_duration (c ∷ []) = none
parse_duration (c ∷ d ∷ cs) =
    let (value, unit) = split_last c (d ∷ cs) in times (multiplier unit) (parse_digits 0 value)

-- A decimal number written with its most significant digit first.
unfoldable pub decimal : ℕ → List ℕ → ℕ
decimal n [] = n
decimal n (c ∷ cs) = decimal (n * 10 + (c - b'0')) cs

abbrev pub IsDigit : ℕ → Type 0
IsDigit c = (b'0' ≤ c) × (c ≤ b'9')

n-le-decimal : (n : ℕ) (cs : List ℕ) → n ≤ decimal n cs
unfolding decimal
n-le-decimal n [] = omega arith
n-le-decimal n (c ∷ cs) = omega (arith, n-le-decimal (n * 10 + (c - b'0')) cs)

parse_digits-eq-decimal :
    (n : ℕ) (cs : List ℕ)
    → All IsDigit cs
    → decimal n cs < 2 ^ 64
    → parse_digits n cs ≡ some (decimal n cs)
unfolding parse_digits decimal
parse_digits-eq-decimal n [] digits fits = refl
parse_digits-eq-decimal n (c ∷ cs) digits fits =
    let m = n * 10 + (c - b'0') in
    let small : m % 2 ^ 64 ≡ m = omega (arith, n-le-decimal m cs, fits) in
    let good : (ltb c b'0' || ltb b'9' c) ≡ false = ground (arith, digits.0) in
    rw (good, small) (parse_digits-eq-decimal m cs digits.1 fits)

split_last-append : (c u : ℕ) (cs : List ℕ) → split_last c (cs ++ u ∷ []) ≡ (c ∷ cs, u)
unfolding split_last
split_last-append c u [] = refl
split_last-append c u (d ∷ cs) = rw (split_last-append d u cs)

parse_duration-append :
    (c u : ℕ) (cs : List ℕ)
    → parse_duration (c ∷ (cs ++ u ∷ [])) ≡ times (multiplier u) (parse_digits 0 (c ∷ cs))
unfolding parse_duration
parse_duration-append c u [] = rw (split_last-append c u [])
parse_duration-append c u (d ∷ cs) = rw (split_last-append c u (d ∷ cs))

to_signed_small : (x : ℕ) → x < 2 ^ 63 → to_signed x ≡ pos x
to_signed_small x h =
    let whole : x % 2 ^ 64 ≡ x = omega (arith, h) in
    let test : ltb x (2 ^ 63) ≡ true = ground (arith, h) in rw (whole, test) refl

to_signed_large : (x : ℕ) → 2 ^ 63 ≤ x → x < 2 ^ 64 → to_signed x ≡ negsuc (2 ^ 64 - 1 - x)
to_signed_large x h k =
    let whole : x % 2 ^ 64 ≡ x = omega (arith, k) in
    let test : ltb x (2 ^ 63) ≡ false = ground (arith, h) in rw (whole, test) refl

module _ (c u m : ℕ) (cs : List ℕ) (digits : All IsDigit (c ∷ cs)) (unit : multiplier u ≡ some m)
    (small : decimal 0 (c ∷ cs) < 2 ^ 64) where
  parse_duration-digits :
      parse_duration (c ∷ (cs ++ u ∷ [])) ≡ some (to_signed (decimal 0 (c ∷ cs) * m))
  parse_duration-digits =
      rw (parse_duration-append c u cs, unit, parse_digits-eq-decimal 0 (c ∷ cs) digits small)

  -- A decimal number with a unit is read as that many units, if they are less than 2 ^ 63
  -- nanoseconds, which are 292 years.
  pub parse_duration-eq :
      decimal 0 (c ∷ cs) * m < 2 ^ 63
      → parse_duration (c ∷ (cs ++ u ∷ [])) ≡ some (pos (decimal 0 (c ∷ cs) * m))
  parse_duration-eq fits =
      parse_duration-digits ∙ ap some (to_signed_small (decimal 0 (c ∷ cs) * m) fits)

  -- From 2 ^ 63 to 2 ^ 64 nanoseconds it is read without an error as a negative duration.
  pub parse_duration-wraps :
      2 ^ 63 ≤ decimal 0 (c ∷ cs) * m
      → decimal 0 (c ∷ cs) * m < 2 ^ 64
      → (k : ℕ) × (parse_duration (c ∷ (cs ++ u ∷ [])) ≡ some (negsuc k))
  parse_duration-wraps more less = (
    2 ^ 64 - 1 - decimal 0 (c ∷ cs) * m,
    parse_duration-digits ∙ ap some (to_signed_large (decimal 0 (c ∷ cs) * m) more less),
  )
