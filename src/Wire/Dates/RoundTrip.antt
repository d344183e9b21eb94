-- ===== src/Wire/Dates/RoundTrip.antt =====
-- `addDate` and `date` of p11kit/rpc.go, one after the other.
use go_p11_kit.Base.{
  ℕ, zero, suc, ◌+◌, ◌-◌, ◌*◌, ◌/◌, ◌%◌, ◌^◌, ◌≤◌, ◌<◌, ◌≡◌, refl, ap, some, [], ◌∷◌, ◌++◌, arith,
  append_assoc, ltb, length, false,
}
use go_p11_kit.Base.Int.{ℤ, pos}
use go_p11_kit.Wire.Buffer.{Bytes}
use go_p11_kit.Wire.Dates.{
  days_in, roll, month_days, time_date, digits, append_uint, parse_digits, parse_uint,
  add_two_digits, add_year, add_date, date,
}

-- The dates whose year has four digits.
pub record IsFourDigit (y m d : ℕ) : Type 0 where
  pub year_low : 1000 ≤ y
  pub year_high : y ≤ 9999
  pub month_low : 1 ≤ m
  pub month_high : m ≤ 12
  pub day_low : 1 ≤ d
  pub day_high : d ≤ days_in (pos y) m

abbrev four_digits : ℕ → Bytes
four_digits y =
    (48 + y / 10 / 10 / 10) ∷ (48 + y / 10 / 10 % 10) ∷ (48 + y / 10 % 10) ∷ (48 + y % 10) ∷ []

abbrev two_digits : ℕ → Bytes
two_digits n = (48 + n / 10) ∷ (48 + n % 10) ∷ []

one_digit_lem : (fuel n : ℕ) → n < 10 → digits (suc fuel) n ≡ (48 + n) ∷ []
unfolding digits
one_digit_lem fuel n h = ground arith

more_digits_lem :
    (fuel n : ℕ) → 10 ≤ n → digits (suc fuel) n ≡ digits fuel (n / 10) ++ (48 + n % 10) ∷ []
unfolding digits
more_digits_lem fuel n h = ground arith

digits-two : (fuel n : ℕ) → 10 ≤ n → n ≤ 99 → digits (suc (suc fuel)) n ≡ two_digits n
digits-two fuel n h k =
    rw (more_digits_lem (suc fuel) n h, one_digit_lem fuel (n / 10) (omega arith)) refl

digits-four :
    (fuel y : ℕ) → 1000 ≤ y → y ≤ 9999 → digits (suc (suc (suc (suc fuel)))) y ≡ four_digits y
digits-four fuel y h k = rw (
  more_digits_lem (suc (suc (suc fuel))) y (omega arith),
  more_digits_lem (suc (suc fuel)) (y / 10) (omega arith),
  digits-two fuel (y / 10 / 10) (omega arith) (omega arith),
)

parse_digit :
    (acc k : ℕ) (s : Bytes)
    → k < 10
    → acc < 10000
    → parse_digits acc ((48 + k) ∷ s) ≡ parse_digits (acc * 10 + k) s
unfolding parse_digits
parse_digit acc k s h g = ground (arith, plus_zero k)
  where
    plus_zero : (k : ℕ) → 48 + k - 48 ≡ k
    plus_zero k = omega arith

parse_uint-two : (n : ℕ) → n ≤ 99 → parse_uint (two_digits n) ≡ some n
unfolding parse_uint
parse_uint-two n h =
    rw
      (
        parse_digit 0 (n / 10) _ (omega arith) (omega arith),
        parse_digit (0 * 10 + n / 10) (n % 10) [] (omega arith) (omega arith),
      )
      (unfold parse_digits in ap some (omega arith))

parse_uint-four : (y : ℕ) → y ≤ 9999 → parse_uint (four_digits y) ≡ some y
unfolding parse_uint
parse_uint-four y h =
    rw
      (
        parse_digit 0 (y / 10 / 10 / 10) _ (omega arith) (omega arith),
        parse_digit (0 * 10 + y / 10 / 10 / 10) (y / 10 / 10 % 10) _ (omega arith) (omega arith),
        parse_digit ((0 * 10 + y / 10 / 10 / 10) * 10 + y / 10 / 10 % 10) (y / 10 % 10) _
            (omega arith) (omega arith),
        parse_digit (((0 * 10 + y / 10 / 10 / 10) * 10 + y / 10 / 10 % 10) * 10 + y / 10 % 10)
            (y % 10) [] (omega arith) (omega arith),
      )
      (unfold parse_digits in ap some (omega arith))

add_two_digits_lem : (b : Bytes) (n : ℕ) → n ≤ 99 → add_two_digits b n ≡ b ++ two_digits n
unfolding add_two_digits append_uint
add_two_digits_lem b n h =
    ground (arith, one_digit_lem 19 n, digits-two 18 n, append_assoc b (48 ∷ []) ((48 + n) ∷ []))

add_year_lem : (b : Bytes) (y : ℕ) → 1000 ≤ y → y ≤ 9999 → add_year b y ≡ b ++ four_digits y
unfolding add_year append_uint
add_year_lem b y h k = ground (arith, digits-four 16 y h k)

pub add_date_lem :
    (b : Bytes) (y m d : ℕ)
    → 1000 ≤ y
    → y ≤ 9999
    → m ≤ 99
    → d ≤ 99
    → add_date b (record { year = pos y; month = m; day = d })
      ≡ b ++ (four_digits y ++ (two_digits m ++ two_digits d))
unfolding add_date
add_date_lem b y m d h k hm hd =
    rw (small_year, add_year_lem b y h k, add_two_digits_lem _ m hm, add_two_digits_lem _ d hd)
      (simp append_assoc)
  where
    small_year : y % 2 ^ 64 ≡ y
    small_year = omega arith

days_in_bound : (y : ℤ) (m : ℕ) → days_in y m ≤ 31
unfolding days_in
days_in_bound y m = ground arith

roll_lem :
    (fuel : ℕ) (y : ℤ) (m d : ℕ)
    → d ≤ days_in y m
    → roll fuel y m d ≡ record { year = y; month = m; day = d }
unfolding roll
roll_lem zero y m d h = refl
roll_lem (suc fuel) y m d h = ground arith

month_days_lem :
    (y : ℤ) (m d : ℕ)
    → 1 ≤ d
    → d ≤ days_in y m
    → month_days y m d ≡ record { year = y; month = m; day = d }
unfolding month_days
month_days_lem y m d h k = ground (arith, roll_lem d y m d k)

time_date_lem :
    (y m d : ℕ) → IsFourDigit y m d → time_date y m d ≡ record { year = pos y; month = m; day = d }
unfolding time_date
time_date_lem y m d v =
    ground (arith, same_year, same_month, month_days_lem (pos y) m d v.day_low v.day_high)
  where
    same_year : y + (m - 1) / 12 ≡ y
    same_year = omega arith

    same_month : (m - 1) % 12 + 1 ≡ m
    same_month = omega arith

eight_or_more : (n : ℕ) → ltb (suc (suc (suc (suc (suc (suc (suc (suc n)))))))) 8 ≡ false
eight_or_more n = ground arith

-- `date` reads a date of a four-digit year back from the text that `addDate` wrote, and leaves what
-- follows.
pub date-add_date :
    (y m d : ℕ) (rest : Bytes)
    → IsFourDigit y m d
    → date (add_date [] (record { year = pos y; month = m; day = d }) ++ rest)
      ≡ (some (record { year = pos y; month = m; day = d }), rest)
unfolding date
date-add_date y m d rest v = rw (
  add_date_lem [] y m d v.year_low v.year_high (omega arith)
      (omega (arith, days_in_bound (pos y) m)),
  eight_or_more (length rest),
  parse_uint-four y v.year_high,
  parse_uint-two m (omega arith),
  parse_uint-two d (omega (arith, days_in_bound (pos y) m)),
  time_date_lem y m d v,
)
