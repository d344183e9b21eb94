-- ===== src/Wire/Dates.antt =====
-- Dates: the part of `time.Time` that p11kit/rpc.go reads and sets, and the decimal text of
-- `strconv.AppendUint` and `strconv.ParseUint`.
pub mod RoundTrip
use go_p11_kit.Base.{
  ℕ, zero, suc, ◌+◌, ◌-◌, ◌*◌, ◌/◌, ◌%◌, ◌^◌, Bool, not, ◌&&◌, ◌||◌, Option, none, some, [], ◌∷◌,
  ◌++◌, ltb, leb, ◌==◌, if◌then◌else◌, length, take, drop,
}
use go_p11_kit.Base.Int.{ℤ, pos, negsuc, succ, pred, nat_abs}
use go_p11_kit.Wire.Buffer.{Bytes, Reader}

-- The civil date that `Year`, `Month` and `Day` report; the time of day is never looked at.
pub record Time : Type 0 where
  pub year : ℤ
  pub month : ℕ
  pub day : ℕ

abbrev pub is_leap : ℤ → Bool
is_leap y = nat_abs y % 4 == 0 && (not (nat_abs y % 100 == 0) || nat_abs y % 400 == 0)

unfoldable pub days_in : ℤ → ℕ → ℕ
days_in y m =
    if m == 2
    then (if is_leap y then 29 else 28)
    else if m == 4 || m == 6 || m == 9 || m == 11
    then 30
    else 31

-- Days past the end of the month move on to the next one. Each round takes 28 days at least off
-- `day`, so as many rounds as days are enough.
unfoldable pub roll : ℕ → ℤ → ℕ → ℕ → Time
unfolding days_in
roll zero y m d = record { year = y; month = m; day = d }
roll (suc fuel) y m d =
    let later =
      (if m == 12
        then roll fuel (succ y) 1 (d - days_in y m)
        else roll fuel y (m + 1) (d - days_in y m)) in
    if leb d (days_in y m) then record { year = y; month = m; day = d } else later

-- Day 0 is the last day of the month before.
unfoldable pub month_days : ℤ → ℕ → ℕ → Time
unfolding roll days_in
month_days y m d =
    if d == 0
    then (if m == 1
        then record { year = pred y; month = 12; day = 31 }
        else record { year = y; month = m - 1; day = days_in y (m - 1) })
    else roll d y m d

-- `time.Date` at midnight UTC, for the numbers that `date` reads: month 0 is the December before.
unfoldable pub time_date : ℕ → ℕ → ℕ → Time
unfolding month_days
time_date y m d =
    if m == 0
    then month_days (pred (pos y)) 12 d
    else month_days (pos (y + (m - 1) / 12)) ((m - 1) % 12 + 1) d

-- `uint64(t.Year())`
abbrev pub uint64_of : ℤ → ℕ
uint64_of (pos n) = n % 2 ^ 64
uint64_of (negsuc n) = (2 ^ 64 - suc n % 2 ^ 64) % 2 ^ 64

-- The decimal digits of a uint64: at most 20.
unfoldable pub digits : ℕ → ℕ → Bytes
digits zero n = []
digits (suc fuel) n =
    let front = digits fuel (n / 10) in
    if ltb n 10 then (48 + n) ∷ [] else front ++ (48 + n % 10) ∷ []

-- strconv.AppendUint(b, n, 10)
unfoldable pub append_uint : Bytes → ℕ → Bytes
unfolding digits
append_uint b n = b ++ digits 20 n

unfoldable pub parse_digits : ℕ → Bytes → Option ℕ
parse_digits acc [] = some acc
parse_digits acc (c ∷ s) =
    let rest = parse_digits (acc * 10 + (c - 48)) s in
    if ltb c 48 || ltb 57 c then none else if leb (2 ^ 64) (acc * 10 + (c - 48)) then none else rest

-- strconv.ParseUint(s, 10, 64): `none` is its error.
unfoldable pub parse_uint : Bytes → Option ℕ
unfolding parse_digits
parse_uint [] = none
parse_uint (c ∷ s) = parse_digits 0 (c ∷ s)

-- The two digits of a month or a day, as `addDate` writes them.
unfoldable pub add_two_digits : Bytes → ℕ → Bytes
unfolding append_uint
add_two_digits b n =
    if leb n 9
    then append_uint (b ++ 48 ∷ []) n
    else if leb 10 n && leb n 99
    then append_uint b n
    else b ++ 48 ∷ 48 ∷ []

-- The four digits of a year; one that has not four is written as zeros.
unfoldable pub add_year : Bytes → ℕ → Bytes
unfolding append_uint
add_year b year =
    if leb 1000 year && leb year 9999 then append_uint b year else b ++ 48 ∷ 48 ∷ 48 ∷ 48 ∷ []

unfoldable pub add_date : Bytes → Time → Bytes
unfolding add_year add_two_digits
add_date b t = add_two_digits (add_two_digits (add_year b (uint64_of t.year)) t.month) t.day

-- The rest of `date`, once its three fields are parsed.
abbrev pub date_of : Option ℕ → Option ℕ → Option ℕ → Reader Time
date_of (some y) (some m) (some d) b = (some (time_date y m d), drop 8 b)
date_of _ _ _ b = (none, b)

unfoldable pub date : Reader Time
unfolding parse_uint time_date
date b =
    if ltb (length b) 8
    then (none, b)
    else date_of (parse_uint (take 4 b)) (parse_uint (take 2 (drop 4 b)))
        (parse_uint (take 2 (drop 6 b))) b
