-- ===== src/Server/Calendar/Gregorian.antt =====
-- The dates of the locks against the count of days in the Gregorian calendar.
use blossom_rs.Prelude.{
  sym, subst, Bool, ◌==◌, ◌||◌, if◌then◌else◌, ℕ, zero, suc, ◌+◌, ◌-◌, ◌*◌, ◌/◌, ◌≤◌, ◌<◌, ◌≡◌,
  refl, false, some, List, [], ◌∷◌, nat_key, ltb, length, take, get_elem?, arith, Bool-cases, inl,
  inr,
}
use blossom_rs.Server.Calendar.{
  is_leap_year, year_len, month_days, year_loop, month_loop, enough_years, days_to_date,
}

-- The days before the first of January of the year `y + 1`, from that of the year 1 on.
abbrev pub days_before : ℕ → ℕ
days_before y = 365 * y + y / 4 + y / 400 - y / 100

abbrev pub sum : List ℕ → ℕ
sum [] = 0
sum (n ∷ ns) = n + sum ns

-- A year is a leap year where it has one more day than 365.
abbrev pub leap : ℕ → Bool
leap y = ltb (days_before (y - 1) + 365) (days_before y)

-- Thirty days have April, June, September and November, and February has 28, in a leap year 29.
abbrev pub month_len : Bool → ℕ → ℕ
month_len leap m =
    if m == 2
    then (if leap then 29 else 28)
    else if m == 4 || m == 6 || m == 9 || m == 11
    then 30
    else 31

-- The days of the first months.
abbrev pub days_of_months : Bool → ℕ → ℕ
days_of_months leap zero = 0
days_of_months leap (suc n) = days_of_months leap n + month_len leap (suc n)

-- The number of a day: of the years before, of the months before, and of the days before.
abbrev pub day_number : ℕ → ℕ → ℕ → ℕ
day_number y m d = days_before (y - 1) + days_of_months (leap y) (m - 1) + (d - 1)

leap-is_leap_year : (y : ℕ) → 1 ≤ y → leap y ≡ is_leap_year y
unfolding is_leap_year
leap-is_leap_year y h = ground (arith, h)

-- What the code's table of the months says of the one at a place.
abbrev InTable : Bool → ℕ → Type 0
InTable leap n =
    (sum (take n (month_days leap)) ≡ days_of_months leap n)
    × (get_elem? (month_days leap) n ≡ some (month_len leap (suc n)))

month_days-InTable : (leap : Bool) (n : ℕ) → n < 12 → InTable leap n
month_days-InTable leap zero h = (ground arith, refl)
month_days-InTable leap (suc zero) h = (ground arith, refl)
month_days-InTable leap (suc (suc zero)) h = (ground arith, refl)
month_days-InTable leap (suc (suc (suc zero))) h = (ground arith, refl)
month_days-InTable leap (suc (suc (suc (suc zero)))) h = (ground arith, refl)
month_days-InTable leap (suc (suc (suc (suc (suc zero))))) h = (ground arith, refl)
month_days-InTable leap (suc (suc (suc (suc (suc (suc zero)))))) h = (ground arith, refl)
month_days-InTable leap (suc (suc (suc (suc (suc (suc (suc zero))))))) h = (ground arith, refl)
month_days-InTable leap (suc (suc (suc (suc (suc (suc (suc (suc zero)))))))) h =
    (ground arith, refl)
month_days-InTable leap (suc (suc (suc (suc (suc (suc (suc (suc (suc zero))))))))) h =
    (ground arith, refl)
month_days-InTable leap (suc (suc (suc (suc (suc (suc (suc (suc (suc (suc zero)))))))))) h =
    (ground arith, refl)
month_days-InTable leap (suc (suc (suc (suc (suc (suc (suc (suc (suc (suc (suc zero))))))))))) h =
    (ground arith, refl)
month_days-InTable leap (suc (suc (suc (suc (suc (suc (suc (suc (suc (suc (suc (suc n))))))))))))
      h =
    absurd (omega (arith, h))

days_before-next : (y : ℕ) → 1 ≤ y → days_before (y + 1 - 1) ≡ days_before (y - 1) + year_len y
unfolding year_len is_leap_year
days_before-next y h = ground (arith, h)

long_year : (y : ℕ) → 365 ≤ year_len y
unfolding year_len
long_year y = ground arith

ltb-false : (a b : ℕ) → ltb a b ≡ false → b ≤ a
ltb-false a b h = ground (arith, h)

shifted :
    (before next len remaining sum : ℕ)
    → len ≤ remaining
    → next ≡ before + len
    → next + (remaining - len) ≡ sum
    → before + remaining ≡ sum
shifted before next len remaining sum over e h = omega (arith, over, e, h)

-- Where a loop over the years stops.
record YearOf (y remaining : ℕ) (r : ℕ × ℕ) : Type 0 where
  same : days_before (y - 1) + remaining ≡ days_before (r.0 - 1) + r.1
  later : y ≤ r.0
  within : r.1 < year_len r.0

year_loop-YearOf :
    (fuel y remaining : ℕ)
    → 1 ≤ y
    → remaining < 365 * fuel
    → YearOf y remaining (year_loop fuel y remaining)
unfolding year_loop
year_loop-YearOf zero y remaining pos h = absurd (omega (arith, h))
year_loop-YearOf (suc fuel) y remaining pos h = elim (Bool-cases (ltb remaining (year_len y))) [
  | inl stop ↦
      rw (stop, year_loop)
        (record { same = refl; later = omega arith; within = ground (arith, stop) })
  | inr go_on ↦
      let len = year_len y in
      let over : len ≤ remaining = ltb-false remaining len go_on in
      let rest =
        year_loop-YearOf fuel (y + 1) (remaining - len) (omega arith)
          (omega (arith, h, long_year y, over)) in
      rw (go_on, year_loop)
        (record {
          same =
              shifted (days_before (y - 1)) (days_before (y + 1 - 1)) len remaining _ over
                (days_before-next y pos) rest.same;
          later = omega (arith, rest.later);
          within = rest.within;
        })
]

-- Where the loop over the months stops, as the month's place in the list.
record MonthOf (mds : List ℕ) (m remaining : ℕ) (r : ℕ × ℕ) : Type 0 where
  place : ℕ
  month : r.0 ≡ m + place
  inside : place < length mds
  same : remaining ≡ sum (take place mds) + r.1
  days : ℕ
  long : get_elem? mds place ≡ some days
  within : r.1 < days

month_loop-MonthOf :
    (mds : List ℕ) (m remaining : ℕ)
    → remaining < sum mds
    → MonthOf mds m remaining (month_loop mds m remaining)
unfolding month_loop
month_loop-MonthOf [] m remaining h = absurd (omega (arith, h))
month_loop-MonthOf (md ∷ mds) m remaining h = elim (Bool-cases (ltb remaining md)) [
  | inl stop ↦
      rw (stop, month_loop)
        (record {
          place = 0;
          month = omega arith;
          inside = omega arith;
          same = omega arith;
          days = md;
          long = refl;
          within = ground (arith, stop);
        })
  | inr on ↦
      let rest = month_loop-MonthOf mds (m + 1) (remaining - md) (ground (arith, h, on)) in
      rw (on, month_loop)
        (record {
          place = suc rest.place;
          month = omega (arith, rest.month);
          inside = omega (arith, rest.inside);
          same = ground (arith, rest.same, on);
          days = rest.days;
          long = rest.long;
          within = rest.within;
        })
]

-- The date of a day: its number is that of the day from the first of January 1970 on, its month is one
-- of the twelve, and its day is one of that month in that year.
abbrev pub IsDateOf : ℕ → ℕ × ℕ × ℕ → Type 0
IsDateOf days (y, m, d) =
    (day_number y m d ≡ day_number 1970 1 1 + days)
    × (1970 ≤ y)
    × (1 ≤ m)
    × (m ≤ 12)
    × (1 ≤ d)
    × (d ≤ month_len (leap y) m)

months-year : (y : ℕ) → sum (month_days (is_leap_year y)) ≡ year_len y
unfolding year_len
months-year y = ground arith

date_of :
    (days y remaining m rest : ℕ)
    → YearOf 1970 days (y, remaining)
    → MonthOf (month_days (is_leap_year y)) 0 remaining (m, rest)
    → IsDateOf days (y, m + 1, rest + 1)
date_of days y remaining m rest a b =
    let place : m ≡ b.place = omega (arith, b.month) in
    let before : m + 1 - 1 ≡ b.place = omega (arith, place) in
    let month : m + 1 ≡ suc b.place = omega (arith, place) in
    let year = leap-is_leap_year y (omega (arith, a.later)) in
    let (days_first, len) = month_days-InTable (is_leap_year y) b.place b.inside in
    let within : rest + 1 ≤ month_len (is_leap_year y) (suc b.place) =
      ground (arith, len, b.long, b.within) in
    (
      rw (before, year) (omega (arith, a.same, b.same, days_first)),
      omega (arith, a.later),
      omega arith,
      omega (arith, place, b.inside),
      omega arith,
      subst (λ l. rest + 1 ≤ month_len l (m + 1)) (sym year)
          (subst (λ k. rest + 1 ≤ month_len (is_leap_year y) k) (sym month) within),
    )

-- The date that is computed of a day is its date in the Gregorian calendar, whatever the day: the loop
-- over the years has the fuel that it needs.
pub days_to_date-IsDateOf : (days : ℕ) → IsDateOf days (days_to_date days)
unfolding days_to_date
days_to_date-IsDateOf days =
    let years = year_loop (enough_years days) 1970 days in
    let a = year_loop-YearOf (enough_years days) 1970 days (omega arith) (omega arith) in
    let b =
      month_loop-MonthOf (month_days (is_leap_year years.0)) 0 years.1
        (omega (arith, a.within, months-year years.0)) in
    let months = month_loop (month_days (is_leap_year years.0)) 0 years.1 in
    date_of days years.0 years.1 months.0 months.1 a b
