-- ===== src/Server/Calendar.antt =====
-- src/server/locks.rs: format_unix_timestamp, days_to_date and is_leap_year, the dates of the locks.
pub mod Gregorian
use blossom_rs.Prelude.{
  ℕ, zero, suc, ◌+◌, ◌-◌, ◌/◌, ◌%◌, Bool, true, false, List, [], ◌∷◌, ◌++◌, ◌==◌, nat_key, not,
  ◌&&◌, ◌||◌, ltb, length, if◌then◌else◌, Text, bytes_of, to_string,
}

unfoldable pub is_leap_year : ℕ → Bool
is_leap_year y = (y % 4 == 0 && not (y % 100 == 0)) || y % 400 == 0

unfoldable pub year_len : ℕ → ℕ
unfolding is_leap_year
year_len y = if is_leap_year y then 366 else 365

abbrev pub month_days : Bool → List ℕ
month_days leap =
    31 ∷ (if leap then 29 else 28) ∷ 31 ∷ 30 ∷ 31 ∷ 30 ∷ 31 ∷ 31 ∷ 30 ∷ 31 ∷ 30 ∷ 31 ∷ []

-- The loop over the years, on fuel: the year, and the days that remain.
unfoldable pub year_loop : ℕ → ℕ → ℕ → ℕ × ℕ
unfolding year_len
year_loop zero y remaining = (y, remaining)
year_loop (suc fuel) y remaining =
    let rest = year_loop fuel (y + 1) (remaining - year_len y) in
    if ltb remaining (year_len y) then (y, remaining) else rest

-- The loop over the months, from `m` on.
unfoldable pub month_loop : List ℕ → ℕ → ℕ → ℕ × ℕ
month_loop [] m remaining = (m, remaining)
month_loop (md ∷ mds) m remaining =
    let rest = month_loop mds (m + 1) (remaining - md) in
    if ltb remaining md then (m, remaining) else rest

-- Every year has 365 days at least.
abbrev pub enough_years : ℕ → ℕ
enough_years days = suc (days / 365)

unfoldable pub days_to_date : ℕ → ℕ × ℕ × ℕ
unfolding year_loop month_loop is_leap_year
days_to_date days =
    let (y, remaining) = year_loop (enough_years days) 1970 days in
    let (m, rest) = month_loop (month_days (is_leap_year y)) 0 remaining in (y, m + 1, rest + 1)

abbrev zeros : ℕ → Text
zeros zero = []
zeros (suc n) = b'0' ∷ zeros n

-- `{:04}` and `{:02}`.
abbrev pub padded : ℕ → ℕ → Text
padded width n = let text = to_string n in zeros (width - length text) ++ text

unfoldable pub format_unix_timestamp : ℕ → Text
unfolding days_to_date to_string
format_unix_timestamp secs =
    let days_since_epoch = secs / 86400 in
    let time_of_day = secs % 86400 in
    let hours = time_of_day / 3600 in
    let minutes = time_of_day % 3600 / 60 in
    let seconds = time_of_day % 60 in
    let (year, month, day) = days_to_date days_since_epoch in
    padded 4 year
    ++ b'-' ∷ padded 2 month
    ++ b'-' ∷ padded 2 day
    ++ b'T' ∷ padded 2 hours
    ++ b':' ∷ padded 2 minutes
    ++ b':' ∷ padded 2 seconds
    ++ b'Z' ∷ []
