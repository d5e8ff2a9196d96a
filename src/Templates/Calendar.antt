-- ===== src/Templates/Calendar.antt =====
-- The moments of Python's datetime with a time zone, as core/ir/template_versions.py reads and
-- compares them.
use veri_doc.Prelude.{
  ℕ, ◌+◌, ◌-◌, ◌*◌, ◌/◌, ◌%◌, Bool, ◌&&◌, ◌||◌, not, ltb, leb, nat_eq, if◌then◌else◌,
}
use veri_doc.Prelude.Int.{ℤ, pos, ◌+ℤ◌, ◌-ℤ◌}

pub record Timestamp : Type 0 where
  pub year : ℕ
  pub month : ℕ
  pub day : ℕ
  pub hour : ℕ
  pub minute : ℕ
  pub second : ℕ
  pub microsecond : ℕ
  -- The offset from UTC in minutes, and whether it is behind.
  pub behind : Bool
  pub offset : ℕ

abbrev pub is_leap : ℕ → Bool
is_leap y = nat_eq (y % 4) 0 && (not (nat_eq (y % 100) 0) || nat_eq (y % 400) 0)

unfoldable pub days_in_month : ℕ → ℕ → ℕ
days_in_month y m =
    if nat_eq m 2
    then if is_leap y then 29 else 28
    else if nat_eq m 4 || nat_eq m 6 || nat_eq m 9 || nat_eq m 11
    then 30
    else 31

-- datetime() and timezone() accept the fields.
unfoldable pub is_moment : Timestamp → Bool
is_moment t =
    leb 1 t.year
    && leb t.year 9999
    && leb 1 t.month
    && leb t.month 12
    && leb 1 t.day
    && leb t.day (days_in_month t.year t.month)
    && leb t.hour 23
    && leb t.minute 59
    && leb t.second 59
    && leb t.microsecond 999999
    && ltb t.offset 1440

unfoldable pub days_before_year : ℕ → ℕ
days_before_year y = let p = y - 1 in p * 365 + p / 4 + p / 400 - p / 100

unfoldable pub days_before_month : ℕ → ℕ → ℕ
days_before_month y ℕ.zero = 0
days_before_month y (ℕ.suc ℕ.zero) = 0
days_before_month y (ℕ.suc (ℕ.suc m)) = days_before_month y (ℕ.suc m) + days_in_month y (ℕ.suc m)

-- date.toordinal()
unfoldable pub ordinal : Timestamp → ℕ
ordinal t = days_before_year t.year + days_before_month t.year t.month + t.day

-- Microseconds on the clock of the time zone.
unfoldable pub local : Timestamp → ℕ
local t = (ordinal t * 86400 + t.hour * 3600 + t.minute * 60 + t.second) * 1000000 + t.microsecond

-- The moment in UTC, by which Python compares two datetimes.
unfoldable pub instant : Timestamp → ℤ
instant t =
    let shift = pos (t.offset * 60000000) in
    if t.behind then pos (local t) +ℤ shift else pos (local t) -ℤ shift
