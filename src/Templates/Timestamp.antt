-- ===== src/Templates/Timestamp.antt =====
-- `_parse_effective_timestamp` of core/ir/template_versions.py.
use veri_doc.Prelude.{
  ℕ, zero, suc, ◌+◌, ◌-◌, ◌*◌, ◌^◌, String, Bool, true, false, List, [], ◌∷◌, Option, none, some,
  nat_eq, if◌then◌else◌,
}
use veri_doc.Templates.Outcome.{Checked, or_refuse, bad_timestamp}
use veri_doc.Templates.Version.{◌>>=◌, codes, is_digit, at_end}
use veri_doc.Templates.Calendar.{Timestamp, is_moment}

-- [0-9]{n}, behind digits that make `m`
unfoldable pub take_digits : ℕ → ℕ → List ℕ → Option (ℕ × List ℕ)
take_digits zero m cs = some (m, cs)
take_digits (suc n) m [] = none
take_digits (suc n) m (c ∷ cs) =
    let more = take_digits n (m * 10 + (c - 48)) cs in if is_digit c then more else none

-- One given character.
unfoldable pub take_char : ℕ → List ℕ → Option (List ℕ)
take_char a [] = none
take_char a (c ∷ cs) = if nat_eq c a then some cs else none

-- [0-9]{0,n}, behind the digits `m` of a fraction, in the last place that it may have
unfoldable pub take_fraction : ℕ → ℕ → List ℕ → ℕ × List ℕ
take_fraction zero m cs = (m, cs)
take_fraction (suc n) m [] = (m * 10 ^ suc n, [])
take_fraction (suc n) m (c ∷ cs) =
    let more = take_fraction n (m * 10 + (c - 48)) cs in
    if is_digit c then more else (m * 10 ^ suc n, c ∷ cs)

-- (\.[0-9]{1,6})?
unfoldable pub read_fraction : List ℕ → Option (ℕ × List ℕ)
read_fraction [] = some (0, [])
read_fraction (c ∷ []) = if nat_eq c 46 then none else some (0, c ∷ [])
read_fraction (c ∷ d ∷ cs) =
    if nat_eq c 46
    then if is_digit d then some (take_fraction 6 0 (d ∷ cs)) else none
    else some (0, c ∷ d ∷ cs)

-- [0-9]{2}:[0-9]{2}, in minutes, at the end
unfoldable pub read_offset : List ℕ → Option ℕ
read_offset cs = do
  hours ← take_digits 2 0 cs
  colon ← take_char 58 hours.1
  minutes ← take_digits 2 0 colon
  finished ← at_end minutes.1
  some (hours.0 * 60 + minutes.0)

abbrev signed : Bool → Option ℕ → Option (Bool × ℕ)
signed behind none = none
signed behind (some n) = some (behind, n)

-- Z|[+-][0-9]{2}:[0-9]{2}, where "Z" stands for "+00:00"
unfoldable pub read_zone : List ℕ → Option (Bool × ℕ)
read_zone [] = none
read_zone (c ∷ cs) =
    if nat_eq c 90
    then (at_end cs >>= λ _. some (false, 0))
    else if nat_eq c 43
    then signed false (read_offset cs)
    else if nat_eq c 45
    then signed true (read_offset cs)
    else none

-- _EFFECTIVE_TIMESTAMP_RE.fullmatch, with the numbers that it finds
unfoldable pub read_timestamp : List ℕ → Option Timestamp
read_timestamp cs = do
  year ← take_digits 4 0 cs
  r1 ← take_char 45 year.1
  month ← take_digits 2 0 r1
  r2 ← take_char 45 month.1
  day ← take_digits 2 0 r2
  r3 ← take_char 84 day.1
  hour ← take_digits 2 0 r3
  r4 ← take_char 58 hour.1
  minute ← take_digits 2 0 r4
  r5 ← take_char 58 minute.1
  second ← take_digits 2 0 r5
  fraction ← read_fraction second.1
  zone ← read_zone fraction.1
  some (record {
    year = year.0;
    month = month.0;
    day = day.0;
    hour = hour.0;
    minute = minute.0;
    second = second.0;
    microsecond = fraction.0;
    behind = zone.0;
    offset = zone.1;
  })

unfoldable pub accept_moment : Timestamp → Option Timestamp
accept_moment t = if is_moment t then some t else none

-- `_parse_effective_timestamp`, and the path in its messages
unfoldable pub parse_effective_timestamp : String → String → Checked Timestamp
parse_effective_timestamp value path =
    or_refuse (read_timestamp (codes value) >>= accept_moment) (bad_timestamp path)
