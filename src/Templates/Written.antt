-- ===== src/Templates/Written.antt =====
-- The texts that `_parse_effective_timestamp` of core/ir/template_versions.py reads, written from the
-- fields that it finds in them.
use veri_doc.Prelude.{
  ℕ, String, ◌+◌, ◌/◌, ◌%◌, ◌<◌, Bool, true, false, ◌≡◌, refl, arith, List, [], ◌∷◌, some,
  if◌then◌else◌,
}
use veri_doc.Templates.Outcome.{passed}
use veri_doc.Templates.Version.{codes, at_end}
use veri_doc.Templates.Timestamp.{
  take_digits, take_char, take_fraction, read_fraction, read_offset, read_zone, read_timestamp,
  accept_moment, parse_effective_timestamp,
}
use veri_doc.Templates.Calendar.{Timestamp, is_moment, days_in_month}

abbrev two : ℕ → List ℕ → List ℕ
two n rest = (48 + n / 10) ∷ (48 + n % 10) ∷ rest

abbrev four : ℕ → List ℕ → List ℕ
four n rest = two (n / 100) (two (n % 100) rest)

abbrev six : ℕ → List ℕ → List ℕ
six n rest = two (n / 10000) (four (n % 10000) rest)

-- +hh:mm or -hh:mm
abbrev zone_codes : Bool → ℕ → List ℕ
zone_codes behind offset =
    (if behind then 45 else 43) ∷ two (offset / 60) (58 ∷ two (offset % 60) [])

-- YYYY-MM-DDThh:mm:ss.ffffff and the zone
abbrev pub written : Timestamp → List ℕ
written t = four t.year (
    45
    ∷ two t.month (
        45
        ∷ two t.day (
            84
            ∷ two t.hour (
                58
                ∷ two t.minute
                    (58 ∷ two t.second (46 ∷ six t.microsecond (zone_codes t.behind t.offset)))))))

take_two : (n : ℕ) (rest : List ℕ) → n < 100 → take_digits 2 0 (two n rest) ≡ some (n, rest)
unfolding take_digits
take_two n rest h = ground arith

take_four : (n : ℕ) (rest : List ℕ) → n < 10000 → take_digits 4 0 (four n rest) ≡ some (n, rest)
unfolding take_digits
take_four n rest h = ground arith

read_six : (n : ℕ) (rest : List ℕ) → n < 1000000 → read_fraction (46 ∷ six n rest) ≡ some (n, rest)
unfolding read_fraction take_fraction
read_six n rest h = ground arith

read_zone_codes :
    (behind : Bool) (n : ℕ) → n < 1440 → read_zone (zone_codes behind n) ≡ some (behind, n)
unfolding read_zone read_offset take_digits take_char at_end
read_zone_codes true n h = ground arith
read_zone_codes false n h = ground arith

module _ (t : Timestamp) (h : is_moment t ≡ true) where
  bounds :
      (t.year < 10000)
      × (t.month < 100)
      × (t.day < 100)
      × (t.hour < 100)
      × (t.minute < 100)
      × (t.second < 100)
      × (t.microsecond < 1000000)
      × (t.offset < 1440)
  unfolding is_moment days_in_month
  bounds = ground arith

  read_written : read_timestamp (written t) ≡ some t
  unfolding read_timestamp take_char
  read_written =
      rw
        (
          take_four t.year _ bounds.0,
          take_two t.month _ bounds.1,
          take_two t.day _ bounds.2,
          take_two t.hour _ bounds.3,
          take_two t.minute _ bounds.4,
          take_two t.second _ bounds.5,
          read_six t.microsecond _ bounds.6,
          read_zone_codes t.behind t.offset bounds.7,
        )
        refl

  -- A text that spells the fields of a moment as YYYY-MM-DDThh:mm:ss.ffffff with its offset as
  -- +hh:mm or -hh:mm is accepted and read as just these fields, the side of the offset included.
  pub parse_effective_timestamp-written :
      (s path : String) → codes s ≡ written t → parse_effective_timestamp s path ≡ passed t
  unfolding parse_effective_timestamp accept_moment
  parse_effective_timestamp-written s path e = rw (e, read_written, h) refl
