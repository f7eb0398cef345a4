-- ===== src/Examples/Countries.antt =====
-- `CountryCode` at the United States.
use valqeron.Base.{◌≡◌, refl, ok, err, arith}
use valqeron.Text.{codes, trim, trim_start, trim_end, is_whitespace, to_ascii_uppercase}
use valqeron.Identifiers.CountryCode as Country
use valqeron.Identifiers.CountryCode.Format.{from_bytes_pair}
use valqeron.Identifiers.CountryCode.Membership.{Listed}
use valqeron.Identifiers.Fixed

abbrev usa : Country.CountryCode
usa = record { bytes = codes "US" }

usa_parses : Country.parse (codes "us") ≡ ok usa
unfolding Country.parse Country.normalize Country.from_bytes Country.validate
    Country.validate_character_classes Country.validate_membership Country.fault Country.is_assigned
    Country.assigned Country.build_bitmap Country.build_bitmap_loop Country.has_bit
    Country.bit_index Country.assigned_codes Fixed.normalize Fixed.fill Fixed.check_each trim
    trim_start trim_end is_whitespace to_ascii_uppercase
usa_parses = refl

from_bytes_pair_example :
    (Listed (codes "US") Country.assigned_codes → Country.from_bytes (codes "US") ≡ ok usa)
    × (¬ Listed (codes "US") Country.assigned_codes
        → Country.from_bytes (codes "US") ≡ err (Country.unassigned (codes "US")))
from_bytes_pair_example = from_bytes_pair (codes "US") (ground arith)
