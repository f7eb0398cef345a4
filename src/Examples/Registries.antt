-- ===== src/Examples/Registries.antt =====
-- `Cfi` and `Mic` at small tables.
use valqeron.Base.{◌≡◌, ◌↔◌, refl, true, [], ◌∷◌, List, ok, arith}
use valqeron.Domain.Common.{IsGiven}
use valqeron.Identifiers.Cfi
use valqeron.Identifiers.Cfi.{Cfi, CfiCategoryEntry}
use valqeron.Identifiers.Cfi.Format as Cfis
use valqeron.Identifiers.Fixed
use valqeron.Identifiers.Mic
use valqeron.Identifiers.Mic.{Mic, MicEntry}
use valqeron.Identifiers.Mic.Format as Mics
use valqeron.Text.{codes, trim, trim_start, trim_end, is_whitespace, to_ascii_uppercase, text_eq}

-- Equities, with common shares, whose attributes are V, T, F and R in their places.
abbrev categories : List CfiCategoryEntry
categories =
    record {
      code = b'E';
      groups = record { code = b'S'; attrs = 2097152 ∷ 524288 ∷ 32 ∷ 131072 ∷ [] } ∷ [];
    }
    ∷ []

abbrev share : Cfi
share = record { bytes = codes "ESVTFR" }

from_bytes-IsCfi_example :
    (Cfi.from_bytes categories (codes "ESVTFR") ≡ ok share) ↔ Cfis.IsCfi categories (codes "ESVTFR")
from_bytes-IsCfi_example =
    Cfis.from_bytes-IsCfi categories (codes "ESVTFR") ((tt, tt), ((tt, tt), tt)) refl

share_accepted : Cfi.from_bytes categories (codes "ESVTFR") ≡ ok share
unfolding Cfi.from_bytes Cfi.validate Cfi.validate_character_classes Cfi.fault Cfi.validate_taxonomy
    Cfi.find_category Cfi.find_group Cfi.check_attributes Cfi.attr_allows Fixed.check_each
share_accepted = refl

-- An exchange and a segment of it.
abbrev registry : List MicEntry
registry =
    record { code = codes "ARCX"; operating = 1; country = codes "US"; active = true }
    ∷ record { code = codes "XNYS"; operating = 1; country = codes "US"; active = true }
    ∷ []

abbrev segment : Mic
segment = record { bytes = codes "ARCX" }

segment_parses : Mic.parse registry (codes "ARCX") ≡ ok segment
unfolding Mic.parse Mic.normalize Mic.from_bytes Mic.validate Mic.validate_character_classes
    Mic.fault Mic.validate_membership Mic.find Fixed.normalize Fixed.fill Fixed.check_each trim
    trim_start trim_end is_whitespace to_ascii_uppercase text_eq
segment_parses = refl

from_bytes-IsMic_example :
    (Mic.from_bytes registry (codes "XNYS") ≡ ok (record { bytes = codes "XNYS" }))
    ↔ Mics.IsMic registry (codes "XNYS")
from_bytes-IsMic_example = Mics.from_bytes-IsMic registry (codes "XNYS") refl

parse_lookups_example :
    IsGiven (Mic.is_active registry segment)
    × IsGiven (Mic.is_segment registry segment)
    × IsGiven (Mic.country_code registry segment)
parse_lookups_example = Mics.parse_lookups registry (codes "ARCX") (omega arith) segment_parses
