-- ===== src/Domain/Ids.antt =====
-- The identifiers of the aggregates. Each is a newtype of a UUID, which stands here for its 128-bit
-- number; `Uuid::now_v7` is not modelled, and what it returns is an argument where it is called.
use valqeron.Base.{ℕ}

abbrev pub IssuerId : Type 0
IssuerId = ℕ

abbrev pub SecurityId : Type 0
SecurityId = ℕ

abbrev pub VenueId : Type 0
VenueId = ℕ

abbrev pub ListingId : Type 0
ListingId = ℕ
