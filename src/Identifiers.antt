-- ===== src/Identifiers.antt =====
-- crates/core/src/identifiers: the financial identifiers.
pub mod Common
pub mod Fixed
pub mod Isin
pub mod Lei
pub mod Cnpj
pub mod CountryCode
pub mod Cfi
pub mod Mic
