-- ===== src/Examples.antt =====
-- The theorems at concrete inputs.
mod Isins
mod Leis
mod Cnpjs
mod Countries
mod Stores
mod Registrations
mod Domains
mod Systems
mod Databases
mod Writes
mod Reads
mod Registries
mod Messages
mod Entries
