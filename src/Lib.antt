-- ===== src/Lib.antt =====
-- valqeron: a reference store of securities issuers, securities, trading venues and listings.
--
-- The program has a core crate (crates/core) with the identifiers of the financial world and the
-- aggregates of the domain, an engine that owns a SQLite database and serves gRPC
-- (crates/engine, crates/infrastructure), and clients of it (crates/engine-client, crates/cli).
-- This library models the core crate, the repositories of issuers and securities over SQLite with
-- the tables they write, the retries of their writes, the messages about issuers between the engine
-- and its client, and the lifecycle of the engine: what a text
-- must be to become an identifier, what a builder must hold to become an entity, what the services
-- do with a store before they write it, and what is in the tables afterwards. The services reach
-- storage through the repository traits, which are records here; the SQLite repositories fill them.
--
-- Files, each with what it models:
--   Base, Text           shared names, lists, results; `char` and `str` of Rust's library
--   Identifiers/Fixed    what the `normalize` and `validate_character_classes` of
--                        crates/core/src/identifiers share
--   Identifiers/Isin     isin.rs; Luhn has the check digit written out in full
--   Identifiers/Lei      lei.rs; Residue has the residue of the whole number, Errors and Slips
--                        what it detects
--   Identifiers/Cnpj     cnpj.rs; Weights has the check digits, RoundTrip the punctuation
--   Identifiers/CountryCode  country_code.rs; Membership has the bitmap against the table
--   Identifiers/Cfi, Mic cfi.rs and mic.rs, over the tables that the build generates
--   Domain/Common        crates/core/src/common.rs
--   Domain/Names, Symbols, Ratio, Labels, Ids   the values of crates/core/src/domain
--   Domain/Issuer, Security, Venue, Listing     issuer.rs, security.rs, venue.rs, listing.rs there:
--                        Types the entity, Builder and Build its builder, Patch its patch, Service
--                        the repository trait and the services, Register what registrations do
--   Domain/Steps         results with a store, which the services are chains of
--   Tasks                crates/core/src/tasks.rs: Defs the operations, Attempts their sequences
--   Engine/Lifecycle     crates/engine/src/lifecycle.rs
--   Sqlite/Support       crates/infrastructure/src/sqlite/support.rs
--   Sqlite/Sql           what the statements use of SQL: three-valued tests, WHERE, ORDER BY, LIMIT
--   Sqlite/Session, Retry   a call on a connection, and one that is retried
--   Sqlite/Table         the statements that every table shares, guarded by a version
--   Sqlite/Schema        migrations/001_create_initial_schema.sql: rows and constraints
--   Sqlite/Columns       crates/infrastructure/src/sqlite/row.rs
--   Sqlite/Issuers, Securities   repositories/issuer.rs and securities.rs there: Rows the mappings,
--                        Queries the statements, Changes what an UPDATE makes of a row, Repository
--                        the trait's operations, Faithful its promises to the services
--   Sqlite/Ordering, Paging   lists in the order of a key, and their pages
--   Sqlite/Histories     sequences of writes over both repositories
--   Rpc/Messages         crates/engine-proto/proto/valqeron/v1/issuer.proto
--   Rpc/Server, Client   the conversions of crates/engine/src/grpc/issuer.rs and of
--                        crates/engine-client/src/issuer.rs; Issuers and Requests have what one
--                        side reads of the other
--   Examples             the theorems at concrete inputs, and repositories over lists
--
-- A text is the list of its code points and a byte array the list of its bytes; theorems that need
-- the length of an array say so. The operations on `u8` and `u32` wrap or saturate as in a release
-- build. Loops are structural but for the one that retries a busy write, which has five rounds of
-- fuel and gives a result within them. A fresh id and the present time, which the
-- builders make where a field is unset, are arguments, and so are the order of dates and
-- `str::to_uppercase`, whose tables are Unicode's. UUIDs are numbers, also in a BLOB, whose order is
-- that of the number.
--
-- The tables of SQLite are lists of rows. A parameter, `Host`, says which statement is refused for a
-- fault that its SQL does not show, busy or locked among them; a refused statement changes no table.
-- The functions of chrono and the tables of CFI are a parameter too, `Library`, whose documented
-- behaviour is `IsDocumented`; the texts of ids and times in a message are another, `Wire`. A binary
-- search is the lookup that it is on a sorted table. The two statements of an eager read see the
-- same tables.
--
-- A repository is a record of operations on a store of any type, in which queries leave the store
-- alone. A view says what the store holds in the place of the entities, for SQLite the rows of the
-- table. The promises of a repository, `IsFaithful`, are that the lookups find exactly what is there,
-- that an insertion adds the item of the entity, and that one that fails changes nothing.
--
-- Not modelled: the registry of background tasks and its repository; the opening of the database,
-- its pool and its migrations; the rest of the engine with its queues, the handlers of its gRPC
-- services and the calls of their clients; the command line; the macros that generate tables at
-- build time, and the files of crates/core/src/tasks_old, which no module declares.
pub mod Base
pub mod Text
pub mod Identifiers
pub mod Domain
pub mod Engine
pub mod Tasks
pub mod Rpc
pub mod Sqlite
pub mod Examples
