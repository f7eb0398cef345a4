-- ===== src/Rpc.antt =====
-- The messages of crates/engine-proto/proto/valqeron/v1/issuer.proto between the issuer service of
-- the engine, crates/engine/src/grpc/issuer.rs, and its client, crates/engine-client/src/issuer.rs.
pub mod Messages
pub mod Server
pub mod Client
pub mod Issuers
pub mod Requests
