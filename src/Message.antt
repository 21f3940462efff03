-- ===== src/Message.antt =====
-- core/encoding.go: the messages between the primary and the secondaries. Each `encode` checks the
-- sizes, then writes; each `decode` reads. What encoding and decoding give together is proved in
-- the children named RoundTrip.
pub mod Strings
pub mod Params
pub mod Prepare
pub mod Start
pub mod Outcome
