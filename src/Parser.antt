-- ===== src/Parser.antt =====
-- The incoming half of the wire protocol, src/core/bep_data_parser.rs: `Incoming` collects the bytes
-- of one message, `Decode` reads a collected message, and `Machine` is the parser itself.
pub mod Incoming
pub mod Decode
pub mod Machine
pub mod Target
