-- ===== src/Protocol.antt =====
-- internal/protocol: the words of the protocol, path payloads, candidate records on the wire,
-- their framing, and the picker's outcome.
pub mod Types
pub mod Base64
pub mod Record
pub mod Utf8
pub mod Display
