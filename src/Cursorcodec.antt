-- ===== src/Cursorcodec.antt =====
-- internal/cursorcodec: the bytes of a cursor, its fields and values and the text around them.
mod Tests
pub mod BigEndian
pub mod Base64
pub mod Envelope
pub mod Value
