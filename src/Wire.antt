-- ===== src/Wire.antt =====
-- Package wire (wire/*.go): the control messages, their type bytes and the framing.
pub mod Types
pub mod Message
pub mod Codec
