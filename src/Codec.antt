-- ===== src/Codec.antt =====
-- The canonical encoding of byte strings in JSON: cpp/logos_codec.h.
pub mod Base64
