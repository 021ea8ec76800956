-- ===== src/Wire.antt =====
-- The plain wire stack: cpp/implementations/plain.
pub mod Framing
