-- ===== src/Parser.antt =====
-- internal/parser: the workflow schema and its validation.
pub mod Schema
pub mod Validate
