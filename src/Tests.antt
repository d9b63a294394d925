-- ===== src/Tests.antt =====
-- The properties at concrete inputs.
mod Reading
mod Containers
mod Procedures
mod Words
mod Texts
mod Interpreting
mod Lexing
