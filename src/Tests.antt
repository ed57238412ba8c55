-- ===== src/Tests.antt =====
-- The theorems of the library at concrete inputs.
mod Data
mod Instructions
mod Logs
mod Arithmetic
mod Devices
mod Consoles
