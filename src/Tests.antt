-- ===== src/Tests.antt =====
-- The theorems at concrete inputs, and runs of the definitions on small ones.
mod Match
mod Cadence
mod Chip
mod Lines
mod Light
mod Daemon
mod Shared
mod Schedule
mod Crash
mod Web
mod Pages
mod Punctual
