-- ===== src/Cmd.antt =====
-- cmd/main.go: the operator's flags, the options it makes of them, and its start.
pub mod Flags
pub mod Options
pub mod Main
pub mod Traced
pub mod Order
pub mod Secured
