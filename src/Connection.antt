-- ===== src/Connection.antt =====
-- src/supa/connection: the NSI state machines, the predefined errors and the provider service.
pub mod Fsm
pub mod Error
pub mod Provider
