-- ===== src/Util.antt =====
-- src/supa/util: helpers that the rest of the program shares.
pub mod Functional
pub mod Vlan
pub mod Nsi
pub mod Headers
pub mod Converter
