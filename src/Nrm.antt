-- ===== src/Nrm.antt =====
-- src/supa/nrm/backends: three of the backends that talk to a network resource manager.
pub mod Ciena
pub mod Wfo
pub mod Nso
