-- ===== src/Documents.antt =====
-- src/supa/documents: the topology that SuPA publishes.
pub mod Topology
