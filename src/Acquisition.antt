-- ===== src/Acquisition.antt =====
-- internal/acquisition: obtaining a machine from a provider and destroying it again.
pub mod Types
pub mod Service
