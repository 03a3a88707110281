-- ===== src/Box.antt =====
-- internal/box: the registered machines ("boxes"), how one is selected, and the workflows that add,
-- inspect, set up, update and remove one.
pub mod Types
pub mod Validate
pub mod Service
pub mod Resolver
