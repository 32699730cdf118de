-- ===== src/Model.antt =====
-- The types of the hydraulic model library that the adapter reads and writes.
pub mod Enums
pub mod Status
pub mod Timelines
pub mod Network
pub mod Doubles
pub mod Results
pub mod Run
