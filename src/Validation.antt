-- ===== src/Validation.antt =====
-- src/lib/internal/epanet_network_validator*.cpp: the checks of a network before it is built.
pub mod Support
pub mod Identity
pub mod Topology
pub mod Numbers
pub mod Whole
