-- ===== src/Tests.antt =====
-- The theorems applied to small concrete models, diagnostics and Toolkits.
mod Samples
mod Reporting
mod Projects
mod Networks
mod Solver
mod WaterQuality
mod Execution
mod Demands
mod Managers
