-- ===== src/Probes.antt =====
-- crates/hv-reclaim/src/main.rs: the two safety probes, `parked_pressure_check` and `hammer_check`.
pub mod Survey
pub mod Hold
pub mod Stops
pub mod EndToEnd
pub mod Tests
