-- ===== src/Ledger.antt =====
-- crates/ledger/src: the page stride that every loop of the repository uses, and the canary.
pub mod Pages
pub mod Canary
pub mod Reading
pub mod Pressure
pub mod Tests
