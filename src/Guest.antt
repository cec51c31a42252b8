-- ===== src/Guest.antt =====
-- crates/hv-reclaim/src/guest.rs: the guest programs and the host loops that drive them.
pub mod Isa
pub mod Programs
pub mod CodePage
pub mod Sweep
pub mod After
pub mod Turns
pub mod CounterTurns
pub mod Loop
pub mod Hypervisor
pub mod Host
pub mod Rings
pub mod Passes
pub mod Hammer
pub mod Enter
pub mod Correct
pub mod HammerCorrect
pub mod Bench
pub mod Tests
