-- ===== src/Soak/Shared.antt =====
-- The verdict of `run` of crates/hv-reclaim/src/soak.rs on the counters that its workers share.
use macos_vm_memory_ratchet.Prelude.{◌==◌, if◌then◌else◌}
use macos_vm_memory_ratchet.Soak.{Stats}

-- `Stats::default`.
abbrev pub zeros : Stats
zeros = record { sweeps = 0; page_checks = 0; mismatches = 0; reclaims = 0 }

pub data Verdict : Type 0 where
  no_corruption corruption_detected : Verdict

-- The end of `run`.
unfoldable pub verdict_of : Stats → Verdict
verdict_of s = if s.mismatches == 0 then no_corruption else corruption_detected
