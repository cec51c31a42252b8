-- ===== src/Ratchet/Logs.antt =====
-- What the sessions of crates/vz-ratchet/src, main.rs and fleet.rs, have sent after each of their
-- steps, the newest line first.
use macos_vm_memory_ratchet.Prelude.{ℕ, zero, suc, ◌-◌, ◌*◌, ◌%◌, ◌^◌, List, [], ◌∷◌}
use Prim.Native.String.{String}
use macos_vm_memory_ratchet.Options.Numbers.{print_usize}
use macos_vm_memory_ratchet.Options.Vz.{VzOptions}
use macos_vm_memory_ratchet.Wire.{prepend}
use macos_vm_memory_ratchet.Agent.Requests.{
  touch, free, mem, fleet_stop_one, fleet_start_one, write_request,
}

-- A line that is sent so many times.
abbrev pub times : ℕ → String → List String → List String
times zero line log = log
times (suc n) line log = times n line (line ∷ log)

abbrev pub balloon_line : ℕ → String
balloon_line mib = prepend "balloon " (print_usize mib)

abbrev pub touch_log : ℕ → List String
touch_log gib = write_request (touch gib) ∷ []

abbrev pub free_log : ℕ → List String
free_log gib = write_request free ∷ touch_log gib

-- The lines of the balloon's step, on top of `log`.
abbrev pub balloon_log : ℕ → List String → List String
balloon_log target log = balloon_line target ∷ write_request mem ∷ log

-- The balloon that leaves the guest what the touch did not take, and that which the fleet did not.
abbrev pub touch_target : VzOptions → ℕ
touch_target o = (o.guest_gb - o.touch_gb) * 1024 % 2 ^ 64

abbrev pub fleet_target : VzOptions → ℕ
fleet_target o = o.guest_gb * 1024 % 2 ^ 64 - o.services * o.service_mib % 2 ^ 64

abbrev pub starts_log : ℕ → VzOptions → List String
starts_log k o = times k (write_request (fleet_start_one o.service_mib)) []

abbrev pub stops_log : ℕ → VzOptions → List String
stops_log k o = times k (write_request fleet_stop_one) (starts_log o.services o)

abbrev pub fleet_log : VzOptions → List String
fleet_log o = balloon_line (fleet_target o) ∷ stops_log o.services o
