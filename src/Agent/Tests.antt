-- ===== src/Agent/Tests.antt =====
-- The agent of guest-init/src/main.rs in a kernel that grants every call.
use macos_vm_memory_ratchet.Prelude.{
  ◌+◌, ◌*◌, ◌^◌, ◌≡◌, ◌↔◌, refl, arith, List, [], ◌∷◌, ◌++◌, map, some, ok, panicked, ltb,
  if◌then◌else◌,
}
use macos_vm_memory_ratchet.Wire.{strip_prefix, is_whitespace}
use Prim.Native.String.{String}
use macos_vm_memory_ratchet.Agent.{
  Agent, Os, Command, boot, touch, free, fleet_start, fleet_stop_one, fleet_stop, touched, freed,
  fleet_started, fleet_stopped, start_services, stop_services, handle, serve,
}
use macos_vm_memory_ratchet.Agent.Sessions.{
  forked, IsAccounted, serve-IsAccounted, handle-fleet_stop_lem,
}
use macos_vm_memory_ratchet.Agent.Fleet.{session, started_up, stopped_down, serve-session}
use macos_vm_memory_ratchet.Agent.Requests
use macos_vm_memory_ratchet.Agent.Requests.{Request, write_request, meant}
use macos_vm_memory_ratchet.Agent.Loop.{passed_on, as_lines}
use macos_vm_memory_ratchet.Agent.Boot.{Start, IsBooting, main, after_ready, main-serve}
use macos_vm_memory_ratchet.Agent.Child.{fleet_child, slice, fleet_child_lem}
use macos_vm_memory_ratchet.Agent.MemInfo.{mem_available_kib, meminfo_line, mem_available_kib_lem}

abbrev linux : Os
linux = record {
  mmap = λ a size. some 4096;
  fork = λ i. some (100 + i);
  mem_available_kib = λ a. 1000;
}

abbrev commands : List Command
commands = fleet_start 3 256 ∷ (fleet_stop_one ∷ (touch 1 ∷ (free ∷ [])))

abbrev later : Agent
later = record {
  held = [];
  fleet = 101 ∷ (102 ∷ []);
  unmapped = (4096, 1073741824) ∷ [];
  killed = 100 ∷ [];
  forks = 3;
}

served :
    serve linux commands boot
    ≡ ok (fleet_started 3 ∷ (fleet_stopped 2 ∷ (touched 1 ∷ (freed ∷ []))), later)
unfolding serve handle start_services stop_services
served = refl

serve-IsAccounted_example : IsAccounted linux later
serve-IsAccounted_example = serve-IsAccounted linux commands later _ served

handle-fleet_stop_example :
    ((b : Agent) × (handle linux fleet_stop later ≡ ok (fleet_stopped 0, b)) × (b.fleet ≡ []))
    × (((what : String) × (handle linux fleet_stop_one later ≡ panicked what)) ↔ (later.fleet ≡ []))
handle-fleet_stop_example = handle-fleet_stop_lem linux later

serve-session_example :
    (a : Agent) × (serve linux (session 2 256) boot ≡ ok (started_up 0 2 ++ stopped_down 2, a))
    × (a.fleet ≡ [])
    × (a.killed ≡ forked linux 2)
serve-session_example = serve-session linux (λ i. 100 + i) (λ i. refl) 2 256

-- A session with a touch of 2 GiB and a fleet of one.
abbrev requests : List Request
requests =
    Requests.touch 2
    ∷ Requests.mem
    ∷ Requests.fleet_start_one 256
    ∷ Requests.fleet_stop_one
    ∷ Requests.fleet_stop_one
    ∷ []

-- The mounts are there already, and the console's node appears at the third attempt.
abbrev starting : Start
starting = record { errno = λ fstype. 16; ebusy = 16; opens = λ write i. ltb 2 i }

starting-IsBooting : IsBooting starting
starting-IsBooting = record {
  devices = refl;
  processes = refl;
  out = (3, omega arith, refl);
  into = (3, omega arith, refl);
}

main-serve_example :
    main starting linux (passed_on (map write_request requests))
    ≡ after_ready (as_lines (serve linux (map meant requests) boot))
main-serve_example =
    main-serve starting starting-IsBooting linux requests
      (omega arith, (tt, (omega arith, (tt, (tt, tt)))))

fleet_child_example :
    (fleet_child 256 3 (3 * slice 256) ≡ (
      if ltb (3 * slice 256) (3 * slice 256)
      then 0x5A
      else if ltb (3 * slice 256) (256 * 2 ^ 20)
      then 0xA5
      else 0))
    × (8 * slice 256 ≡ 256 * 2 ^ 20)
fleet_child_example = fleet_child_lem 256 3 (3 * slice 256) (omega arith) (omega arith) refl

abbrev above : List String
above = "MemTotal:       8000000 kB" ∷ "MemFree:        2000000 kB" ∷ []

abbrev below : List String
below = "Buffers:             12 kB" ∷ []

mem_available_kib_example :
    (mem_available_kib (above ++ meminfo_line "    " 1234 ∷ below) ≡ ok 1234)
    × (mem_available_kib above ≡ panicked "MemAvailable not in /proc/meminfo")
unfolding strip_prefix is_whitespace
mem_available_kib_example =
    mem_available_kib_lem above below "    " 1234 (refl, (refl, tt)) refl (omega arith)
