-- ===== src/Ratchet.antt =====
-- crates/vz-ratchet/src: `send`, `wait` and `guest_mem_available_kib` of harness.rs, and the
-- sessions of main.rs and fleet.rs that are made of them. The clock counts milliseconds and moves
-- while a session waits or sleeps. The harness, the guest and the helper process are a parameter:
-- the lines that come in after each line sent.
pub mod Wait
pub mod Pids
pub mod Helper
pub mod Sampler
pub mod Logs
pub mod Answers
pub mod Watch
pub mod Steps
pub mod Whole
pub mod Traced
pub mod Tests
use macos_vm_memory_ratchet.Prelude.{
  ℕ, zero, suc, ◌+◌, ◌-◌, ◌*◌, ◌/◌, ◌%◌, ◌^◌, Bool, true, false, List, [], ◌∷◌, ◌++◌, Option, none,
  some, ltb, leb, if◌then◌else◌, Run, Result, pure, ◌>>=◌, ◌>>◌, assert, ok, panicked, out_of_fuel,
}
use Prim.Native.String.{String}
use macos_vm_memory_ratchet.Options.Numbers.{parse_usize, print_usize}
use macos_vm_memory_ratchet.Options.Vz.{VzOptions, fleet_fits}
use macos_vm_memory_ratchet.Wire.{strip_prefix, trim, prepend}
use macos_vm_memory_ratchet.Ledger.Pressure.{guard, failed, apply}
use macos_vm_memory_ratchet.Ratchet.Pids.{ℤ}
use macos_vm_memory_ratchet.Ratchet.Helper.{find_new_helper}
use macos_vm_memory_ratchet.Agent.Requests.{
  touch, free, mem, fleet_stop_one, fleet_start_one, write_request,
}

-- A line and when it comes in.
pub record Arrival : Type 0 where
  pub at : ℕ
  pub line : String

-- The clock, the lines sent so far, the newest first, and those that have not been received yet.
pub record Link : Type 0 where
  pub now : ℕ
  pub sent : List String
  pub inbox : List Arrival

-- What comes in after the newest line sent, at the time given.
abbrev pub Harness : Type 0
Harness = List String → ℕ → List Arrival

abbrev pub later : ℕ → ℕ → ℕ
later a b = if ltb a b then b else a

-- The loop of `wait`. The channel's end, with nothing more to come, is a panic too.
unfoldable pub receive : String → ℕ → ℕ → List Arrival → Result (String × (ℕ × List Arrival))
receive prefix deadline now [] = panicked "timed out or harness exited"
receive prefix deadline now (a ∷ rest) =
    if ltb deadline now
    then panicked "timed out"
    else if ltb deadline a.at
    then panicked "timed out"
    else elim (strip_prefix prefix a.line) [
      | some found ↦ ok (trim found, (later now a.at, rest))
      | none ↦ receive prefix deadline (later now a.at) rest
    ]

abbrev pub boot_timeout : ℕ
boot_timeout = 60 * 1000

abbrev pub touch_timeout : ℕ
touch_timeout = 300 * 1000

abbrev pub balloon_timeout : ℕ
balloon_timeout = 30 * 1000

unfoldable pub wait : String → ℕ → Run Link String
unfolding receive
wait prefix timeout l = elim (receive prefix (l.now + timeout) l.now l.inbox) [
  | ok (found, (now, rest)) ↦ ok (found, record l { now = now; inbox = rest })
  | panicked what ↦ panicked what
  | out_of_fuel ↦ out_of_fuel
]

unfoldable pub sleep : ℕ → Run Link (Unit {0})
sleep ms l = ok (tt, record l { now = l.now + ms })

abbrev pub expect : Option ℕ → Run Link ℕ
expect none l = panicked "parse guest MemAvailable"
expect (some n) l = ok (n, l)

module _ (harness : Harness) where
  unfoldable pub send : String → Run Link (Unit {0})
  send line l =
      let sent = line ∷ l.sent in
      ok (tt, record { now = l.now; sent = sent; inbox = l.inbox ++ harness sent l.now })

  -- `guest_mem_available_kib`.
  unfoldable pub guest_mem_available_kib : Run Link ℕ
  unfolding send wait
  guest_mem_available_kib = do
    send (write_request mem)
    figure ← wait "RATCHET MEM" (15 * 1000)
    expect (parse_usize figure)

  -- The loop that watches `MemAvailable` fall.
  unfoldable pub watch : ℕ → ℕ → ℕ → ℕ → Run Link ℕ
  watch zero deadline before after l = out_of_fuel
  watch (suc fuel) deadline before after l =
      let again =
        (do
          sleep 1000
          now_kib ← guest_mem_available_kib
          λ m.
              let rest = watch fuel deadline before now_kib m in
              if ltb now_kib (before / 2) then ok (now_kib, m) else rest)
          l in
      if ltb l.now deadline then again else ok (after, l)

  -- Steps 1 and 2 of `main`, touch and free.
  unfoldable pub touch_and_free : ℕ → Run Link (Unit {0})
  unfolding send wait sleep
  touch_and_free touch_gb = do
    send (write_request (touch touch_gb))
    _ ← wait "RATCHET TOUCHED" touch_timeout
    sleep 1000
    send (write_request free)
    _ ← wait "RATCHET FREED" boot_timeout
    sleep 2000

  unfoldable pub set_balloon : ℕ → Run Link (Unit {0})
  unfolding send wait
  set_balloon target_mib = do
    send (prepend "balloon " (print_usize target_mib))
    _ ← wait "HARNESS balloon-target" (10 * 1000)
    pure tt

  -- Step 3, the balloon; it answers `MemAvailable` before and after. The target is in MiB, and its
  -- subtraction checked as in a debug build.
  unfoldable pub balloon : ℕ → ℕ → ℕ → Run Link (ℕ × ℕ)
  unfolding guest_mem_available_kib watch set_balloon sleep
  balloon fuel guest_gb touch_gb = do
    before ← guest_mem_available_kib
    assert (leb touch_gb guest_gb) "attempt to subtract with overflow"
    set_balloon ((guest_gb - touch_gb) * 1024 % 2 ^ 64)
    after ← (λ l. watch fuel (l.now + balloon_timeout) before before l)
    sleep 2000
    pure (before, after)

  -- The loops of fleet.rs.
  unfoldable pub start_services : ℕ → ℕ → Run Link (Unit {0})
  unfolding send wait sleep
  start_services service_mib zero = pure tt
  start_services service_mib (suc left) = do
    send (write_request (fleet_start_one service_mib))
    _ ← wait "RATCHET FLEET-STARTED" boot_timeout
    sleep 2000
    start_services service_mib left

  unfoldable pub stop_services : ℕ → Run Link (Unit {0})
  unfolding send wait sleep
  stop_services zero = pure tt
  stop_services (suc left) = do
    send (write_request fleet_stop_one)
    _ ← wait "RATCHET FLEET-STOPPED" boot_timeout
    sleep 2000
    stop_services left

  -- `run` of fleet.rs, up to `quit`.
  unfoldable pub run_fleet : VzOptions → Run Link (Unit {0})
  unfolding start_services stop_services set_balloon sleep
  run_fleet o = do
    sleep 10000
    start_services o.service_mib o.services
    sleep 30000
    stop_services o.services
    sleep 30000
    assert (leb (o.services * o.service_mib % 2 ^ 64) (o.guest_gb * 1024 % 2 ^ 64))
        "attempt to subtract with overflow"
    set_balloon (o.guest_gb * 1024 % 2 ^ 64 - o.services * o.service_mib % 2 ^ 64)
    sleep 30000

-- What else a session meets on its machine: what `pgrep` prints at a time, the helpers that ran
-- before the harness was started, whether this program is found, and what becomes of it as a
-- pressure child.
pub record Machine : Type 0 where
  pub pgrep : ℕ → List String
  pub pre_existing : List ℤ
  pub exe : Bool
  pub spawn : String → Option (Option String)

module _ (harness : Harness) (machine : Machine) where
  -- The search for the helper, on the session's clock.
  unfoldable pub find_helper : Run Link ℤ
  unfolding find_new_helper
  find_helper l = elim (find_new_helper machine.pgrep machine.pre_existing l.now 10000) [
    | ok (pid, now) ↦ ok (pid, record l { now = now })
    | panicked what ↦ panicked what
    | out_of_fuel ↦ out_of_fuel
  ]

  -- Step 4, the pressure: the generator is held for eight seconds, and two more pass.
  unfoldable pub pressure : ℕ → Run Link (Unit {0})
  unfolding sleep apply
  pressure gb l = elim (apply machine.exe machine.spawn gb).0 [
    | guard ↦ sleep (8000 + 2000) l
    | failed ↦ panicked "pressure generator"
  ]

  -- Steps 1 to 4 of `main`.
  unfoldable pub steps : ℕ → VzOptions → Run Link (Unit {0})
  unfolding touch_and_free balloon pressure
  steps fuel o = do
    touch_and_free harness o.touch_gb
    _ ← balloon harness fuel o.guest_gb o.touch_gb
    if ltb 0 o.pressure_gb then pressure o.pressure_gb else pure tt

  -- `main` from the start of the harness to `quit`, without the readings of the helper and the
  -- canary.
  unfoldable pub session : ℕ → VzOptions → Run Link (Unit {0})
  unfolding steps find_helper run_fleet send wait
  session fuel o = do
    _ ← wait "HARNESS started" boot_timeout
    _ ← wait "RATCHET READY" boot_timeout
    _ ← find_helper
    (if o.fleet
        then (do assert (fleet_fits o) "fleet must fit in the guest"; run_fleet harness o)
        else steps fuel o)
    send harness "quit"
