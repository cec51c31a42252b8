-- ===== src/Ratchet/Tests.antt =====
-- Sessions of crates/vz-ratchet/src with a harness that answers after a line of the kernel's log.
use macos_vm_memory_ratchet.Prelude.{
  ap, sym, Bool, true, zero, suc, ◌-◌, ◌*◌, ◌^◌, ℕ, ◌⊎◌, ltb, if◌then◌else◌, ◌+◌, ◌*◌, ◌≤◌, ◌≡◌,
  refl, arith, List, [], ◌∷◌, ◌++◌, Option, none, some, ok, length, Result, panicked, out_of_fuel,
}
use mathlib.Core.Path.{subst}
use Prim.Native.String.{String}
use macos_vm_memory_ratchet.Options.Numbers.{
  print_usize, parse_usize, parse_unsigned, parse_digits, print_digits, digit_char,
}
use macos_vm_memory_ratchet.Options.Vz.{VzOptions, defaults, fleet_fits}
use macos_vm_memory_ratchet.Ratchet.Logs.{
  times, free_log, balloon_log, touch_target, starts_log, stops_log, fleet_log,
}
use macos_vm_memory_ratchet.Ratchet.Sampler.{Usage, Sample, IsTrace}
use macos_vm_memory_ratchet.Ratchet.Traced.{run, run_traced}
use macos_vm_memory_ratchet.Wire.{strip_prefix, trim, is_whitespace}
use macos_vm_memory_ratchet.Agent.Requests.{mem, fleet_stop_one, fleet_start_one, write_request}
use macos_vm_memory_ratchet.Ratchet.{Arrival, Link, Harness, session, boot_timeout, touch_timeout}
use macos_vm_memory_ratchet.Ratchet.Wait.{IsTaken}
use macos_vm_memory_ratchet.Ratchet.Answers.{IsFigured, AnswersSteps, AnswersFleet}
use macos_vm_memory_ratchet.Ratchet.Pids.{ℤ, pos, contains_pid, parse_i32, running_helpers}
use macos_vm_memory_ratchet.Ratchet.Helper.{
  find_new_helper, IsFound, IsMissing, find_new_helper_lem,
}
use macos_vm_memory_ratchet.Ratchet.{Machine}
use macos_vm_memory_ratchet.Ledger.Pressure.{child, Applied, Step, apply_lem}
use macos_vm_memory_ratchet.Ratchet.Whole.{IsSupporting, IsBooting, IsSaid, session_lem}

abbrev spew : ℕ → Arrival
spew now = record { at = now; line = "[    1.0] virtio_console" }

abbrev says : ℕ → String → List Arrival
says now line = spew now ∷ record { at = now + 1; line = line } ∷ []

-- The services that run in the guest after the lines sent: a stop takes one off.
abbrev stopped : Option String → ℕ → ℕ
stopped (some rest) live = live - 1
stopped none live = live

abbrev started : Option String → Option String → ℕ → ℕ
started (some rest) stop live = live + 1
started none stop live = stopped stop live

unfoldable live : List String → ℕ
live [] = 0
live (line ∷ sent) =
    started (strip_prefix "guest fleet start 1 " line) (strip_prefix "guest fleet stop" line)
      (live sent)

-- Which line it answers goes by the first word behind `guest `. Like the agent it has no answer to a
-- stop of an empty fleet, and none to another touch than that of the defaults.
abbrev answer : Option String → ℕ → ℕ → List Arrival
answer (some rest) running now = elim (strip_prefix "touch 4" rest) [
  | some n ↦ says now "RATCHET TOUCHED 4"
  | none ↦ elim (strip_prefix "free" rest) [
    | some n ↦ says now "RATCHET FREED"
    | none ↦ elim (strip_prefix "mem" rest) [
      | some n ↦ says now "RATCHET MEM 1000"
      | none ↦ elim (strip_prefix "fleet start 1 " rest) [
        | some n ↦ says now "RATCHET FLEET-STARTED 1"
        | none ↦ elim (strip_prefix "fleet stop" rest) [
          | some n ↦ if ltb 0 running then says now "RATCHET FLEET-STOPPED 0" else []
          | none ↦ []
        ]
      ]
    ]
  ]
]
answer none running now = says now "HARNESS balloon-target 1"

harness : Harness
unfolding strip_prefix live
harness [] now = []
harness (line ∷ sent) now = answer (strip_prefix "guest " line) (live sent) now

-- A stop of the empty fleet is not answered.
unanswered : (now : ℕ) → harness (write_request fleet_stop_one ∷ []) now ≡ []
unfolding harness live strip_prefix write_request print_usize print_digits digit_char
unanswered now = refl

abbrev answered :
    (prefix : String) (deadline now : ℕ) (line found : String)
    → now + 1 ≤ deadline
    → strip_prefix prefix "[    1.0] virtio_console" ≡ none
    → strip_prefix prefix line ≡ some found
    → IsTaken prefix deadline (says now line) (trim found) []
answered prefix deadline now line found le miss hit = record {
  before = spew now ∷ [];
  taken = record { at = now + 1; line = line };
  found = found;
  whole = refl;
  noise = (miss, omega arith, tt);
  in_time = le;
  hit = hit;
  same = refl;
}

-- `--pressure-gb 8`.
abbrev pressing : VzOptions
pressing = record defaults { pressure_gb = 8 }

figured : (log : List String) → IsFigured harness log
unfolding harness write_request strip_prefix trim is_whitespace print_usize print_digits digit_char
figured log now = (
  1000,
  omega arith,
  answered "RATCHET MEM" (now + 15 * 1000) now "RATCHET MEM 1000" " 1000" (omega arith) refl refl,
)

stepping : AnswersSteps harness pressing
unfolding harness write_request strip_prefix trim is_whitespace print_usize print_digits digit_char
stepping = record {
  touches = λ now. (
    _,
    answered "RATCHET TOUCHED" (now + touch_timeout) now "RATCHET TOUCHED 4" " 4" (omega arith) refl
        refl,
  );
  frees = λ now. (
    _,
    answered "RATCHET FREED" (now + boot_timeout) now "RATCHET FREED" "" (omega arith) refl refl,
  );
  figure = figured (free_log pressing.touch_gb);
  balloons = λ now. (
    _,
    answered "HARNESS balloon-target" (now + 10 * 1000) now "HARNESS balloon-target 1" " 1"
        (omega arith) refl refl,
  );
  figures = λ k lt. figured (
      times k (write_request mem)
        (balloon_log (touch_target pressing) (free_log pressing.touch_gb)));
}

live-starts :
    (k : ℕ) (log : List String)
    → live (times k (write_request (fleet_start_one defaults.service_mib)) log) ≡ live log + k
unfolding live write_request strip_prefix print_usize print_digits digit_char
live-starts zero log = omega arith
live-starts (suc k) log =
    omega (arith, live-starts k (write_request (fleet_start_one defaults.service_mib) ∷ log))

live-stops :
    (k : ℕ) (log : List String) → live (times k (write_request fleet_stop_one) log) ≡ live log - k
unfolding live write_request strip_prefix print_usize print_digits digit_char
live-stops zero log = omega arith
live-stops (suc k) log = omega (arith, live-stops k (write_request fleet_stop_one ∷ log))

serving : AnswersFleet harness defaults
unfolding harness live write_request strip_prefix trim is_whitespace print_usize print_digits
    digit_char
serving = record {
  starts = λ k now lt. (
    _,
    answered "RATCHET FLEET-STARTED" (now + boot_timeout) now "RATCHET FLEET-STARTED 1" " 1"
        (omega arith) refl refl,
  );
  stops = λ k now lt.
      let some_run : ltb 0 (live (stops_log k defaults)) ≡ true = ground (
        arith,
        lt,
        live-stops k (starts_log defaults.services defaults),
        live-starts (defaults.services) [],
      ) in
      (
        _,
        subst
            (λ (b : Bool).
              IsTaken "RATCHET FLEET-STOPPED" (now + boot_timeout)
                (if b then says now "RATCHET FLEET-STOPPED 0" else []) (trim " 0") [])
            (sym some_run)
            (answered "RATCHET FLEET-STOPPED" (now + boot_timeout) now "RATCHET FLEET-STOPPED 0"
              " 0" (omega arith) refl refl),
      );
  balloons = λ now. (
    _,
    answered "HARNESS balloon-target" (now + 10 * 1000) now "HARNESS balloon-target 1" " 1"
        (omega arith) refl refl,
  );
}

abbrev booting : Link
booting = record {
  now = 1000;
  sent = [];
  inbox = says 1500 "HARNESS started" ++ says 2000 "RATCHET READY";
}

booting-IsBooting : IsBooting booting
unfolding strip_prefix
booting-IsBooting = record {
  rest = says 2000 "RATCHET READY";
  banner = trim "";
  ready = trim "";
  fresh = refl;
  started = record {
    before = spew 1500 ∷ [];
    taken = record { at = 1501; line = "HARNESS started" };
    found = "";
    whole = refl;
    noise = (refl, omega arith, tt);
    in_time = omega arith;
    hit = refl;
    same = refl;
  };
  booted =
      answered "RATCHET READY" (1000 + boot_timeout) 2000 "RATCHET READY" "" (omega arith) refl
        refl;
}

-- The helper with process id 91 comes up after a second; a child gets every chunk that it asks for.
abbrev pgrep : ℕ → List String
pgrep now = if ltb now 1000 then "40" ∷ [] else "91" ∷ "40" ∷ []

helpers : (now : ℕ) → 1000 ≤ now → contains_pid (running_helpers (pgrep now)) (pos 91) ≡ true
unfolding running_helpers parse_i32 trim is_whitespace parse_unsigned parse_digits
helpers now late = ground (arith, late)

abbrev mmap : ℕ → Option ℕ
mmap i = some (i * 2 ^ 30)

abbrev machine : Machine
machine = record { pgrep = pgrep; pre_existing = pos 40 ∷ []; exe = true; spawn = child mmap }

-- The guest is ready at two seconds.
supporting : (from : ℕ) → 1000 ≤ from → IsSupporting machine pressing from
supporting from up = record {
  helper = λ t le. (pos 91, helpers t (omega (arith, up, le)), refl);
  holds = ap (λ (r : Applied × List Step). r.0) (apply_lem mmap 8 (omega arith)).0;
}

session_example :
    (m : Link) × (session harness machine 31 pressing booting ≡ ok (tt, m))
    × ((log : List String) × (m.sent ≡ "quit" ∷ log) × IsSaid pressing log)
session_example =
    session_lem harness machine pressing (λ e. stepping) (λ e. cc) (λ e. omega arith) (λ e. cc)
      booting booting-IsBooting (supporting booting.now (omega arith))

abbrev lines : Result (Unit {0} × Link) → ℕ
lines (ok (done, m)) = length m.sent
lines (panicked what) = 0
lines out_of_fuel = 0

-- The figure never falls, so it is read for 30 rounds on top of the first time.
lines-session : lines (session harness machine 31 defaults booting) ≡ 35
unfolding session find_new_helper running_helpers parse_i32 strip_prefix harness live write_request
    parse_usize trim is_whitespace parse_unsigned parse_digits print_usize print_digits digit_char
lines-session = refl

find_new_helper_example :
    ((pid : ℤ) × (t : ℕ) × (find_new_helper pgrep (pos 40 ∷ []) 0 10000 ≡ ok (pid, t))
      × IsFound pgrep (pos 40 ∷ []) 0 (0 + 10000) pid t)
    ⊎ (((what : String) × (find_new_helper pgrep (pos 40 ∷ []) 0 10000 ≡ panicked what))
        × IsMissing pgrep (pos 40 ∷ []) 0 (0 + 10000))
find_new_helper_example = find_new_helper_lem pgrep (pos 40 ∷ []) 0 10000

-- A helper whose footprint grows with the time.
abbrev growing : ℕ → Usage
growing now = record { rc = 0; words = λ i. i * now }

-- `--fleet` with the defaults, from a guest that is ready.
abbrev ready : Link
ready = record { now = 2000; sent = []; inbox = [] }

fleet_fits-defaults : fleet_fits defaults ≡ true
unfolding fleet_fits
fleet_fits-defaults = refl

run_traced_example :
    (trace : List Sample) × (m : Link) × (run harness growing defaults ready ≡ ok (trace, m))
    × (m.sent ≡ fleet_log defaults)
    × IsTrace growing m.now 2000 trace
run_traced_example =
    run_traced harness growing (λ t. refl) defaults serving fleet_fits-defaults ready refl refl
