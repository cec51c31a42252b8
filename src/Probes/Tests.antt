-- ===== src/Probes/Tests.antt =====
-- The safety probes of crates/hv-reclaim/src/main.rs on four pages of which one was discarded, and on
-- a run of three calls.
use macos_vm_memory_ratchet.Prelude.{
  ltb, ◌%◌, ℕ, ◌+◌, ◌*◌, ◌≤◌, ◌≡◌, refl, arith, Bool, false, not, List, [], ◌∷◌, some, ◌==◌,
  if◌then◌else◌, ok, length,
}
use macos_vm_memory_ratchet.Guest.Isa.{Mapping}
use macos_vm_memory_ratchet.Guest.Turns.{vm}
use macos_vm_memory_ratchet.Guest.Host.{Vcpu, run_touch_pass, run_hammer}
use macos_vm_memory_ratchet.Guest.Enter.{IsRange}
use macos_vm_memory_ratchet.Guest.Bench.{bench, bench_laws, bench_settles}
use macos_vm_memory_ratchet.Probes.EndToEnd.{hammered_survey-run_hammer}
use macos_vm_memory_ratchet.Ledger.Pages.{page, step_by, count}
use macos_vm_memory_ratchet.Guest.Programs.{ram_gpa}
use macos_vm_memory_ratchet.Probes.Survey.{parked_survey, hammered_survey, surveys_lem}
use macos_vm_memory_ratchet.Probes.Hold.{
  Seen, Phase, ready, empty, waiting, receive, poll, release, on_sweep, sweeping, Among, AllOrdered,
  IsOver, sweeping-IsOver,
}
use macos_vm_memory_ratchet.Probes.Stops.{Stops, sweeping-Stops}

abbrev gone : ℕ → Bool
gone off = off == page

abbrev parked : ℕ → ℕ
parked off = if gone off then 0 else ram_gpa + off

-- Discarded before the third of five sweeps.
abbrev hammered : ℕ → ℕ
hammered off = if gone off then 3 else ram_gpa + off + 5

surveys_example :
    ((parked_survey parked (4 * page)).intact
      ≡ count (λ off. not (gone off)) (step_by 0 (4 * page) page))
    × ((parked_survey parked (4 * page)).lost ≡ count gone (step_by 0 (4 * page) page))
    × ((hammered_survey 5 hammered (4 * page)).intact
        ≡ count (λ off. not (gone off)) (step_by 0 (4 * page) page))
    × ((hammered_survey 5 hammered (4 * page)).lost ≡ count gone (step_by 0 (4 * page) page))
    × (length (hammered_survey 5 hammered (4 * page)).examples ≤ 3)
surveys_example =
    surveys_lem parked hammered (4 * page) gone 5 (omega arith)
      (λ off h. (λ kept. ground arith, λ lost. ground arith))
      (λ off h. (λ kept. ground arith, λ lost. ground arith))

abbrev second : ℕ
second = 1_000_000_000

abbrev at_once : ℕ → Seen
at_once t = record { received = ready; at_receive = t; at_hold = t; at_release = t; at_tail = t }

abbrev run : List Seen
run = at_once second ∷ (at_once (10 * second) ∷ (at_once (13 * second) ∷ []))

abbrev over : Phase
over = record { guard = false; hold_since = some second; released_at = some (10 * second) }

run_ordered : AllOrdered run
run_ordered = omega arith

run_lem : sweeping run waiting ≡ ok (false, over)
unfolding sweeping on_sweep poll receive release
run_lem = refl

sweeping-IsOver_example : (e : Seen) × Among e run × IsOver e over
sweeping-IsOver_example = sweeping-IsOver run over run_ordered run_lem

-- A call before the report, one while the pressure is held, and one in the tail.
abbrev silent : ℕ → Seen
silent t = record { received = empty; at_receive = t; at_hold = t; at_release = t; at_tail = t }

sweeping-Stops_example :
    Stops
      (silent 0
        ∷ at_once second
        ∷ silent (5 * second)
        ∷ silent (10 * second)
        ∷ silent (11 * second)
        ∷ silent (13 * second)
        ∷ [])
      waiting
sweeping-Stops_example =
    sweeping-Stops (silent 0 ∷ []) (silent (5 * second) ∷ []) (silent (11 * second) ∷ []) []
      (at_once second) (silent (10 * second)) (silent (13 * second)) 0 (omega arith) (refl, tt) refl
      (omega arith) (omega arith)

abbrev ram_size : ℕ
ram_size = 4 * page

abbrev machine : Mapping
machine = vm (λ _. 0) ram_size

abbrev start : Vcpu
start = record {
  guest = record { pc = 0; x = λ _. 7; z = false; c = false; ram = λ q. q % 3 };
  calls = 1;
}

-- The callback counts its calls and stops at the third.
abbrev until_three : ℕ → ℕ → Bool × ℕ
until_three sweeps calls = (ltb sweeps 3, calls + 1)

whole : IsRange ram_size 0 ram_size
whole = omega arith

hammered_survey-run_hammer_example :
    (u : Vcpu) × (run_touch_pass (bench machine 100) 6 ram_size start ≡ ok (tt, u))
    × ((w : Vcpu) × (run_hammer (bench machine 100) until_three 6 ram_size 0 u ≡ ok ((3, 3), w))
        × (let found = hammered_survey 3 (λ off. w.guest.ram (ram_gpa + off)) ram_size in
            (found.intact ≡ length (step_by 0 ram_size page)) × (found.lost ≡ 0)))
hammered_survey-run_hammer_example =
    hammered_survey-run_hammer until_three (λ _. 0) ram_size 100 (bench machine 100)
      (bench_laws machine 100) whole (omega arith) 1
      (λ i. omega (arith, bench_settles machine 100 i)) 2 6 0 3 start (refl, (refl, (refl, refl)))
      (omega arith) (omega arith)
