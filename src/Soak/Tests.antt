-- ===== src/Soak/Tests.antt =====
-- The soak of crates/hv-reclaim/src/soak.rs on a small machine: the second of two vCPUs with four
-- pages each, a hypervisor that cancels every other call, and a kernel that grants every call.
use macos_vm_memory_ratchet.Prelude.{
  true, Option, none, some, ◌⊎◌, ltb, if◌then◌else◌, zero, suc, length, ◌<◌, ℕ, ◌+◌, ◌*◌, ◌%◌, ◌^◌,
  ◌≤◌, ◌≡◌, refl, arith, false, List, [], ◌∷◌, ok,
}
use macos_vm_memory_ratchet.Guest.Isa.{Mapping}
use macos_vm_memory_ratchet.Guest.Programs.{page}
use macos_vm_memory_ratchet.Guest.Turns.{vm}
use macos_vm_memory_ratchet.Guest.Hypervisor.{Hypervisor}
use macos_vm_memory_ratchet.Guest.Host.{Vcpu}
use macos_vm_memory_ratchet.Guest.Enter.{IsRange}
use macos_vm_memory_ratchet.Guest.Correct.{IsEnough}
use macos_vm_memory_ratchet.Guest.Bench.{bench, bench_laws, bench_settles}
use macos_vm_memory_ratchet.Reclaim.{unmapping}
use macos_vm_memory_ratchet.Reclaim.Bench.{kernel, compliant, ram, mapped, linear}
use macos_vm_memory_ratchet.Soak.{Worker, slot_of, half_of, detector_self_test, worker}
use macos_vm_memory_ratchet.Soak.Layout.{slot_of_lem}
use macos_vm_memory_ratchet.Soak.Rounds.{IsBench, IsSound}
use macos_vm_memory_ratchet.Soak.SelfTest.{detector_self_test_lem}
use macos_vm_memory_ratchet.Soak.Integrity.{worker_lem}
use macos_vm_memory_ratchet.Soak.Crew.{Crew, script}
use macos_vm_memory_ratchet.Soak.Bursts.{bursts, bursts_lem}
use macos_vm_memory_ratchet.Ledger.Pressure.{Step, child, child_after}
use Prim.Native.String.{String}
use macos_vm_memory_ratchet.Soak.Crew.Safe.{AllBelow, occurrences}
use macos_vm_memory_ratchet.Soak.Crew.Ending.{run, run_lem}
use macos_vm_memory_ratchet.Soak.Tally.{IsClean}
use macos_vm_memory_ratchet.Reclaim.Stage2.{view, IsSafe, IsLinear}
use macos_vm_memory_ratchet.Soak.Shared.{no_corruption}

abbrev size : ℕ
size = 8 * page

abbrev machine : Mapping
machine = vm (λ _. 0) size

abbrev hv : Hypervisor
hv = bench machine 100

accepted : slot_of (4 * 2 ^ 30) 4 ≡ ok (2 ^ 30)
unfolding slot_of
accepted = refl

slot_of_example :
    (half_of (2 ^ 30) % page ≡ 0)
    × (16 * page ≤ half_of (2 ^ 30))
    × (3 * 2 ^ 30 + 2 * half_of (2 ^ 30) ≤ 4 * 2 ^ 30)
    × (4 * 2 ^ 30 ≤ 4 * 2 ^ 30)
slot_of_example = slot_of_lem (4 * 2 ^ 30) 4 (2 ^ 30) 3 accepted (omega arith)

abbrev fresh : Worker
fresh = record {
  vcpu = record {
    guest = record { pc = 0; x = λ _. 0; z = false; c = false; ram = λ _. 0 };
    calls = 1;
  };
  calls = [];
  stats = record { sweeps = 0; page_checks = 0; mismatches = 0; reclaims = 0 };
  hot_sweeps = 0;
  cycle = 0;
}

second_half : IsRange size (4 * page) (6 * page)
second_half = omega arith

enough :
    (v : Vcpu)
    → IsEnough (4 * page) (6 * page) 100 2 v.calls ((bench_laws machine 100).settles v.calls)
enough v = omega (arith, bench_settles machine 100 v.calls)

bench_lem : IsBench size 100 1 2 (4 * page) (2 * page) 1 (bench_laws machine 100).settles
bench_lem = record {
  patient = λ i. omega (arith, bench_settles machine 100 i);
  fuel_lem = omega arith;
  hot = omega arith;
  cold = omega arith;
  short = omega arith;
}

detector_self_test_example :
    (u : Vcpu) × (detector_self_test hv kernel
        (λ _ _. 99)
        2
        ram
        (4 * page)
        (2 * page)
        unmapping
        7
        (4 * page)
        (6 * page)
        0
        fresh.vcpu
      ≡ ok (tt, u))
    × ((q : ℕ) → u.guest.ram q ≡ 0)
detector_self_test_example =
    detector_self_test_lem (λ _. 0) size 100 2 hv (bench_laws machine 100) kernel (λ _ _. 99) ram
      (4 * page) (2 * page) unmapping 7 (4 * page) (6 * page) second_half enough 0 fresh.vcpu
      (omega arith) (λ q h. refl)

-- Reclaimed words read 99 until the guest writes them.
worker_example :
    (u : Worker) × (worker hv kernel (λ _ _. 99) 2 ram (4 * page) (2 * page) unmapping 7 1 3 fresh
      ≡ ok (tt, u))
    × IsSound
        (λ _. 0)
        size
        100
        1
        2
        hv
        (bench_laws machine 100)
        kernel
        compliant
        (λ _ _. 99)
        (mapped size)
        ram
        (4 * page)
        (2 * page)
        unmapping
        7
        1
        bench_lem
        u
        13
        15
        36
        3
worker_example =
    worker_lem (λ _. 0) size 100 1 2 hv (bench_laws machine 100) kernel compliant (λ _ _. 99)
      (mapped size) ram (4 * page) (2 * page) unmapping 7 1 bench_lem 3 fresh (omega arith)
      (record {
        zero_hot = λ q h. refl;
        hot_sweeps_lem = refl;
        sweeps_lem = refl;
        checks_lem = refl;
        mismatches_lem = refl;
        reclaims_lem = refl;
        linear = linear size;
        safe = tt;
      })

-- Two threads of 16 + 16 pages each, which take turns twenty times.
abbrev crew_size : ℕ
crew_size = 64 * page

abbrev crew_machine : Mapping
crew_machine = vm (λ _. 0) crew_size

abbrev schedule : ℕ → List ℕ
schedule zero = []
schedule (suc n) = 0 ∷ 1 ∷ schedule n

schedule-AllBelow : (n : ℕ) → AllBelow 2 (schedule n)
schedule-AllBelow zero = tt
schedule-AllBelow (suc n) = (omega arith, (omega arith, schedule-AllBelow n))

abbrev vcpus : ℕ → Vcpu
vcpus k = fresh.vcpu

crew_accepted : slot_of crew_size 2 ≡ ok (32 * page)
unfolding slot_of
crew_accepted = refl

run_example :
    (d : Crew) × (run
        (bench crew_machine 200)
        kernel
        (λ _ _. 99)
        2
        ram
        unmapping
        7
        1
        vcpus
        (λ _. 0)
        []
        crew_size
        2
        (schedule 20)
      ≡ ok (record { verdict = no_corruption; crew = d }))
    × IsLinear ram crew_size (view (mapped crew_size) d.calls)
    × IsSafe (mapped crew_size) d.calls
    × ((k : ℕ)
        → k < 2
        → length (script 1 k) ≤ occurrences k (schedule 20)
        → ((d.threads k).todo ≡ [])
          × IsClean (k * (32 * page)) (k * (32 * page) + half_of (32 * page)) (5 % 2 ^ 64) d.ram)
unfolding half_of
run_example =
    run_lem (λ _. 0) crew_size 200 1 2 (bench crew_machine 200) (bench_laws crew_machine 200) kernel
      compliant (λ _ _. 99) (mapped crew_size) ram (32 * page) unmapping 7 2 crew_accepted
      (omega arith) (omega arith) (λ i. omega (arith, bench_settles crew_machine 200 i))
      (omega arith) (omega arith) (omega arith) 1 vcpus (λ _. 0) [] (schedule 20) (λ k lt q h. refl)
      (linear crew_size) tt (schedule-AllBelow 20)

-- A child that holds its gigabyte comes up after three seconds, until the first minute is over;
-- then none does.
abbrev one_chunk : ℕ → Option ℕ
one_chunk i = some (i * 2 ^ 30)

abbrev started_child : ℕ → String → Option (Option String)
started_child now = if ltb now 60000 then child one_chunk else λ value. some none

bursts_example :
    (t : ℕ) × (steps : List Step) × (bursts true started_child (λ now. 3000) 1 100000 501 0 []
      ≡ some (t, steps))
    × (100000 ≤ t)
    × ((t ≡ 0) ⊎ (t < 100000 + 3000 + 200))
    × (child_after false steps ≡ false)
bursts_example =
    bursts_lem true started_child (λ now. 3000) 1 100000 500 0 3000 [] (λ t. omega arith)
      (omega arith) refl
