-- ===== src/Soak/Crew/Ending.antt =====
-- `run` of crates/hv-reclaim/src/soak.rs: the slots, the threads and the verdict. The schedule
-- stands for the order in which the system lets the threads act; where one of them panics, the
-- model stops.
use macos_vm_memory_ratchet.Prelude.{
  ℕ, suc, ◌+◌, ◌-◌, ◌*◌, ◌/◌, ◌%◌, ◌^◌, ◌≤◌, ◌<◌, ◌≡◌, refl, ap, sym, ◌∙◌, arith, List, length, ok,
  panicked, out_of_fuel, Result, Option,
}
use native.Mathlib.Nat.{mul_assoc}
use macos_vm_memory_ratchet.Guest.Programs.{page, ram_gpa}
use macos_vm_memory_ratchet.Guest.Turns.{vm}
use macos_vm_memory_ratchet.Guest.Hypervisor.{Hypervisor, IsDocumented}
use macos_vm_memory_ratchet.Guest.Host.{Vcpu}
use macos_vm_memory_ratchet.Reclaim.{Kernel, ReclaimMode, Trace}
use macos_vm_memory_ratchet.Reclaim.Stage2.{view, IsSafe, IsLinear}
use macos_vm_memory_ratchet.Reclaim.Returns.{IsCompliant}
use macos_vm_memory_ratchet.Soak.{slot_of, half_of}
use macos_vm_memory_ratchet.Soak.Layout.{slot_of_lem}
use macos_vm_memory_ratchet.Soak.Tally.{IsClean}
use macos_vm_memory_ratchet.Soak.Rounds.{IsBench}
use macos_vm_memory_ratchet.Soak.Shared.{Verdict, verdict_of, no_corruption}
use macos_vm_memory_ratchet.Soak.Crew.{Crew, script, turns}
use macos_vm_memory_ratchet.Soak.Crew.Safe.{AllBelow, occurrences}
use macos_vm_memory_ratchet.Soak.Crew.Whole.{assembled, turns-assembled}

-- What the end of `run` prints, and what it leaves.
pub record Ended : Type 0 where
  pub verdict : Verdict
  pub crew : Crew

abbrev ended : Result Crew → Result Ended
ended (ok d) = ok (record { verdict = verdict_of d.stats; crew = d })
ended (panicked what) = panicked what
ended out_of_fuel = out_of_fuel

module _ (hv : Hypervisor) (kernel : Kernel) (left : Trace → ℕ → ℕ) (fuel ram : ℕ)
    (mode : ReclaimMode) (advice : ℕ) (cycles : ℕ) (vs : ℕ → Vcpu) (words : ℕ → ℕ)
    (calls : Trace) where
  unfoldable pub run : ℕ → ℕ → List ℕ → Result Ended
  unfolding slot_of turns
  run ram_size vcpus ks = elim (slot_of ram_size vcpus) [
    | ok slot ↦ ended (
        turns hv kernel left fuel ram slot (half_of slot) mode advice ks
          (assembled cycles vs words calls))
    | panicked what ↦ panicked what
    | out_of_fuel ↦ out_of_fuel
  ]

-- A whole number of words in front of a slot.
slots_aligned : (k slot : ℕ) → slot % 8 ≡ 0 → k * slot % 8 ≡ 0
slots_aligned k slot h =
    let whole : slot ≡ slot / 8 * 8 = omega (arith, h) in
    ap (λ s. k * s % 8) whole ∙ (ap (λ n. n % 8) (sym (mul_assoc k (slot / 8) 8)) ∙ omega arith)

module _ (code : ℕ → ℕ) (size limit patience fuel : ℕ) (hv : Hypervisor)
    (laws : IsDocumented (vm code size) limit hv) (kernel : Kernel) (good : IsCompliant kernel)
    (left : Trace → ℕ → ℕ) (start : ℕ → Option ℕ) (ram slot : ℕ) (mode : ReclaimMode)
    (advice vcpus : ℕ) (accepted : slot_of size vcpus ≡ ok slot) (aligned : slot % 8 ≡ 0)
    (no_wrap : ram_gpa + size + page < 2 ^ 64) (patient : (i : ℕ) → laws.settles i ≤ i + patience)
    (enough : patience + 1 ≤ fuel) (short : suc ((half_of slot - 1) / page) * 7 + 3 ≤ limit) where
  abbrev half : ℕ
  half = half_of slot

  bench : (k : ℕ) → k < vcpus → IsBench size limit patience fuel slot half k laws.settles
  bench k lt =
      let (whole, big, first, last) = slot_of_lem size vcpus slot k accepted lt in
      let words = slots_aligned k slot aligned in
      record {
        patient = patient;
        fuel_lem = enough;
        hot = record {
          not_empty = omega (arith, big);
          in_ram = omega (arith, first, last);
          aligned = words;
          no_wrap = no_wrap;
        };
        cold = record {
          not_empty = omega (arith, big);
          in_ram = omega (arith, first, last);
          aligned = omega (arith, words, whole);
          no_wrap = no_wrap;
        };
        short = short;
      }

  run-ended :
      (cycles : ℕ) (vs : ℕ → Vcpu) (words : ℕ → ℕ) (calls : Trace) (ks : List ℕ) (d : Crew)
      → turns hv kernel left fuel ram slot half mode advice ks (assembled cycles vs words calls)
        ≡ ok d
      → run hv kernel left fuel ram mode advice cycles vs words calls size vcpus ks
        ≡ ok (record { verdict = verdict_of d.stats; crew = d })
  unfolding run
  run-ended cycles vs words calls ks d e = rw (accepted, run, e) refl

  -- On a documented hypervisor with enough entries, with no reclaim call failing, an accepted
  -- number of vCPUs, one at least, whose slots are whole words, and with every page of the hot
  -- halves fresh: in whatever order the threads act and however often, the soak ends without a
  -- panic, its verdict is that there is no corruption, guest RAM is mapped as before with nothing
  -- handed to the kernel that the guest could reach, and a thread that had as many turns as its
  -- worker has acts is done and has its number of sweeps in each page of its hot half. It is
  -- assumed that memory keeps what the guest writes except in the ranges that are reclaimed,
  -- whatever those read afterwards, and that the threads act one at a time.
  pub run_lem :
      0 < vcpus
      → (cycles : ℕ) (vs : ℕ → Vcpu) (words : ℕ → ℕ) (calls : Trace) (ks : List ℕ)
      → ((k : ℕ) → k < vcpus → IsClean (k * slot) (k * slot + half) 0 words)
      → IsLinear ram size (view start calls)
      → IsSafe start calls
      → AllBelow vcpus ks
      → (d : Crew) × (run hv kernel left fuel ram mode advice cycles vs words calls size vcpus ks
          ≡ ok (record { verdict = no_corruption; crew = d }))
        × IsLinear ram size (view start d.calls)
        × IsSafe start d.calls
        × ((k : ℕ)
            → k < vcpus
            → length (script cycles k) ≤ occurrences k ks
            → ((d.threads k).todo ≡ List.[])
              × IsClean (k * slot) (k * slot + half) (suc (4 * cycles) % 2 ^ 64) d.ram)
  unfolding run
  run_lem some_vcpu cycles vs words calls ks zeros linear safe below =
      let (whole, big, first, last) = slot_of_lem size vcpus slot 0 accepted some_vcpu in
      let (d, e, verdict, linear', safe', finished) =
        turns-assembled code size limit patience fuel hv laws kernel good left start ram slot half
          mode advice vcpus bench (omega (arith, first)) (omega (arith, big)) cycles vs words calls
          ks (record { zero_hot = zeros; linear = linear; safe = safe }) below in
      (
        d,
        run-ended cycles vs words calls ks d e
            ∙ ap (λ v. ok (record { verdict = v; crew = d })) verdict,
        linear',
        safe',
        λ k lt often. let f = finished k lt often in (f.done, f.hot),
      )
