-- ===== src/Soak/Crew/Whole.antt =====
-- The soak of crates/hv-reclaim/src/soak.rs from the start of its threads, as `run` assembles them,
-- to its verdict.
use macos_vm_memory_ratchet.Prelude.{
  ℕ, zero, suc, ◌+◌, ◌*◌, ◌%◌, ◌^◌, ◌≤◌, ◌<◌, ◌≡◌, refl, ap, ◌∙◌, arith, false, List, [], ◌∷◌,
  length, ◌==◌, if◌then◌else◌, ok, Option, Bool-cases, inl, inr,
}
use macos_vm_memory_ratchet.Guest.Programs.{page}
use macos_vm_memory_ratchet.Guest.Turns.{vm}
use macos_vm_memory_ratchet.Guest.Hypervisor.{Hypervisor, IsDocumented}
use macos_vm_memory_ratchet.Guest.Host.{Vcpu}
use macos_vm_memory_ratchet.Reclaim.{Kernel, ReclaimMode, Trace}
use macos_vm_memory_ratchet.Reclaim.Stage2.{view, IsSafe, IsLinear}
use macos_vm_memory_ratchet.Reclaim.Returns.{IsCompliant}
use macos_vm_memory_ratchet.Soak.{hot_start, middle}
use macos_vm_memory_ratchet.Soak.Tally.{IsClean}
use macos_vm_memory_ratchet.Soak.Rounds.{IsBench}
use macos_vm_memory_ratchet.Soak.Shared.{zeros, verdict_of, no_corruption}
use macos_vm_memory_ratchet.Soak.Crew.{
  Act, sweep_cold, reclaim_cold, fill_cold, verify_cold, Crew, hot_acts, cycle_acts, script, turns,
}
use macos_vm_memory_ratchet.Soak.Crew.Acts.{hot_left, verifies, IsOrdered}
use macos_vm_memory_ratchet.Soak.Crew.Safe.{IsUnder, AllBelow, occurrences, turns_lem}

-- `run` up to the start of its threads, each of which goes through `cycles` cycles before the
-- deadline, on guest RAM with these words and after these calls.
abbrev pub assembled : ℕ → (ℕ → Vcpu) → (ℕ → ℕ) → Trace → Crew
assembled cycles vcpus words calls = record {
  ram = words;
  calls = calls;
  stats = zeros;
  threads = λ k. record {
    worker = record { vcpu = vcpus k; calls = []; stats = zeros; hot_sweeps = 0; cycle = 0 };
    todo = script cycles k;
  };
}

-- The sweeps of a thread's hot half.
abbrev pub sweeps_of : ℕ → ℕ
sweeps_of cycles = suc (4 * cycles)

hot_left-hot_acts : (n : ℕ) (rest : List Act) → hot_left (hot_acts n rest) ≡ n + hot_left rest
hot_left-hot_acts zero rest = omega arith
hot_left-hot_acts (suc n) rest = omega (arith, hot_left-hot_acts n rest)

hot_left-cycle_acts : (cycles : ℕ) → hot_left (cycle_acts cycles) ≡ 4 * cycles
hot_left-cycle_acts zero = refl
hot_left-cycle_acts (suc cycles) = omega (arith, hot_left-cycle_acts cycles)

hot_left-script : (cycles k : ℕ) → hot_left (script cycles k) ≡ sweeps_of cycles
hot_left-script cycles k = elim (Bool-cases (k == 0)) [
  | inl first ↦ rw (first, if◌then◌else◌) (ap suc (hot_left-cycle_acts cycles))
  | inr later ↦ rw (later, if◌then◌else◌) (ap suc (hot_left-cycle_acts cycles))
]

verifies-cycle_acts : (cycles : ℕ) → verifies (cycle_acts cycles) ≡ false
verifies-cycle_acts zero = refl
verifies-cycle_acts (suc cycles) = refl

hot_acts-IsOrdered :
    (n : ℕ) (rest : List Act)
    → verifies rest ≡ false
    → IsOrdered rest
    → (verifies (hot_acts n rest) ≡ false) × IsOrdered (hot_acts n rest)
hot_acts-IsOrdered zero rest none order = (none, order)
hot_acts-IsOrdered (suc n) rest none order =
    let (still, orders) = hot_acts-IsOrdered n rest none order in
    (refl, (λ h. cc, (λ h. cc (h, still), orders)))

cycle_acts-IsOrdered : (cycles : ℕ) → IsOrdered (cycle_acts cycles)
cycle_acts-IsOrdered zero = tt
cycle_acts-IsOrdered (suc cycles) =
    (hot_acts-IsOrdered 4
      (sweep_cold ∷ reclaim_cold ∷ fill_cold ∷ verify_cold ∷ verify_cold ∷ cycle_acts cycles) refl
      (λ h. cc, (λ h. cc, (λ h. refl, (λ h. refl, (λ h. refl, cycle_acts-IsOrdered cycles)))))).1

script-IsOrdered : (cycles k : ℕ) → IsOrdered (script cycles k)
script-IsOrdered cycles k = elim (Bool-cases (k == 0)) [
  | inl first ↦
      rw (first, if◌then◌else◌)
        (λ h. cc, (λ h. cc (h, verifies-cycle_acts cycles), cycle_acts-IsOrdered cycles))
  | inr later ↦
      rw (later, if◌then◌else◌)
        (λ h. cc (h, verifies-cycle_acts cycles), cycle_acts-IsOrdered cycles)
]

module _ (code : ℕ → ℕ) (size limit patience fuel : ℕ) (hv : Hypervisor)
    (laws : IsDocumented (vm code size) limit hv) (kernel : Kernel) (good : IsCompliant kernel)
    (left : Trace → ℕ → ℕ) (start : ℕ → Option ℕ) (ram slot half : ℕ) (mode : ReclaimMode)
    (advice vcpus : ℕ)
    (benches : (k : ℕ) → k < vcpus → IsBench size limit patience fuel slot half k laws.settles)
    (fits : 2 * half ≤ slot) (two : page < half) where
  -- The hot halves are fresh, and the VM is mapped as `main` maps it.
  pub record IsAssembled (words : ℕ → ℕ) (calls : Trace) : Type 0 where
    pub zero_hot :
        (k : ℕ) → k < vcpus → IsClean (hot_start slot half k) (middle slot half k) 0 words
    pub linear : IsLinear ram size (view start calls)
    pub safe : IsSafe start calls

  assembled-IsUnder :
      (cycles : ℕ) (vs : ℕ → Vcpu) (words : ℕ → ℕ) (calls : Trace)
      → IsAssembled words calls
      → IsUnder start ram size slot half (sweeps_of cycles) vcpus (assembled cycles vs words calls)
  assembled-IsUnder cycles vs words calls is = record {
    mismatches = refl;
    linear = is.linear;
    safe = is.safe;
    ordered = λ k lt. script-IsOrdered cycles k;
    due = λ k lt. record {
      swept = 0;
      count = omega (arith, hot_left-script cycles k);
      hot = is.zero_hot k lt;
      hot_sweeps = refl;
      filled = λ h. cc;
    };
  }

  -- What a thread that is done leaves.
  pub record IsFinished (cycles k : ℕ) (d : Crew) : Type 0 where
    pub done : (d.threads k).todo ≡ []
    pub hot : IsClean (hot_start slot half k) (middle slot half k) (sweeps_of cycles % 2 ^ 64) d.ram
    pub hot_sweeps : ((d.threads k).worker).hot_sweeps ≡ sweeps_of cycles % 2 ^ 64

  finished :
      (cycles k : ℕ) (d : Crew)
      → k < vcpus
      → (d.threads k).todo ≡ []
      → IsUnder start ram size slot half (sweeps_of cycles) vcpus d
      → IsFinished cycles k d
  finished cycles k d lt done under =
      let due = under.due k lt in
      let all : due.swept ≡ sweeps_of cycles = omega (arith, due.count, ap hot_left done) in
      record {
        done = done;
        hot = λ q h. due.hot q h ∙ ap (λ n. n % 2 ^ 64) all;
        hot_sweeps = due.hot_sweeps ∙ ap (λ n. n % 2 ^ 64) all;
      }

  -- The threads in any order on slots that lie one behind the other; the halves have two pages at
  -- least.
  pub turns-assembled :
      (cycles : ℕ) (vs : ℕ → Vcpu) (words : ℕ → ℕ) (calls : Trace) (ks : List ℕ)
      → IsAssembled words calls
      → AllBelow vcpus ks
      → (d : Crew) × (turns hv kernel left fuel ram slot half mode advice ks
            (assembled cycles vs words calls)
          ≡ ok d)
        × (verdict_of d.stats ≡ no_corruption)
        × IsLinear ram size (view start d.calls)
        × IsSafe start d.calls
        × ((k : ℕ)
            → k < vcpus
            → length (script cycles k) ≤ occurrences k ks
            → IsFinished cycles k d)
  unfolding verdict_of
  turns-assembled cycles vs words calls ks is below =
      let (d, e, under, shorter) =
        turns_lem code size limit patience fuel hv laws kernel good left start ram slot half mode
          advice (sweeps_of cycles) vcpus benches fits two ks (assembled cycles vs words calls)
          below (assembled-IsUnder cycles vs words calls is) in
      (
        d,
        e,
        ground (arith, under.mismatches),
        under.linear,
        under.safe,
        λ k lt often.
            finished cycles k d lt (none_left (d.threads k).todo (omega (arith, shorter k, often)))
              under,
      )
    where
      none_left : (l : List Act) → length l ≡ 0 → l ≡ []
      none_left [] h = refl
      none_left (a ∷ l) h = absurd (omega (arith, h))
