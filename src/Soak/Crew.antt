-- ===== src/Soak/Crew.antt =====
-- All workers of crates/hv-reclaim/src/soak.rs at once, as `run` starts them: each is a thread with
-- its own vCPU, and they share guest RAM, the VM's mapping and the counters. What a thread does
-- between two points at which another may run is an `Act`: a pass of the guest with the additions
-- behind it, a reclaim, the self-test. A schedule says which thread acts next.
pub mod Script
pub mod Acts
pub mod Hot
pub mod Cold
pub mod Each
pub mod Frame
pub mod Safe
pub mod Whole
pub mod Ending
use macos_vm_memory_ratchet.Prelude.{
  ℕ, zero, suc, ◌+◌, ◌*◌, ◌/◌, ◌%◌, ◌^◌, Bool, true, false, List, [], ◌∷◌, ◌++◌, ◌==◌, ltb,
  if◌then◌else◌, Run, Result, pure, ok, panicked, out_of_fuel, ◌>>=◌, ◌>>◌,
}
use Prim.Native.Nat.{bit_or}
use macos_vm_memory_ratchet.Guest.Programs.{page}
use macos_vm_memory_ratchet.Guest.Hypervisor.{Hypervisor}
use macos_vm_memory_ratchet.Guest.Host.{run_sweep_range, run_fill_range, run_verify_range}
use macos_vm_memory_ratchet.Reclaim.{Kernel, ReclaimMode, Trace}
use macos_vm_memory_ratchet.Soak.{
  Stats, Worker, fetch_add, on_vcpu, count_sweep, count_check, count_reclaim, hot_start, middle,
  cold_end, reclaim, detector_self_test,
}

pub data Act : Type 0 where
  first_sweep self_test sweep_hot verify_hot sweep_cold reclaim_cold fill_cold verify_cold : Act

-- One round of the hot half, and one of the cold half.
abbrev pub hot_acts : ℕ → List Act → List Act
hot_acts zero rest = rest
hot_acts (suc n) rest = sweep_hot ∷ verify_hot ∷ hot_acts n rest

abbrev pub cycle_acts : ℕ → List Act
cycle_acts zero = []
cycle_acts (suc cycles) =
    hot_acts 4
      (sweep_cold ∷ reclaim_cold ∷ fill_cold ∷ verify_cold ∷ verify_cold ∷ cycle_acts cycles)

-- `worker` of the `k`-th vCPU.
abbrev pub script : ℕ → ℕ → List Act
script cycles k =
    first_sweep ∷ (if k == 0 then self_test ∷ cycle_acts cycles else cycle_acts cycles)

-- A thread: what it alone changes, the shared fields of its worker being stale, and what it has yet
-- to do.
pub record Thread : Type 0 where
  pub worker : Worker
  pub todo : List Act

pub record Crew : Type 0 where
  pub ram : ℕ → ℕ
  pub calls : Trace
  pub stats : Stats
  pub threads : ℕ → Thread

-- The worker of a thread when it is its turn.
abbrev pub enter : Crew → Thread → Worker
enter c t = record (t.worker) {
  calls = c.calls;
  stats = c.stats;
  vcpu = record (t.worker.vcpu) { guest = record (t.worker.vcpu.guest) { ram = c.ram } };
}

-- What is left of its turn.
abbrev pub leave : Crew → ℕ → Worker → List Act → Crew
leave c k w rest = record {
  ram = w.vcpu.guest.ram;
  calls = w.calls;
  stats = w.stats;
  threads = λ j. if j == k then record { worker = w; todo = rest } else c.threads j;
}

-- `hot_sweeps += 1` and `cycle += 1`.
abbrev pub count_hot : Run Worker (Unit {0})
count_hot w = ok (tt, record w { hot_sweeps = fetch_add w.hot_sweeps 1 })

abbrev pub count_cycle : Run Worker (Unit {0})
count_cycle w = ok (tt, record w { cycle = fetch_add w.cycle 1 })

-- The stamp of the `k`-th worker's cycle.
abbrev pub stamp_of : ℕ → Worker → ℕ
stamp_of k w = bit_or (k * 2 ^ 32 % 2 ^ 64) w.cycle

module _ (hv : Hypervisor) (kernel : Kernel) (left : Trace → ℕ → ℕ) (fuel ram slot half : ℕ)
    (mode : ReclaimMode) (advice : ℕ) where
  unfoldable pub perform : ℕ → Act → Run Worker (Unit {0})
  unfolding on_vcpu count_sweep count_check count_reclaim reclaim detector_self_test
  perform k first_sweep = do
    on_vcpu (run_sweep_range hv fuel (hot_start slot half k) (middle slot half k))
    count_hot
  perform k self_test = λ w.
      on_vcpu
        (detector_self_test hv kernel left fuel ram slot half mode advice (hot_start slot half k)
          (middle slot half k) w.hot_sweeps)
        w
  perform k sweep_hot = do
    on_vcpu (run_sweep_range hv fuel (hot_start slot half k) (middle slot half k))
    count_hot
    count_sweep
  perform k verify_hot = do
    bad ← (λ w.
        on_vcpu (run_verify_range hv fuel (hot_start slot half k) (middle slot half k) w.hot_sweeps)
          w)
    count_check (half / page) bad
  perform k sweep_cold = do
    count_cycle
    on_vcpu (run_sweep_range hv fuel (middle slot half k) (cold_end slot half k))
    count_sweep
  perform k reclaim_cold = do
    reclaim hv kernel left fuel ram slot half mode advice (middle slot half k)
        (cold_end slot half k)
    count_reclaim
  perform k fill_cold = λ w.
      on_vcpu (run_fill_range hv fuel (middle slot half k) (cold_end slot half k) (stamp_of k w)) w
  perform k verify_cold = do
    bad ← (λ w.
        on_vcpu
          (run_verify_range hv fuel (middle slot half k) (cold_end slot half k) (stamp_of k w)) w)
    count_check (half / page) bad

  -- A thread by itself.
  unfoldable pub perform_all : ℕ → List Act → Run Worker (Unit {0})
  unfolding perform
  perform_all k [] = pure tt
  perform_all k (a ∷ rest) = do perform k a; perform_all k rest

  -- The next act of the `k`-th thread; a thread that is done, or was never started, does nothing.
  unfoldable pub turn : ℕ → Crew → Result Crew
  unfolding perform
  turn k c = elim ((c.threads k).todo) [
    | [] ↦ ok c
    | a ∷ rest ↦ elim (perform k a (enter c (c.threads k))) [
      | ok (done, w) ↦ ok (leave c k w rest)
      | panicked what ↦ panicked what
      | out_of_fuel ↦ out_of_fuel
    ]
  ]

  unfoldable pub turns : List ℕ → Crew → Result Crew
  unfolding turn
  turns [] c = ok c
  turns (k ∷ rest) c = elim (turn k c) [
    | ok d ↦ turns rest d
    | panicked what ↦ panicked what
    | out_of_fuel ↦ out_of_fuel
  ]
