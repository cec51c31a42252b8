-- ===== src/Soak.antt =====
-- crates/hv-reclaim/src/soak.rs: the soak. Each vCPU owns a slot of guest RAM, half of it hot and
-- half cold, and runs `worker` on it.
pub mod Layout
pub mod Tally
pub mod Rounds
pub mod Cycles
pub mod SelfTest
pub mod Integrity
pub mod Shared
pub mod Crew
pub mod Bursts
pub mod Tests
use macos_vm_memory_ratchet.Prelude.{
  ℕ, zero, suc, ◌+◌, ◌-◌, ◌*◌, ◌/◌, ◌%◌, ◌^◌, Bool, true, false, ◌&&◌, ltb, leb, ◌==◌,
  if◌then◌else◌, ok, panicked, out_of_fuel, Result, Run, pure, assert, ◌>>=◌, ◌>>◌, bit_xor,
}
use Prim.Native.Nat.{bit_or}
use macos_vm_memory_ratchet.Guest.Isa.{Guest, update}
use macos_vm_memory_ratchet.Guest.Programs.{page, ram_gpa}
use macos_vm_memory_ratchet.Guest.Hypervisor.{Hypervisor}
use macos_vm_memory_ratchet.Guest.Host.{Vcpu, run_sweep_range, run_fill_range, run_verify_range}
use macos_vm_memory_ratchet.Reclaim.{Kernel, ReclaimMode, Trace, reclaim_range}

pub record Stats : Type 0 where
  pub sweeps : ℕ
  pub page_checks : ℕ
  pub mismatches : ℕ
  pub reclaims : ℕ

-- A worker: its vCPU, the host's calls so far, the counters and its two variables.
pub record Worker : Type 0 where
  pub vcpu : Vcpu
  pub calls : Trace
  pub stats : Stats
  pub hot_sweeps : ℕ
  pub cycle : ℕ

abbrev pub fetch_add : ℕ → ℕ → ℕ
fetch_add n more = (n + more) % 2 ^ 64

-- `run`: the slot of a vCPU, its check, and half of it in whole pages.
unfoldable pub slot_of : ℕ → ℕ → Result ℕ
slot_of ram_size vcpus =
    let n = if ltb vcpus 1 then 1 else vcpus in
    let slot = ram_size / n in
    if leb (2 * page * 16) slot then ok slot else panicked "--size-gb too small to split"

unfoldable pub half_of : ℕ → ℕ
half_of slot = slot / 2 - slot / 2 % page

-- A step of the vCPU.
unfoldable pub on_vcpu {κ} : {A : Type κ} → Run Vcpu A → Run Worker A
on_vcpu m w = elim (m w.vcpu) [
  | ok (a, v) ↦ ok (a, record w { vcpu = v })
  | panicked what ↦ panicked what
  | out_of_fuel ↦ out_of_fuel
]

unfoldable pub count_sweep : Run Worker (Unit {0})
count_sweep w =
    ok (tt, record w { stats = record (w.stats) { sweeps = fetch_add w.stats.sweeps 1 } })

-- The two `fetch_add` after a verification.
unfoldable pub count_check : ℕ → ℕ → Run Worker (Unit {0})
count_check pages bad w = ok (
  tt,
  record w {
    stats = record (w.stats) {
      page_checks = fetch_add w.stats.page_checks pages;
      mismatches = fetch_add w.stats.mismatches bad;
    };
  },
)

unfoldable pub count_reclaim : Run Worker (Unit {0})
count_reclaim w =
    ok (tt, record w { stats = record (w.stats) { reclaims = fetch_add w.stats.reclaims 1 } })

-- Host stores to guest RAM at an offset, and what the vCPU finds in a reclaimed range: `left` says
-- what each word reads after the calls so far.
unfoldable pub poke : ℕ → ℕ → Run Vcpu (Unit {0})
poke off value v =
    ok
      (tt, record v { guest = record (v.guest) { ram = update v.guest.ram (ram_gpa + off) value } })

abbrev pub replaced : ℕ → ℕ → (ℕ → ℕ) → (ℕ → ℕ) → ℕ → ℕ
replaced from to left ram q =
    if leb (ram_gpa + from) q && ltb q (ram_gpa + to) then left q else ram q

-- The hot half of the `k`-th slot, and the cold half behind it.
abbrev pub hot_start : ℕ → ℕ → ℕ → ℕ
hot_start slot half k = k * slot

abbrev pub middle : ℕ → ℕ → ℕ → ℕ
middle slot half k = k * slot + half

abbrev pub cold_end : ℕ → ℕ → ℕ → ℕ
cold_end slot half k = k * slot + 2 * half

module _ (hv : Hypervisor) (kernel : Kernel) (left : Trace → ℕ → ℕ) (fuel ram slot half : ℕ)
    (mode : ReclaimMode) (advice : ℕ) where
  -- `reclaim` of soak.rs.
  unfoldable pub reclaim : ℕ → ℕ → Run Worker (Unit {0})
  reclaim from to w = elim (reclaim_range kernel ram from (to - from) mode advice w.calls) [
    | ok (u, calls) ↦ ok (
      tt,
      record w {
        calls = calls;
        vcpu = record (w.vcpu) {
          guest = record (w.vcpu.guest) { ram = replaced from to (left calls) w.vcpu.guest.ram };
        };
      },
    )
    | panicked what ↦ panicked what
    | out_of_fuel ↦ out_of_fuel
  ]

  unfoldable pub detector_self_test : ℕ → ℕ → ℕ → Run Vcpu (Unit {0})
  unfolding poke
  detector_self_test from to expected v =
      let victim = from + page in
      let saved = v.guest.ram (ram_gpa + victim) in
      (do
        poke victim (bit_xor saved 0xDEAD_BEEF)
        found ← run_verify_range hv fuel from to expected
        poke victim saved
        assert (found == 1) "integrity detector self-test failed"
        clean ← run_verify_range hv fuel from to expected
        assert (clean == 0) "detector reports mismatches on clean memory")
        v

  -- The part of a worker that is the `k`-th.
  module _ (k : ℕ) where
    -- One round of the hot half.
    unfoldable pub hot_round : Run Worker (Unit {0})
    unfolding on_vcpu count_sweep count_check
    hot_round = do
      on_vcpu (run_sweep_range hv fuel (hot_start slot half k) (middle slot half k))
      (λ w. ok (tt, record w { hot_sweeps = fetch_add w.hot_sweeps 1 }))
      count_sweep
      bad ← (λ w.
          on_vcpu
            (run_verify_range hv fuel (hot_start slot half k) (middle slot half k) w.hot_sweeps) w)
      count_check (half / page) bad

    -- The cold half: touched, handed back, taken again and verified twice.
    unfoldable pub cold_round : Run Worker (Unit {0})
    unfolding on_vcpu count_sweep count_check count_reclaim reclaim
    cold_round = do
      (λ w. ok (tt, record w { cycle = fetch_add w.cycle 1 }))
      on_vcpu (run_sweep_range hv fuel (middle slot half k) (cold_end slot half k))
      count_sweep
      reclaim (middle slot half k) (cold_end slot half k)
      count_reclaim
      stamp ← (λ w. ok (bit_or (k * 2 ^ 32 % 2 ^ 64) w.cycle, w))
      on_vcpu (run_fill_range hv fuel (middle slot half k) (cold_end slot half k) stamp)
      bad ← on_vcpu (run_verify_range hv fuel (middle slot half k) (cold_end slot half k) stamp)
      count_check (half / page) bad
      again ← on_vcpu (run_verify_range hv fuel (middle slot half k) (cold_end slot half k) stamp)
      count_check (half / page) again

    unfoldable pub hot_rounds : ℕ → Run Worker (Unit {0})
    hot_rounds zero = pure tt
    hot_rounds (suc n) = do hot_round; hot_rounds n

    -- The loop, whose test of the deadline lets it run `cycles` times: HOT_SWEEPS_PER_CYCLE rounds
    -- of the hot half and one of the cold half.
    unfoldable pub worker_loop : ℕ → Run Worker (Unit {0})
    worker_loop zero = pure tt
    worker_loop (suc cycles) = do hot_rounds 4; cold_round; worker_loop cycles

    -- `worker`, from its vCPU's creation to its destruction.
    unfoldable pub worker : ℕ → Run Worker (Unit {0})
    unfolding on_vcpu
    worker cycles = do
      on_vcpu (run_sweep_range hv fuel (hot_start slot half k) (middle slot half k))
      (λ w. ok (tt, record w { hot_sweeps = fetch_add w.hot_sweeps 1 }))
      (if k == 0
          then (λ w.
              on_vcpu (detector_self_test (hot_start slot half k) (middle slot half k) w.hot_sweeps)
                w)
          else pure tt)
      worker_loop cycles
