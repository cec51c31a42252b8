-- ===== src/Soak/Rounds.antt =====
-- One round of a worker of crates/hv-reclaim/src/soak.rs on its hot half, and one on its cold half.
use macos_vm_memory_ratchet.Prelude.{
  ℕ, suc, ◌+◌, ◌-◌, ◌*◌, ◌/◌, ◌%◌, ◌^◌, ◌≤◌, ◌≡◌, refl, ap, ◌∙◌, arith, true, false, ok, ◌>>=◌, Run,
  Option,
}
use macos_vm_memory_ratchet.Guest.Programs.{page}
use macos_vm_memory_ratchet.Guest.Turns.{vm}
use macos_vm_memory_ratchet.Guest.Hypervisor.{Hypervisor, IsDocumented}
use macos_vm_memory_ratchet.Guest.Host.{Vcpu, run_sweep_range, run_verify_range}
use macos_vm_memory_ratchet.Guest.Enter.{IsRange, is_first_word}
use macos_vm_memory_ratchet.Guest.Correct.{IsEnough, run_sweep_range_lem, run_verify_range_lem}
use macos_vm_memory_ratchet.Reclaim.{Kernel, ReclaimMode, Trace}
use macos_vm_memory_ratchet.Reclaim.Stage2.{view, IsSafe, IsLinear}
use macos_vm_memory_ratchet.Reclaim.Safe.{triple, reclaim_range-IsKept, IsLinear-congr}
use macos_vm_memory_ratchet.Reclaim.Returns.{IsCompliant, reclaim_range-returns}
use macos_vm_memory_ratchet.Soak.{
  Worker, fetch_add, on_vcpu, count_sweep, count_check, hot_start, middle, hot_round,
}
use macos_vm_memory_ratchet.Soak.Tally.{IsClean, tally-IsClean}

pub on_vcpu-ok {κ} :
    {A : Type κ} (m : Run Vcpu A) (w : Worker) (a : A) (v : Vcpu)
    → m w.vcpu ≡ ok (a, v)
    → on_vcpu m w ≡ ok (a, record w { vcpu = v })
unfolding on_vcpu
on_vcpu-ok m w a v e = rw (e, on_vcpu)

-- What the soak runs on: a hypervisor that meets its laws and is never canceled more than `patience`
-- times in a row, calls that succeed, and the two halves of a slot in guest RAM.
pub record IsBench (size limit patience fuel slot half k : ℕ) (settles : ℕ → ℕ) : Type 0 where
  pub patient : (i : ℕ) → settles i ≤ i + patience
  pub fuel_lem : patience + 1 ≤ fuel
  pub hot : IsRange size (k * slot) (k * slot + half)
  pub cold : IsRange size (k * slot + half) (k * slot + 2 * half)
  pub short : suc ((half - 1) / page) * 7 + 3 ≤ limit

module _ (code : ℕ → ℕ) (size limit patience fuel : ℕ) (hv : Hypervisor)
    (laws : IsDocumented (vm code size) limit hv) (kernel : Kernel) (good : IsCompliant kernel)
    (left : Trace → ℕ → ℕ) (start : ℕ → Option ℕ) (ram slot half : ℕ) (mode : ReclaimMode)
    (advice k : ℕ) (bench : IsBench size limit patience fuel slot half k laws.settles) where
  -- After `n` sweeps of the hot half: it is clean, the counters are as they should be, no mismatch
  -- has been seen, and guest RAM is mapped as at the start and nothing handed to the kernel in
  -- reach of the guest.
  pub record IsSound (w : Worker) (n sweeps checks reclaims : ℕ) : Type 0 where
    pub hot : IsClean (hot_start slot half k) (middle slot half k) (n % 2 ^ 64) w.vcpu.guest.ram
    pub hot_sweeps : w.hot_sweeps ≡ n % 2 ^ 64
    pub sweeps_lem : w.stats.sweeps ≡ sweeps % 2 ^ 64
    pub checks_lem : w.stats.page_checks ≡ checks % 2 ^ 64
    pub mismatches : w.stats.mismatches ≡ 0
    pub reclaims_lem : w.stats.reclaims ≡ reclaims % 2 ^ 64
    pub linear : IsLinear ram size (view start w.calls)
    pub safe : IsSafe start w.calls

  pub hot-IsEnough :
      (v : Vcpu) → IsEnough (k * slot) (k * slot + half) limit fuel v.calls (laws.settles v.calls)
  hot-IsEnough v = omega (arith, bench.patient v.calls, bench.fuel_lem, bench.short)

  pub cold-IsEnough :
      (v : Vcpu)
      → IsEnough (k * slot + half) (k * slot + 2 * half) limit fuel v.calls (laws.settles v.calls)
  cold-IsEnough v = omega (arith, bench.patient v.calls, bench.fuel_lem, bench.short)

  -- A verification of a clean range finds nothing.
  pub verify_clean :
      (s e expected : ℕ) (v : Vcpu)
      → IsRange size s e
      → IsEnough s e limit fuel v.calls (laws.settles v.calls)
      → IsClean s e expected v.guest.ram
      → (u : Vcpu) × (run_verify_range hv fuel s e expected v ≡ ok (0, u))
        × ((q : ℕ) → u.guest.ram q ≡ v.guest.ram q)
  verify_clean s e expected v inside enough clean =
      let (u, returns, same) =
        run_verify_range_lem code size limit hv laws fuel s e inside v enough expected in
      (
        u,
        returns
            ∙ ap (λ (n : ℕ). ok (n, u)) (tally-IsClean size s e expected v.guest.ram inside clean),
        same,
      )

  pub hot_round_lem :
      (w : Worker) (n sweeps checks reclaims : ℕ)
      → IsSound w n sweeps checks reclaims
      → (u : Worker) × (hot_round hv kernel left fuel ram slot half mode advice k w ≡ ok (tt, u))
        × IsSound u (n + 1) (sweeps + 1) (checks + half / page) reclaims
  unfolding hot_round count_sweep count_check
  hot_round_lem w n sweeps checks reclaims sound =
      let (v1, e1, swept) =
        run_sweep_range_lem code size limit hv laws fuel (k * slot) (k * slot + half) bench.hot
          w.vcpu (hot-IsEnough w.vcpu) in
      let clean : IsClean (k * slot) (k * slot + half) (fetch_add w.hot_sweeps 1) v1.guest.ram =
        λ q h. swept q ∙ ground (arith, h, sound.hot q h, sound.hot_sweeps) in
      let (v2, e2, same) =
        verify_clean (k * slot) (k * slot + half) (fetch_add w.hot_sweeps 1) v1 bench.hot
          (hot-IsEnough v1) clean in
      let w1 : Worker = record w {
        vcpu = v1;
        hot_sweeps = fetch_add w.hot_sweeps 1;
        stats = record (w.stats) { sweeps = fetch_add w.stats.sweeps 1 };
      } in
      (
        record w1 {
          vcpu = v2;
          stats = record (w1.stats) {
            page_checks = fetch_add w.stats.page_checks (half / page);
            mismatches = fetch_add w.stats.mismatches 0;
          };
        },
        rw (on_vcpu-ok (run_sweep_range hv fuel (k * slot) (k * slot + half)) w tt v1 e1, ◌>>=◌)
            (rw
              (
                on_vcpu-ok
                    (run_verify_range hv fuel (k * slot) (k * slot + half)
                      (fetch_add w.hot_sweeps 1))
                    w1 0 v2 e2,
                ◌>>=◌,
              )
              refl),
        record {
          hot = λ q h. same q ∙ (clean q h ∙ omega (arith, sound.hot_sweeps));
          hot_sweeps = omega (arith, sound.hot_sweeps);
          sweeps_lem = omega (arith, sound.sweeps_lem);
          checks_lem = omega (arith, sound.checks_lem);
          mismatches = omega (arith, sound.mismatches);
          reclaims_lem = sound.reclaims_lem;
          linear = sound.linear;
          safe = sound.safe;
        },
      )

  -- The two halves have no word in common.
  pub apart :
      (q : ℕ)
      → is_first_word (k * slot) (k * slot + half) q ≡ true
      → is_first_word (k * slot + half) (k * slot + 2 * half) q ≡ false
  apart q h = ground arith

  pub kept :
      (calls : Trace)
      → IsLinear ram size (view start calls)
      → IsSafe start calls
      → let after = triple ram (k * slot + half) half mode advice calls in
        IsLinear ram size (view start after) × IsSafe start after
  kept calls linear safe =
      let k' =
        reclaim_range-IsKept kernel start ram size mode advice (k * slot + half) half calls _
          (omega (arith, bench.cold.in_ram)) linear
          (reclaim_range-returns kernel ram mode advice good (k * slot + half) half calls) in
      (IsLinear-congr ram size _ _ k'.same_view linear, k'.safe.1 safe)
