-- ===== src/Soak/Crew/Cold.antt =====
-- The acts of a worker of crates/hv-reclaim/src/soak.rs on its cold half.
use macos_vm_memory_ratchet.Prelude.{
  ℕ, ◌+◌, ◌/◌, ◌%◌, ◌^◌, ◌≡◌, refl, ◌∙◌, arith, true, false, List, ◌∷◌, if◌then◌else◌, ok, ◌>>=◌,
  Option,
}
use macos_vm_memory_ratchet.Guest.Programs.{page}
use macos_vm_memory_ratchet.Guest.Turns.{vm}
use macos_vm_memory_ratchet.Guest.Hypervisor.{Hypervisor, IsDocumented}
use macos_vm_memory_ratchet.Guest.Host.{Vcpu, run_sweep_range, run_fill_range, run_verify_range}
use macos_vm_memory_ratchet.Guest.Enter.{is_first_word}
use macos_vm_memory_ratchet.Guest.Correct.{run_sweep_range_lem, run_fill_range_lem}
use macos_vm_memory_ratchet.Reclaim.{Kernel, ReclaimMode, Trace}
use macos_vm_memory_ratchet.Reclaim.Safe.{triple}
use macos_vm_memory_ratchet.Reclaim.Returns.{IsCompliant}
use macos_vm_memory_ratchet.Soak.{
  Worker, fetch_add, count_sweep, count_check, count_reclaim, hot_start, middle, cold_end, replaced,
}
use macos_vm_memory_ratchet.Soak.Rounds.{
  on_vcpu-ok, IsBench, cold-IsEnough, verify_clean, apart, kept,
}
use macos_vm_memory_ratchet.Soak.Cycles.{reclaim_lem}
use macos_vm_memory_ratchet.Soak.Crew.{
  Act, sweep_cold, reclaim_cold, fill_cold, verify_cold, stamp_of, perform,
}
use macos_vm_memory_ratchet.Soak.Crew.Acts.{verifies, fills, IsDue, IsCalm, IsDone}

module _ (code : ℕ → ℕ) (size limit patience fuel : ℕ) (hv : Hypervisor)
    (laws : IsDocumented (vm code size) limit hv) (kernel : Kernel) (good : IsCompliant kernel)
    (left : Trace → ℕ → ℕ) (start : ℕ → Option ℕ) (ram slot half : ℕ) (mode : ReclaimMode)
    (advice k : ℕ) (bench : IsBench size limit patience fuel slot half k laws.settles)
    (total : ℕ) where
  abbrev Done : Act → List Act → Worker → Worker → Type 0
  Done =
      IsDone code size limit patience fuel hv laws kernel good left start ram slot half mode advice
        k bench total

  abbrev from : ℕ
  from = hot_start slot half k

  abbrev mid : ℕ
  mid = middle slot half k

  abbrev to : ℕ
  to = cold_end slot half k

  swept_cold :
      (v : Vcpu)
      → (u : Vcpu) × (run_sweep_range hv fuel mid to v ≡ ok (tt, u))
        × ((q : ℕ)
            → u.guest.ram q
              ≡ (if is_first_word mid to q then (v.guest.ram q + 1) % 2 ^ 64 else v.guest.ram q))
  swept_cold v = run_sweep_range_lem code size limit hv laws fuel mid to bench.cold v (
      cold-IsEnough code size limit patience fuel hv laws kernel good left start ram slot half mode
        advice k bench v)

  pub sweep_cold-IsDone :
      (rest : List Act) (w : Worker)
      → (verifies rest ≡ true → fills sweep_cold ≡ true)
      → IsDue slot half total k (sweep_cold ∷ rest) w
      → IsCalm start ram size w
      → (u : Worker) × Done sweep_cold rest w u
  unfolding perform count_sweep
  sweep_cold-IsDone rest w order due calm =
      let (v, e, swept) = swept_cold w.vcpu in
      let w0 : Worker = record w { cycle = fetch_add w.cycle 1 } in
      (
        record w0 { vcpu = v; stats = record (w.stats) { sweeps = fetch_add w.stats.sweeps 1 } },
        record {
          returns = rw (on_vcpu-ok (run_sweep_range hv fuel mid to) w0 tt v e, ◌>>=◌) refl;
          due = record {
            swept = due.swept;
            count = due.count;
            hot = λ q h. swept q ∙ ground (arith, h, hot_only q h, due.hot q h);
            hot_sweeps = due.hot_sweeps;
            filled = λ h. absurd (cc (order h));
          };
          calm = record { mismatches = calm.mismatches; linear = calm.linear; safe = calm.safe };
          outside = λ q h. swept q ∙ ground arith;
        },
      )
    where
      hot_only : (q : ℕ) → is_first_word from mid q ≡ true → is_first_word mid to q ≡ false
      hot_only =
          apart code size limit patience fuel hv laws kernel good left start ram slot half mode
            advice k bench

  pub reclaim_cold-IsDone :
      (rest : List Act) (w : Worker)
      → (verifies rest ≡ true → fills reclaim_cold ≡ true)
      → IsDue slot half total k (reclaim_cold ∷ rest) w
      → IsCalm start ram size w
      → (u : Worker) × Done reclaim_cold rest w u
  unfolding perform count_reclaim
  reclaim_cold-IsDone rest w order due calm =
      let calls : Trace = triple ram mid half mode advice w.calls in
      let (linear, safe) =
        kept code size limit patience fuel hv laws kernel good left start ram slot half mode advice
          k bench w.calls calm.linear calm.safe in
      (
        record w {
          calls = calls;
          vcpu = record (w.vcpu) {
            guest = record (w.vcpu.guest) { ram = replaced mid to (left calls) w.vcpu.guest.ram };
          };
          stats = record (w.stats) { reclaims = fetch_add w.stats.reclaims 1 };
        },
        record {
          returns =
              rw
                (
                  reclaim_lem code size limit patience fuel hv laws kernel good left start ram slot
                      half mode advice k bench w,
                  ◌>>=◌,
                )
                refl;
          due = record {
            swept = due.swept;
            count = due.count;
            hot = λ q h. ground (arith, h, due.hot q h);
            hot_sweeps = due.hot_sweeps;
            filled = λ h. absurd (cc (order h));
          };
          calm = record { mismatches = calm.mismatches; linear = linear; safe = safe };
          outside = λ q h. ground (arith, h);
        },
      )

  pub fill_cold-IsDone :
      (rest : List Act) (w : Worker)
      → IsDue slot half total k (fill_cold ∷ rest) w
      → IsCalm start ram size w
      → (u : Worker) × Done fill_cold rest w u
  unfolding perform
  fill_cold-IsDone rest w due calm =
      let stamp : ℕ = stamp_of k w in
      let (v, e, filled) =
        run_fill_range_lem code size limit hv laws fuel mid to bench.cold w.vcpu
          (cold-IsEnough code size limit patience fuel hv laws kernel good left start ram slot half
            mode advice k bench w.vcpu)
          stamp in
      (
        record w { vcpu = v },
        record {
          returns = on_vcpu-ok (run_fill_range hv fuel mid to stamp) w tt v e;
          due = record {
            swept = due.swept;
            count = due.count;
            hot = λ q h. filled q ∙ ground (arith, h, hot_only q h, due.hot q h);
            hot_sweeps = due.hot_sweeps;
            filled = λ _ q h. filled q ∙ (rw h);
          };
          calm = record { mismatches = calm.mismatches; linear = calm.linear; safe = calm.safe };
          outside = λ q h. filled q ∙ ground arith;
        },
      )
    where
      hot_only : (q : ℕ) → is_first_word from mid q ≡ true → is_first_word mid to q ≡ false
      hot_only =
          apart code size limit patience fuel hv laws kernel good left start ram slot half mode
            advice k bench

  pub verify_cold-IsDone :
      (rest : List Act) (w : Worker)
      → IsDue slot half total k (verify_cold ∷ rest) w
      → IsCalm start ram size w
      → (u : Worker) × Done verify_cold rest w u
  unfolding perform count_check
  verify_cold-IsDone rest w due calm =
      let stamp : ℕ = stamp_of k w in
      let (v, e, same) =
        verify_clean code size limit patience fuel hv laws kernel good left start ram slot half mode
          advice k bench mid to stamp w.vcpu bench.cold
          (cold-IsEnough code size limit patience fuel hv laws kernel good left start ram slot half
            mode advice k bench w.vcpu)
          (due.filled refl) in
      (
        record w {
          vcpu = v;
          stats = record (w.stats) {
            page_checks = fetch_add w.stats.page_checks (half / page);
            mismatches = fetch_add w.stats.mismatches 0;
          };
        },
        record {
          returns = rw (on_vcpu-ok (run_verify_range hv fuel mid to stamp) w 0 v e, ◌>>=◌) refl;
          due = record {
            swept = due.swept;
            count = due.count;
            hot = λ q h. same q ∙ due.hot q h;
            hot_sweeps = due.hot_sweeps;
            filled = λ _ q h. same q ∙ due.filled refl q h;
          };
          calm = record {
            mismatches = omega (arith, calm.mismatches);
            linear = calm.linear;
            safe = calm.safe;
          };
          outside = λ q h. same q;
        },
      )
