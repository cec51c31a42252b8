-- ===== src/Soak/Crew/Hot.antt =====
-- The acts of a worker of crates/hv-reclaim/src/soak.rs on its hot half.
use macos_vm_memory_ratchet.Prelude.{
  ℕ, suc, ◌+◌, ◌/◌, ◌%◌, ◌^◌, ◌<◌, ◌≡◌, refl, sym, ◌∙◌, arith, true, List, ◌∷◌, if◌then◌else◌, ok,
  ◌>>=◌, Option,
}
use macos_vm_memory_ratchet.Guest.Programs.{page}
use macos_vm_memory_ratchet.Guest.Turns.{vm}
use macos_vm_memory_ratchet.Guest.Hypervisor.{Hypervisor, IsDocumented}
use macos_vm_memory_ratchet.Guest.Host.{Vcpu, run_sweep_range, run_verify_range}
use macos_vm_memory_ratchet.Guest.Enter.{is_first_word}
use macos_vm_memory_ratchet.Guest.Correct.{run_sweep_range_lem}
use macos_vm_memory_ratchet.Reclaim.{Kernel, ReclaimMode, Trace}
use macos_vm_memory_ratchet.Reclaim.Returns.{IsCompliant}
use macos_vm_memory_ratchet.Soak.{
  Worker, fetch_add, count_sweep, count_check, hot_start, middle, cold_end, detector_self_test,
}
use macos_vm_memory_ratchet.Soak.Rounds.{on_vcpu-ok, IsBench, hot-IsEnough, verify_clean}
use macos_vm_memory_ratchet.Soak.SelfTest.{detector_self_test_lem}
use macos_vm_memory_ratchet.Soak.Crew.{Act, first_sweep, self_test, sweep_hot, verify_hot, perform}
use macos_vm_memory_ratchet.Soak.Crew.Acts.{verifies, fills, IsDue, IsCalm, IsDone}

module _ (code : ℕ → ℕ) (size limit patience fuel : ℕ) (hv : Hypervisor)
    (laws : IsDocumented (vm code size) limit hv) (kernel : Kernel) (good : IsCompliant kernel)
    (left : Trace → ℕ → ℕ) (start : ℕ → Option ℕ) (ram slot half : ℕ) (mode : ReclaimMode)
    (advice k : ℕ) (bench : IsBench size limit patience fuel slot half k laws.settles)
    (total : ℕ) where
  abbrev Done : Act → List Act → Worker → Worker → Type 0
  Done =
      IsDone code size limit patience fuel hv laws kernel good left start ram slot half mode advice
        k bench total

  abbrev from : ℕ
  from = hot_start slot half k

  abbrev mid : ℕ
  mid = middle slot half k

  abbrev to : ℕ
  to = cold_end slot half k

  swept_hot :
      (v : Vcpu)
      → (u : Vcpu) × (run_sweep_range hv fuel from mid v ≡ ok (tt, u))
        × ((q : ℕ)
            → u.guest.ram q
              ≡ (if is_first_word from mid q then (v.guest.ram q + 1) % 2 ^ 64 else v.guest.ram q))
  swept_hot v = run_sweep_range_lem code size limit hv laws fuel from mid bench.hot v (
      hot-IsEnough code size limit patience fuel hv laws kernel good left start ram slot half mode
        advice k bench v)

  pub first_sweep-IsDone :
      (rest : List Act) (w : Worker)
      → (verifies rest ≡ true → fills first_sweep ≡ true)
      → IsDue slot half total k (first_sweep ∷ rest) w
      → IsCalm start ram size w
      → (u : Worker) × Done first_sweep rest w u
  unfolding perform
  first_sweep-IsDone rest w order due calm =
      let (v, e, swept) = swept_hot w.vcpu in
      (
        record w { vcpu = v; hot_sweeps = fetch_add w.hot_sweeps 1 },
        record {
          returns = rw (on_vcpu-ok (run_sweep_range hv fuel from mid) w tt v e, ◌>>=◌) refl;
          due = record {
            swept = suc due.swept;
            count = omega (arith, due.count);
            hot = λ q h. swept q ∙ ground (arith, h, due.hot q h);
            hot_sweeps = omega (arith, due.hot_sweeps);
            filled = λ h. absurd (cc (order h));
          };
          calm = record { mismatches = calm.mismatches; linear = calm.linear; safe = calm.safe };
          outside = λ q h. swept q ∙ ground arith;
        },
      )

  pub sweep_hot-IsDone :
      (rest : List Act) (w : Worker)
      → (verifies rest ≡ true → fills sweep_hot ≡ true)
      → IsDue slot half total k (sweep_hot ∷ rest) w
      → IsCalm start ram size w
      → (u : Worker) × Done sweep_hot rest w u
  unfolding perform count_sweep
  sweep_hot-IsDone rest w order due calm =
      let (v, e, swept) = swept_hot w.vcpu in
      (
        record w {
          vcpu = v;
          hot_sweeps = fetch_add w.hot_sweeps 1;
          stats = record (w.stats) { sweeps = fetch_add w.stats.sweeps 1 };
        },
        record {
          returns = rw (on_vcpu-ok (run_sweep_range hv fuel from mid) w tt v e, ◌>>=◌) refl;
          due = record {
            swept = suc due.swept;
            count = omega (arith, due.count);
            hot = λ q h. swept q ∙ ground (arith, h, due.hot q h);
            hot_sweeps = omega (arith, due.hot_sweeps);
            filled = λ h. absurd (cc (order h));
          };
          calm = record { mismatches = calm.mismatches; linear = calm.linear; safe = calm.safe };
          outside = λ q h. swept q ∙ ground arith;
        },
      )

  pub self_test-IsDone :
      page < half
      → (rest : List Act) (w : Worker) → (verifies rest ≡ true → fills self_test ≡ true)
      → IsDue slot half total k (self_test ∷ rest) w
      → IsCalm start ram size w
      → (u : Worker) × Done self_test rest w u
  unfolding perform
  self_test-IsDone two rest w order due calm =
      let (v, e, same) =
        detector_self_test_lem code size limit fuel hv laws kernel left ram slot half mode advice
          from mid bench.hot
          (hot-IsEnough code size limit patience fuel hv laws kernel good left start ram slot half
            mode advice k bench)
          w.hot_sweeps w.vcpu (omega arith) (λ q h. due.hot q h ∙ sym due.hot_sweeps) in
      (
        record w { vcpu = v },
        record {
          returns =
              on_vcpu-ok
                (detector_self_test hv kernel left fuel ram slot half mode advice from mid
                  w.hot_sweeps)
                w tt v e;
          due = record {
            swept = due.swept;
            count = due.count;
            hot = λ q h. same q ∙ due.hot q h;
            hot_sweeps = due.hot_sweeps;
            filled = λ h. absurd (cc (order h));
          };
          calm = record { mismatches = calm.mismatches; linear = calm.linear; safe = calm.safe };
          outside = λ q h. same q;
        },
      )

  pub verify_hot-IsDone :
      (rest : List Act) (w : Worker)
      → (verifies rest ≡ true → fills verify_hot ≡ true)
      → IsDue slot half total k (verify_hot ∷ rest) w
      → IsCalm start ram size w
      → (u : Worker) × Done verify_hot rest w u
  unfolding perform count_check
  verify_hot-IsDone rest w order due calm =
      let (v, e, same) =
        verify_clean code size limit patience fuel hv laws kernel good left start ram slot half mode
          advice k bench from mid w.hot_sweeps w.vcpu bench.hot
          (hot-IsEnough code size limit patience fuel hv laws kernel good left start ram slot half
            mode advice k bench w.vcpu)
          (λ q h. due.hot q h ∙ sym due.hot_sweeps) in
      (
        record w {
          vcpu = v;
          stats = record (w.stats) {
            page_checks = fetch_add w.stats.page_checks (half / page);
            mismatches = fetch_add w.stats.mismatches 0;
          };
        },
        record {
          returns =
              rw (on_vcpu-ok (run_verify_range hv fuel from mid w.hot_sweeps) w 0 v e, ◌>>=◌) refl;
          due = record {
            swept = due.swept;
            count = due.count;
            hot = λ q h. same q ∙ due.hot q h;
            hot_sweeps = due.hot_sweeps;
            filled = λ h. absurd (cc (order h));
          };
          calm = record {
            mismatches = omega (arith, calm.mismatches);
            linear = calm.linear;
            safe = calm.safe;
          };
          outside = λ q h. same q;
        },
      )
