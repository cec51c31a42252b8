-- ===== src/Soak/Integrity.antt =====
-- `worker` of crates/hv-reclaim/src/soak.rs on memory that keeps what it is given.
use macos_vm_memory_ratchet.Prelude.{
  ℕ, zero, suc, ◌+◌, ◌*◌, ◌/◌, ◌%◌, ◌^◌, ◌<◌, ◌≡◌, refl, ap, sym, ◌∙◌, arith, ◌==◌, if◌then◌else◌,
  ok, ◌>>=◌, >>=-ok, Bool-cases, inl, inr, Result, pure, Option,
}
use macos_vm_memory_ratchet.Guest.Programs.{page}
use macos_vm_memory_ratchet.Guest.Turns.{vm}
use macos_vm_memory_ratchet.Guest.Hypervisor.{Hypervisor, IsDocumented}
use macos_vm_memory_ratchet.Guest.Host.{run_sweep_range}
use macos_vm_memory_ratchet.Guest.Correct.{run_sweep_range_lem}
use macos_vm_memory_ratchet.Reclaim.{Kernel, ReclaimMode, Trace}
use macos_vm_memory_ratchet.Reclaim.Stage2.{view, IsSafe, IsLinear}
use macos_vm_memory_ratchet.Reclaim.Returns.{IsCompliant}
use macos_vm_memory_ratchet.Soak.{Worker, fetch_add, on_vcpu, hot_round, cold_round}
use macos_vm_memory_ratchet.Soak.Tally.{IsClean}
use macos_vm_memory_ratchet.Soak.{hot_rounds, worker_loop, detector_self_test, worker}
use macos_vm_memory_ratchet.Soak.SelfTest.{detector_self_test_lem}
use macos_vm_memory_ratchet.Soak.Cycles.{cold_round_lem}
use macos_vm_memory_ratchet.Soak.Rounds.{on_vcpu-ok, IsBench, IsSound, hot-IsEnough, hot_round_lem}

module _ (code : ℕ → ℕ) (size limit patience fuel : ℕ) (hv : Hypervisor)
    (laws : IsDocumented (vm code size) limit hv) (kernel : Kernel) (good : IsCompliant kernel)
    (left : Trace → ℕ → ℕ) (start : ℕ → Option ℕ) (ram slot half : ℕ) (mode : ReclaimMode)
    (advice k : ℕ) (bench : IsBench size limit patience fuel slot half k laws.settles) where
  abbrev Sound : Worker → ℕ → ℕ → ℕ → ℕ → Type 0
  Sound =
      IsSound code size limit patience fuel hv laws kernel good left start ram slot half mode advice
        k bench

  recount :
      (w : Worker) {a b c d a' b' c' d' : ℕ}
      → a ≡ a'
      → b ≡ b'
      → c ≡ c'
      → d ≡ d'
      → Sound w a b c d
      → Sound w a' b' c' d'
  recount w p q r s sound = record {
    hot = λ x h. sound.hot x h ∙ ap (λ n. n % 2 ^ 64) p;
    hot_sweeps = sound.hot_sweeps ∙ ap (λ n. n % 2 ^ 64) p;
    sweeps_lem = sound.sweeps_lem ∙ ap (λ n. n % 2 ^ 64) q;
    checks_lem = sound.checks_lem ∙ ap (λ n. n % 2 ^ 64) r;
    mismatches = sound.mismatches;
    reclaims_lem = sound.reclaims_lem ∙ ap (λ n. n % 2 ^ 64) s;
    linear = sound.linear;
    safe = sound.safe;
  }

  hot_rounds_lem :
      (m : ℕ) (w : Worker) (n sweeps checks reclaims : ℕ)
      → Sound w n sweeps checks reclaims
      → (u : Worker) × (hot_rounds hv kernel left fuel ram slot half mode advice k m w ≡ ok (tt, u))
        × Sound u (n + m) (sweeps + m) (checks + m * (half / page)) reclaims
  unfolding hot_rounds
  hot_rounds_lem zero w n sweeps checks reclaims sound =
      (w, refl, recount w (omega arith) (omega arith) (grind arith) refl sound)
  hot_rounds_lem (suc m) w n sweeps checks reclaims sound =
      let (w1, e1, s1) =
        hot_round_lem code size limit patience fuel hv laws kernel good left start ram slot half
          mode advice k bench w n sweeps checks reclaims sound in
      let (w2, e2, s2) =
        hot_rounds_lem m w1 (n + 1) (sweeps + 1) (checks + half / page) reclaims s1 in
      (
        w2,
        >>=-ok (hot_round hv kernel left fuel ram slot half mode advice k) _ w w1 tt e1 ∙ e2,
        recount w2 (omega arith) (omega arith) (grind arith) refl s2,
      )

  worker_loop_lem :
      (c : ℕ) (w : Worker) (n sweeps checks reclaims : ℕ)
      → Sound w n sweeps checks reclaims
      → (u : Worker) × (worker_loop hv kernel left fuel ram slot half mode advice k c w
          ≡ ok (tt, u))
        × Sound u (n + 4 * c) (sweeps + 5 * c) (checks + c * (6 * (half / page))) (reclaims + c)
  unfolding worker_loop
  worker_loop_lem zero w n sweeps checks reclaims sound =
      (w, refl, recount w (omega arith) (omega arith) (grind arith) (omega arith) sound)
  worker_loop_lem (suc c) w n sweeps checks reclaims sound =
      let (w1, e1, s1) = hot_rounds_lem 4 w n sweeps checks reclaims sound in
      let (w2, e2, s2) =
        cold_round_lem code size limit patience fuel hv laws kernel good left start ram slot half
          mode advice k bench w1 (n + 4) (sweeps + 4) (checks + 4 * (half / page)) reclaims s1 in
      let (w3, e3, s3) =
        worker_loop_lem c w2 (n + 4) (sweeps + 4 + 1)
          (checks + 4 * (half / page) + 2 * (half / page)) (reclaims + 1) s2 in
      (
        w3,
        >>=-ok (hot_rounds hv kernel left fuel ram slot half mode advice k 4) _ w w1 tt e1
            ∙ (>>=-ok (cold_round hv kernel left fuel ram slot half mode advice k) _ w1 w2 tt e2
                ∙ e3),
        recount w3 (omega arith) (omega arith) (grind arith) (omega arith) s3,
      )

  -- A worker before its first sweep.
  pub record IsFresh (w : Worker) : Type 0 where
    pub zero_hot : IsClean (k * slot) (k * slot + half) 0 w.vcpu.guest.ram
    pub hot_sweeps_lem : w.hot_sweeps ≡ 0
    pub sweeps_lem : w.stats.sweeps ≡ 0
    pub checks_lem : w.stats.page_checks ≡ 0
    pub mismatches_lem : w.stats.mismatches ≡ 0
    pub reclaims_lem : w.stats.reclaims ≡ 0
    pub linear : IsLinear ram size (view start w.calls)
    pub safe : IsSafe start w.calls

  abbrev tested : Worker → Result (Unit {0} × Worker)
  tested =
      if k == 0
      then (λ w.
          on_vcpu
            (detector_self_test hv kernel left fuel ram slot half mode advice (k * slot)
              (k * slot + half) w.hot_sweeps)
            w)
      else pure tt

  -- The self-test of the first worker changes nothing that counts.
  tested_lem :
      (w : Worker)
      → page < half
      → Sound w 1 0 0 0
      → (u : Worker) × (tested w ≡ ok (tt, u)) × Sound u 1 0 0 0
  tested_lem w two sound = elim (Bool-cases (k == 0)) [
    | inl first ↦
        let (v, e, same) =
          detector_self_test_lem code size limit fuel hv laws kernel left ram slot half mode advice
            (k * slot) (k * slot + half) bench.hot
            (hot-IsEnough code size limit patience fuel hv laws kernel good left start ram slot half
              mode advice k bench)
            w.hot_sweeps w.vcpu (omega arith) (λ q h. sound.hot q h ∙ sym sound.hot_sweeps) in
        (
          record w { vcpu = v },
          rw (first, if◌then◌else◌)
              (on_vcpu-ok
                (detector_self_test hv kernel left fuel ram slot half mode advice (k * slot)
                  (k * slot + half) w.hot_sweeps)
                w tt v e),
          record {
            hot = λ q h. same q ∙ sound.hot q h;
            hot_sweeps = sound.hot_sweeps;
            sweeps_lem = sound.sweeps_lem;
            checks_lem = sound.checks_lem;
            mismatches = sound.mismatches;
            reclaims_lem = sound.reclaims_lem;
            linear = sound.linear;
            safe = sound.safe;
          },
        )
    | inr later ↦ (w, rw (later, if◌then◌else◌), sound)
  ]

  -- On a documented hypervisor with enough entries, and with no reclaim call failing, a worker on
  -- fresh memory returns after any number of cycles, if memory keeps what the guest writes except
  -- in the ranges that are reclaimed, whatever those read afterwards: it has counted six verified
  -- halves and one reclaim for each cycle and not one mismatch, each page of its hot half holds the
  -- number of sweeps, and guest RAM is mapped as before with nothing handed to the kernel that the
  -- guest could reach. The halves have two pages at least.
  pub worker_lem :
      (cycles : ℕ) (w : Worker)
      → page < half
      → IsFresh w
      → (u : Worker) × (worker hv kernel left fuel ram slot half mode advice k cycles w
          ≡ ok (tt, u))
        × IsSound code size limit patience fuel hv laws kernel good left start ram slot half mode
            advice k bench u
            (1 + 4 * cycles)
            (5 * cycles)
            (cycles * (6 * (half / page)))
            cycles
  unfolding worker
  worker_lem cycles w two fresh =
      let (v1, e1, swept) =
        run_sweep_range_lem code size limit hv laws fuel (k * slot) (k * slot + half) bench.hot
          w.vcpu
          (hot-IsEnough code size limit patience fuel hv laws kernel good left start ram slot half
            mode advice k bench w.vcpu) in
      let w1 : Worker = record w { vcpu = v1; hot_sweeps = fetch_add w.hot_sweeps 1 } in
      let sound1 : Sound w1 1 0 0 0 = record {
        hot = λ q h. swept q ∙ ground (arith, h, fresh.zero_hot q h);
        hot_sweeps = omega (arith, fresh.hot_sweeps_lem);
        sweeps_lem = fresh.sweeps_lem;
        checks_lem = fresh.checks_lem;
        mismatches = fresh.mismatches_lem;
        reclaims_lem = fresh.reclaims_lem;
        linear = fresh.linear;
        safe = fresh.safe;
      } in
      let (w2, e2, sound2) = tested_lem w1 two sound1 in
      let (w3, e3, sound3) = worker_loop_lem cycles w2 1 0 0 0 sound2 in
      (
        w3,
        rw (on_vcpu-ok (run_sweep_range hv fuel (k * slot) (k * slot + half)) w tt v1 e1, ◌>>=◌)
            (>>=-ok tested _ w1 w2 tt e2 ∙ e3),
        recount w3 refl (omega arith) (grind arith) (omega arith) sound3,
      )
