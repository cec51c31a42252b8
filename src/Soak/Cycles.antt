-- ===== src/Soak/Cycles.antt =====
-- The cold round of a worker of crates/hv-reclaim/src/soak.rs, and its loop.
use macos_vm_memory_ratchet.Prelude.{
  ℕ, ◌+◌, ◌-◌, ◌*◌, ◌/◌, ◌%◌, ◌^◌, ◌≡◌, refl, ◌∙◌, arith, ok, ◌>>=◌, Option,
}
use Prim.Native.Nat.{bit_or}
use macos_vm_memory_ratchet.Guest.Programs.{page}
use macos_vm_memory_ratchet.Guest.Turns.{vm}
use macos_vm_memory_ratchet.Guest.Hypervisor.{Hypervisor, IsDocumented}
use macos_vm_memory_ratchet.Guest.Host.{Vcpu, run_sweep_range, run_fill_range, run_verify_range}
use macos_vm_memory_ratchet.Guest.Correct.{run_sweep_range_lem, run_fill_range_lem}
use macos_vm_memory_ratchet.Reclaim.{Kernel, ReclaimMode, Trace}
use macos_vm_memory_ratchet.Reclaim.Safe.{triple}
use macos_vm_memory_ratchet.Reclaim.Returns.{IsCompliant, reclaim_range-returns}
use macos_vm_memory_ratchet.Soak.{
  Worker, fetch_add, count_sweep, count_check, count_reclaim, replaced, reclaim, cold_round,
}
use macos_vm_memory_ratchet.Soak.Tally.{IsClean}
use macos_vm_memory_ratchet.Soak.Rounds.{
  on_vcpu-ok, IsBench, IsSound, cold-IsEnough, verify_clean, apart, kept,
}

module _ (code : ℕ → ℕ) (size limit patience fuel : ℕ) (hv : Hypervisor)
    (laws : IsDocumented (vm code size) limit hv) (kernel : Kernel) (good : IsCompliant kernel)
    (left : Trace → ℕ → ℕ) (start : ℕ → Option ℕ) (ram slot half : ℕ) (mode : ReclaimMode)
    (advice k : ℕ) (bench : IsBench size limit patience fuel slot half k laws.settles) where
  abbrev Sound : Worker → ℕ → ℕ → ℕ → ℕ → Type 0
  Sound =
      IsSound code size limit patience fuel hv laws kernel good left start ram slot half mode advice
        k bench

  pub reclaim_lem :
      (w : Worker)
      → reclaim hv kernel left fuel ram slot half mode advice
          (k * slot + half)
          (k * slot + 2 * half)
          w
        ≡ (let calls = triple ram (k * slot + half) half mode advice w.calls in
            ok (
              tt,
              record w {
                calls = calls;
                vcpu = record (w.vcpu) {
                  guest = record (w.vcpu.guest) {
                    ram =
                        replaced
                          (k * slot + half)
                          (k * slot + 2 * half)
                          (left calls)
                          w.vcpu.guest.ram;
                  };
                };
              },
            ))
  unfolding reclaim
  reclaim_lem w =
      let len : k * slot + 2 * half - (k * slot + half) ≡ half = omega arith in
      rw (
        reclaim,
        len,
        reclaim_range-returns kernel ram mode advice good (k * slot + half) half w.calls,
      )

  pub cold_round_lem :
      (w : Worker) (n sweeps checks reclaims : ℕ)
      → Sound w n sweeps checks reclaims
      → (u : Worker) × (cold_round hv kernel left fuel ram slot half mode advice k w ≡ ok (tt, u))
        × Sound u n (sweeps + 1) (checks + 2 * (half / page)) (reclaims + 1)
  unfolding cold_round count_sweep count_check count_reclaim
  cold_round_lem w n sweeps checks reclaims sound =
      let from : ℕ = k * slot + half in
      let to : ℕ = k * slot + 2 * half in
      let (v1, e1, swept) =
        run_sweep_range_lem code size limit hv laws fuel from to bench.cold w.vcpu (
          cold-IsEnough code size limit patience fuel hv laws kernel good left start ram slot half
            mode advice k bench w.vcpu) in
      let w0 : Worker = record w { cycle = fetch_add w.cycle 1 } in
      let w1 : Worker = record w0 {
        vcpu = v1;
        stats = record (w.stats) { sweeps = fetch_add w.stats.sweeps 1 };
      } in
      let calls : Trace = triple ram from half mode advice w.calls in
      let v2 : Vcpu = record v1 {
        guest = record (v1.guest) { ram = replaced from to (left calls) v1.guest.ram };
      } in
      let w2 : Worker = record w1 {
        vcpu = v2;
        calls = calls;
        stats = record (w1.stats) { reclaims = fetch_add w.stats.reclaims 1 };
      } in
      let stamp : ℕ = bit_or (k * 2 ^ 32 % 2 ^ 64) (fetch_add w.cycle 1) in
      let (v3, e3, filled) =
        run_fill_range_lem code size limit hv laws fuel from to bench.cold v2
          (cold-IsEnough code size limit patience fuel hv laws kernel good left start ram slot half
            mode advice k bench v2)
          stamp in
      let clean : IsClean from to stamp v3.guest.ram = λ q h. filled q ∙ (rw h) in
      let (v4, e4, same4) =
        verify_clean code size limit patience fuel hv laws kernel good left start ram slot half mode
          advice k bench from to stamp v3 bench.cold
          (cold-IsEnough code size limit patience fuel hv laws kernel good left start ram slot half
            mode advice k bench v3)
          clean in
      let w4 : Worker = record w2 {
        vcpu = v4;
        stats = record (w2.stats) {
          page_checks = fetch_add w.stats.page_checks (half / page);
          mismatches = fetch_add w.stats.mismatches 0;
        };
      } in
      let (v5, e5, same5) =
        verify_clean code size limit patience fuel hv laws kernel good left start ram slot half mode
          advice k bench from to stamp v4 bench.cold
          (cold-IsEnough code size limit patience fuel hv laws kernel good left start ram slot half
            mode advice k bench v4)
          (λ q h. same4 q ∙ clean q h) in
      let safe' =
        kept code size limit patience fuel hv laws kernel good left start ram slot half mode advice
          k bench w.calls sound.linear sound.safe in
      (
        record w4 {
          vcpu = v5;
          stats = record (w4.stats) {
            page_checks = fetch_add w4.stats.page_checks (half / page);
            mismatches = fetch_add w4.stats.mismatches 0;
          };
        },
        rw (on_vcpu-ok (run_sweep_range hv fuel from to) w0 tt v1 e1, ◌>>=◌)
            (rw (reclaim_lem w1, ◌>>=◌)
              (rw (on_vcpu-ok (run_fill_range hv fuel from to stamp) w2 tt v3 e3, ◌>>=◌)
                (rw
                  (
                    on_vcpu-ok (run_verify_range hv fuel from to stamp) (record w2 { vcpu = v3 }) 0
                        v4 e4,
                    ◌>>=◌,
                  )
                  (rw (on_vcpu-ok (run_verify_range hv fuel from to stamp) w4 0 v5 e5, ◌>>=◌)
                    refl)))),
        record {
          hot = λ q h.
              same5 q
              ∙ (same4 q
                  ∙ (filled q
                      ∙ ground (
                        arith,
                        h,
                        apart code size limit patience fuel hv laws kernel good left start ram slot
                            half mode advice k bench q h,
                        swept q,
                        sound.hot q h,
                      )));
          hot_sweeps = sound.hot_sweeps;
          sweeps_lem = omega (arith, sound.sweeps_lem);
          checks_lem = omega (arith, sound.checks_lem);
          mismatches = omega (arith, sound.mismatches);
          reclaims_lem = omega (arith, sound.reclaims_lem);
          linear = safe'.0;
          safe = safe'.1;
        },
      )
