-- ===== src/Soak/Crew/Script.antt =====
-- The acts of a thread are `worker` of crates/hv-reclaim/src/soak.rs, cut where other threads may
-- run.
use macos_vm_memory_ratchet.Prelude.{
  ℕ, zero, suc, ◌/◌, ◌≡◌, refl, sym, ◌∙◌, inl, inr, List, ◌∷◌, ◌==◌, if◌then◌else◌, Bool-cases, Run,
  Result-cases, ok, ◌>>=◌, ◌>>◌, >>-congr,
}
use macos_vm_memory_ratchet.Guest.Programs.{page}
use macos_vm_memory_ratchet.Guest.Hypervisor.{Hypervisor}
use macos_vm_memory_ratchet.Guest.Host.{run_sweep_range, run_fill_range, run_verify_range}
use macos_vm_memory_ratchet.Reclaim.{Kernel, ReclaimMode, Trace}
use macos_vm_memory_ratchet.Soak.{
  Worker, fetch_add, on_vcpu, count_sweep, count_check, count_reclaim, hot_start, middle, cold_end,
  reclaim, hot_round, cold_round, hot_rounds, worker_loop, worker,
}
use macos_vm_memory_ratchet.Soak.Crew.{
  Act, self_test, verify_hot, sweep_cold, reclaim_cold, fill_cold, verify_cold, hot_acts,
  cycle_acts, script, stamp_of, perform, perform_all,
}

>>-assoc {ℓ κ} :
    {S : Type ℓ} {B : Type κ} (m n : Run S (Unit {0})) (f : Run S B) (s : S)
    → ((m >> n) >> f) s ≡ (m >> (n >> f)) s
>>-assoc {S = S} {B = B} m n f s = elim (Result-cases (m s)) [
  | inl ((a, t), e) ↦ rw (e, ◌>>=◌)
  | inr (inl (what, e)) ↦ rw (e, ◌>>=◌)
  | inr (inr e) ↦ rw (e, ◌>>=◌)
]

module _ (hv : Hypervisor) (kernel : Kernel) (left : Trace → ℕ → ℕ) (fuel ram slot half : ℕ)
    (mode : ReclaimMode) (advice k : ℕ) where
  abbrev all : List Act → Run Worker (Unit {0})
  all = perform_all hv kernel left fuel ram slot half mode advice k

  hot_acts_lem :
      (n : ℕ) (rest : List Act) (w : Worker)
      → all (hot_acts n rest) w
        ≡ (hot_rounds hv kernel left fuel ram slot half mode advice k n >> all rest) w
  unfolding perform_all perform hot_rounds hot_round count_sweep
  hot_acts_lem zero rest w = refl
  hot_acts_lem (suc n) rest w =
      elim (Result-cases
        (on_vcpu (run_sweep_range hv fuel (hot_start slot half k) (middle slot half k)) w)) [
          | inl ((a, t), e) ↦
              rw (e, ◌>>=◌)
                (>>-congr (perform hv kernel left fuel ram slot half mode advice k verify_hot) _ _ _
                    (hot_acts_lem n rest)
                  ∙ sym (
                      >>-assoc (perform hv kernel left fuel ram slot half mode advice k verify_hot)
                        (hot_rounds hv kernel left fuel ram slot half mode advice k n) (all rest)
                        _))
          | inr (inl (what, e)) ↦ rw (e, ◌>>=◌)
          | inr (inr e) ↦ rw (e, ◌>>=◌)
        ]

  -- The cold half from its filling on.
  abbrev taken_again : Run Worker (Unit {0})
  taken_again = do
    stamp ← (λ w. ok (stamp_of k w, w))
    on_vcpu (run_fill_range hv fuel (middle slot half k) (cold_end slot half k) stamp)
    bad ← on_vcpu (run_verify_range hv fuel (middle slot half k) (cold_end slot half k) stamp)
    count_check (half / page) bad
    again ← on_vcpu (run_verify_range hv fuel (middle slot half k) (cold_end slot half k) stamp)
    count_check (half / page) again

  taken_again_lem :
      (rest : List Act) (w : Worker)
      → all (fill_cold ∷ verify_cold ∷ verify_cold ∷ rest) w ≡ (taken_again >> all rest) w
  unfolding perform_all perform on_vcpu count_check
  taken_again_lem rest w =
      elim (Result-cases (
        run_fill_range hv fuel (middle slot half k) (cold_end slot half k) (stamp_of k w) w.vcpu)) [
          | inl ((a, v), e) ↦
              rw (e, ◌>>=◌)
                (elim (Result-cases (
                  run_verify_range hv fuel (middle slot half k) (cold_end slot half k)
                    (stamp_of k w) v)) [
                      | inl ((bad, u), e1) ↦
                          rw (e1, ◌>>=◌)
                            (elim (Result-cases (
                              run_verify_range hv fuel (middle slot half k) (cold_end slot half k)
                                (stamp_of k w) u)) [
                                  | inl ((again, x), e2) ↦ rw (e2, ◌>>=◌)
                                  | inr (inl (what, e2)) ↦ rw (e2, ◌>>=◌)
                                  | inr (inr e2) ↦ rw (e2, ◌>>=◌)
                                ])
                      | inr (inl (what, e1)) ↦ rw (e1, ◌>>=◌)
                      | inr (inr e1) ↦ rw (e1, ◌>>=◌)
                    ])
          | inr (inl (what, e)) ↦ rw (e, ◌>>=◌)
          | inr (inr e) ↦ rw (e, ◌>>=◌)
        ]

  cold_acts_lem :
      (rest : List Act) (w : Worker)
      → all (sweep_cold ∷ reclaim_cold ∷ fill_cold ∷ verify_cold ∷ verify_cold ∷ rest) w
        ≡ (cold_round hv kernel left fuel ram slot half mode advice k >> all rest) w
  unfolding perform_all perform cold_round count_sweep count_reclaim
  cold_acts_lem rest w =
      elim (Result-cases (
        on_vcpu (run_sweep_range hv fuel (middle slot half k) (cold_end slot half k))
          (record w { cycle = fetch_add w.cycle 1 }))) [
            | inl ((a, t), e) ↦
                rw (e, ◌>>=◌)
                  (elim (Result-cases (
                    reclaim hv kernel left fuel ram slot half mode advice (middle slot half k)
                      (cold_end slot half k)
                      (record t {
                        stats = record (t.stats) { sweeps = fetch_add t.stats.sweeps 1 };
                      }))) [
                        | inl ((b, u), e1) ↦ rw (e1, ◌>>=◌) (taken_again_lem rest _)
                        | inr (inl (what, e1)) ↦ rw (e1, ◌>>=◌)
                        | inr (inr e1) ↦ rw (e1, ◌>>=◌)
                      ])
            | inr (inl (what, e)) ↦ rw (e, ◌>>=◌)
            | inr (inr e) ↦ rw (e, ◌>>=◌)
          ]

  cycle_acts_lem :
      (cycles : ℕ) (w : Worker)
      → all (cycle_acts cycles) w
        ≡ worker_loop hv kernel left fuel ram slot half mode advice k cycles w
  unfolding perform_all worker_loop
  cycle_acts_lem zero w = refl
  cycle_acts_lem (suc cycles) w =
      let cold =
        sweep_cold ∷ reclaim_cold ∷ fill_cold ∷ verify_cold ∷ verify_cold ∷ cycle_acts cycles in
      hot_acts_lem 4 cold w
      ∙ >>-congr (hot_rounds hv kernel left fuel ram slot half mode advice k 4) (all cold) _ w (λ t.
        cold_acts_lem (cycle_acts cycles) t
        ∙ >>-congr (cold_round hv kernel left fuel ram slot half mode advice k) _ _ t
            (cycle_acts_lem cycles))

  -- A thread by itself that does its acts in turn is `worker`.
  pub perform_all-script :
      (cycles : ℕ) (w : Worker)
      → all (script cycles k) w ≡ worker hv kernel left fuel ram slot half mode advice k cycles w
  unfolding perform_all perform worker
  perform_all-script cycles w =
      elim (Result-cases
        (on_vcpu (run_sweep_range hv fuel (hot_start slot half k) (middle slot half k)) w)) [
          | inl ((a, t), e) ↦
              rw (e, ◌>>=◌)
                (elim (Bool-cases (k == 0)) [
                  | inl first ↦
                      rw (first, if◌then◌else◌)
                        (>>-congr
                          (perform hv kernel left fuel ram slot half mode advice k self_test) _ _
                          (record t { hot_sweeps = fetch_add t.hot_sweeps 1 })
                          (cycle_acts_lem cycles))
                  | inr later ↦ rw (later, if◌then◌else◌) (cycle_acts_lem cycles _)
                ])
          | inr (inl (what, e)) ↦ rw (e, ◌>>=◌)
          | inr (inr e) ↦ rw (e, ◌>>=◌)
        ]
