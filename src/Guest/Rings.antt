-- ===== src/Guest/Rings.antt =====
-- From the guest's doorbell store to the return of the host loop, past canceled runs
-- (`run_to_doorbell` and the `loop` of `run_pass`, crates/hv-reclaim/src/guest.rs).
use macos_vm_memory_ratchet.Prelude.{
  ℕ, zero, suc, ◌+◌, ◌≤◌, ◌<◌, ◌≡◌, ◌≢◌, ◌⊎◌, inl, inr, arith, ok,
}
use macos_vm_memory_ratchet.Guest.Isa.{Guest, running, aborted, Mapping, step, after}
use macos_vm_memory_ratchet.Guest.Programs.{doorbell_gpa}
use macos_vm_memory_ratchet.Guest.Hypervisor.{
  Hypervisor, IsDocumented, Exits, stopped, canceled, hv_exit_reason_canceled,
}
use macos_vm_memory_ratchet.Guest.Host
use macos_vm_memory_ratchet.Guest.Host.{
  Vcpu, GuestExit, check, classify, run_to_doorbell, pass_loop,
}

-- Left alone, `g` comes to `t`, whose next instruction faults at the doorbell.
pub record Rings (m : Mapping) (limit : ℕ) (g t : Guest) : Type 0 where
  pub cost : ℕ
  pub cost_le : cost ≤ limit
  pub runs : after m cost g ≡ running t
  pub faults : step m t ≡ aborted doorbell_gpa t

module _ (hv : Hypervisor) (m : Mapping) (limit : ℕ) (laws : IsDocumented m limit hv) where
  -- One entry of the vCPU: the doorbell, or a cancellation that leaves the rest of the way.
  pub run_to_doorbell_lem :
      (v : Vcpu) (t : Guest)
      → Rings m limit v.guest t
      → (run_to_doorbell hv v ≡ ok (GuestExit.doorbell, record { guest = t; calls = v.calls + 1 }))
        ⊎ ((u : Guest) × Rings m limit u t
            × (run_to_doorbell hv v
                ≡ ok (GuestExit.canceled, record { guest = u; calls = v.calls + 1 }))
            × ((hv.hv_vcpu_run v.calls v.guest).1.reason ≡ hv_exit_reason_canceled))
  unfolding run_to_doorbell check classify
  run_to_doorbell_lem v t rings =
      go
        (laws.exits v.calls rings.cost v.guest t doorbell_gpa rings.cost_le rings.runs rings.faults)
    where
      go :
          Exits m rings.cost v.guest t doorbell_gpa (hv.hv_vcpu_run v.calls v.guest)
          → (run_to_doorbell hv v
              ≡ ok (GuestExit.doorbell, record { guest = t; calls = v.calls + 1 }))
            ⊎ ((u : Guest) × Rings m limit u t
                × (run_to_doorbell hv v
                    ≡ ok (GuestExit.canceled, record { guest = u; calls = v.calls + 1 }))
                × ((hv.hv_vcpu_run v.calls v.guest).1.reason ≡ hv_exit_reason_canceled))
      go (stopped e0 e1 e2 e3 e4) = inl (ground arith)
      go (canceled k e0 e1 le e2) = inr (
        (hv.hv_vcpu_run v.calls v.guest).2,
        record {
          cost = k;
          cost_le = omega (arith, rings.cost_le);
          runs = e2;
          faults = rings.faults;
        },
        ground arith,
        e1,
      )

  -- With an uncanceled call within the fuel the loop returns at the doorbell.
  pub pass_loop_lem :
      (fuel s : ℕ) (v : Vcpu) (t : Guest)
      → Rings m limit v.guest t
      → ((g : Guest) → (hv.hv_vcpu_run s g).1.reason ≢ hv_exit_reason_canceled)
      → v.calls ≤ s
      → s < v.calls + fuel
      → (calls : ℕ) × (v.calls < calls)
        × (calls ≤ s + 1)
        × (pass_loop hv fuel v ≡ ok (tt, record { guest = t; calls = calls }))
  unfolding pass_loop
  pass_loop_lem zero s v t rings settled le lt = absurd (omega arith)
  pass_loop_lem (suc fuel) s v t rings settled le lt = elim (run_to_doorbell_lem v t rings) [
    | inl rang ↦ (v.calls + 1, omega arith, omega arith, rw (rang, Host.pass_loop))
    | inr (u, rest, e, why) ↦
        let early : v.calls ≢ s = λ same. settled v.guest (rw (← same) why) in
        let (calls, below, above, returns) =
          pass_loop_lem fuel s (record { guest = u; calls = v.calls + 1 }) t rest settled
            (omega (arith, early)) (omega arith) in
        (calls, omega arith, above, rw (e, Host.pass_loop) returns)
  ]
