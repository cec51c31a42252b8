-- ===== src/Guest/Host.antt =====
-- crates/hv-reclaim/src/guest.rs: the host loops that drive the guest programs.
use macos_vm_memory_ratchet.Prelude.{
  ℕ, zero, suc, ◌+◌, ◌%◌, ◌^◌, Bool, ◌&&◌, ◌==◌, if◌then◌else◌, ok, panicked, out_of_fuel, Run,
  pure, ◌>>=◌, ◌>>◌, assert,
}
use macos_vm_memory_ratchet.Guest.Isa.{Guest}
use macos_vm_memory_ratchet.Guest.Programs.{
  code_gpa, ram_gpa, doorbell_gpa, hammer_gpa, read_gpa, verify_gpa, fill_gpa,
}
use macos_vm_memory_ratchet.Guest.Hypervisor.{
  Hypervisor, HvVcpuExitInfo, hv_reg_x1, hv_reg_x2, hv_reg_x3, hv_reg_x4, hv_reg_x5, hv_reg_x6,
  hv_reg_pc, hv_exit_reason_canceled, hv_exit_reason_exception, ec_data_abort_lower_el,
  exception_class,
}

-- A vCPU with its guest, and how often it was entered.
pub record Vcpu : Type 0 where
  pub guest : Guest
  pub calls : ℕ

pub data GuestExit : Type 0 where
  canceled doorbell : GuestExit

-- `check` of an `hv_return_t`.
unfoldable pub check : ℕ → Run Vcpu (Unit {0})
check ret = assert (ret == 0) "failed"

module _ (hv : Hypervisor) where
  unfoldable pub set_reg : ℕ → ℕ → Run Vcpu (Unit {0})
  unfolding check
  set_reg reg value v =
      let (ret, guest) = hv.hv_vcpu_set_reg v.guest reg value in
      check ret (record v { guest = guest })

  unfoldable pub read_reg : ℕ → Run Vcpu ℕ
  unfolding check
  read_reg reg v = let (ret, value) = hv.hv_vcpu_get_reg v.guest reg in (do check ret; pure value) v

  -- What `run_to_doorbell` makes of an exit.
  unfoldable pub classify : HvVcpuExitInfo → Run Vcpu GuestExit
  classify info =
      if info.reason == hv_exit_reason_canceled
      then pure canceled
      else if info.reason == hv_exit_reason_exception
          && exception_class info == ec_data_abort_lower_el
          && info.exception.physical_address == doorbell_gpa
      then pure doorbell
      else (λ v. panicked "unexpected exit")

  unfoldable pub run_to_doorbell : Run Vcpu GuestExit
  unfolding check classify
  run_to_doorbell v =
      let (ret, info, guest) = hv.hv_vcpu_run v.calls v.guest in
      (do check ret; classify info) (record { guest = guest; calls = v.calls + 1 })

  -- The `loop` of `run_pass`: a canceled run is entered again.
  unfoldable pub pass_loop : ℕ → Run Vcpu (Unit {0})
  pass_loop zero v = out_of_fuel
  pass_loop (suc fuel) v = elim (run_to_doorbell v) [
    | ok (canceled, w) ↦ pass_loop fuel w
    | ok (doorbell, w) ↦ ok (tt, w)
    | panicked what ↦ panicked what
    | out_of_fuel ↦ out_of_fuel
  ]

  unfoldable pub run_pass : ℕ → ℕ → ℕ → ℕ → Run Vcpu (Unit {0})
  run_pass fuel entry start_off end_off = do
    set_reg hv_reg_pc entry
    set_reg hv_reg_x1 ((ram_gpa + start_off) % 2 ^ 64)
    set_reg hv_reg_x2 ((ram_gpa + end_off) % 2 ^ 64)
    set_reg hv_reg_x3 doorbell_gpa
    pass_loop fuel

  -- Touch a sub-range of guest RAM.
  unfoldable pub run_touch_range : ℕ → ℕ → ℕ → Run Vcpu (Unit {0})
  run_touch_range fuel start_off end_off = run_pass fuel code_gpa start_off end_off

  unfoldable pub run_touch_pass : ℕ → ℕ → Run Vcpu (Unit {0})
  run_touch_pass fuel ram_size = run_touch_range fuel 0 ram_size

  unfoldable pub run_read_pass : ℕ → ℕ → Run Vcpu (Unit {0})
  run_read_pass fuel ram_size = run_pass fuel read_gpa 0 ram_size

  unfoldable pub run_sweep_range : ℕ → ℕ → ℕ → Run Vcpu (Unit {0})
  run_sweep_range fuel start_off end_off = do
    set_reg hv_reg_x6 ((ram_gpa + start_off) % 2 ^ 64)
    run_pass fuel hammer_gpa start_off end_off

  unfoldable pub run_fill_range : ℕ → ℕ → ℕ → ℕ → Run Vcpu (Unit {0})
  run_fill_range fuel start_off end_off value = do
    set_reg hv_reg_x5 value
    run_pass fuel fill_gpa start_off end_off

  unfoldable pub run_verify_range : ℕ → ℕ → ℕ → ℕ → Run Vcpu ℕ
  run_verify_range fuel start_off end_off expected = do
    set_reg hv_reg_x4 0
    set_reg hv_reg_x5 expected
    run_pass fuel verify_gpa start_off end_off
    read_reg hv_reg_x4

  -- The `loop` of `run_hammer`. The callback keeps a state of its own.
  module _ {ℓ} {S : Type ℓ} (keep_going : ℕ → S → Bool × S) where
    -- A completed sweep: stop if the callback says so, else step over the doorbell store and go on.
    unfoldable pub after_sweep : (S → Run Vcpu (ℕ × S)) → S → Run Vcpu (ℕ × S)
    after_sweep again s = do
      sweeps ← read_reg hv_reg_x4
      let answer = keep_going sweeps s
      if answer.0
          then (do pc ← read_reg hv_reg_pc; set_reg hv_reg_pc ((pc + 4) % 2 ^ 64); again answer.1)
          else pure (sweeps, answer.1)

    unfoldable pub hammer_loop : ℕ → S → Run Vcpu (ℕ × S)
    hammer_loop zero s v = out_of_fuel
    hammer_loop (suc fuel) s v = elim (run_to_doorbell v) [
      | ok (canceled, w) ↦ hammer_loop fuel s w
      | ok (doorbell, w) ↦ after_sweep (hammer_loop fuel) s w
      | panicked what ↦ panicked what
      | out_of_fuel ↦ out_of_fuel
    ]

    unfoldable pub run_hammer : ℕ → ℕ → S → Run Vcpu (ℕ × S)
    run_hammer fuel ram_size s = do
      set_reg hv_reg_pc hammer_gpa
      set_reg hv_reg_x2 ((ram_gpa + ram_size) % 2 ^ 64)
      set_reg hv_reg_x3 doorbell_gpa
      set_reg hv_reg_x4 0
      set_reg hv_reg_x6 ram_gpa
      hammer_loop fuel s
