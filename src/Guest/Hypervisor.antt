-- ===== src/Guest/Hypervisor.antt =====
-- Hypervisor.framework as crates/hv-reclaim/src/hvf.rs declares it. The framework is not part of the
-- repository, so its calls are a parameter, with what the host loops rely on as laws.
use macos_vm_memory_ratchet.Prelude.{ℕ, ◌/◌, ◌%◌, ◌^◌, ◌≤◌, ◌≡◌, ◌≢◌}
use macos_vm_memory_ratchet.Guest.Isa.{Guest, running, aborted, Mapping, step, after, update}

pub record HvVcpuExitException : Type 0 where
  pub syndrome : ℕ
  pub virtual_address : ℕ
  pub physical_address : ℕ

pub record HvVcpuExitInfo : Type 0 where
  pub reason : ℕ
  pub exception : HvVcpuExitException

abbrev pub hv_reg_x1 : ℕ
hv_reg_x1 = 1

abbrev pub hv_reg_x2 : ℕ
hv_reg_x2 = 2

abbrev pub hv_reg_x3 : ℕ
hv_reg_x3 = 3

abbrev pub hv_reg_x4 : ℕ
hv_reg_x4 = 4

abbrev pub hv_reg_x5 : ℕ
hv_reg_x5 = 5

abbrev pub hv_reg_x6 : ℕ
hv_reg_x6 = 6

abbrev pub hv_reg_pc : ℕ
hv_reg_pc = 31

abbrev pub hv_exit_reason_canceled : ℕ
hv_exit_reason_canceled = 0

abbrev pub hv_exit_reason_exception : ℕ
hv_exit_reason_exception = 1

abbrev pub ec_data_abort_lower_el : ℕ
ec_data_abort_lower_el = 0x24

-- `(info.exception.syndrome >> 26) & 0x3F`.
abbrev pub exception_class : HvVcpuExitInfo → ℕ
exception_class info = info.exception.syndrome / 2 ^ 26 % 2 ^ 6

-- The framework's calls. Each returns its `hv_return_t`; `hv_vcpu_run` is told which call it is,
-- since it may be canceled from outside at any time.
pub record Hypervisor : Type 0 where
  pub hv_vcpu_set_reg : Guest → ℕ → ℕ → ℕ × Guest
  pub hv_vcpu_get_reg : Guest → ℕ → ℕ × ℕ
  pub hv_vcpu_run : ℕ → Guest → ℕ × HvVcpuExitInfo × Guest

-- What one `hv_vcpu_run` may give for a guest `g` that is `c` instructions away from a data abort at
-- `a`, where it stands as `t`: that abort, or a cancellation on the way.
pub data Exits (m : Mapping) (c : ℕ) (g t : Guest) (a : ℕ) (r : ℕ × HvVcpuExitInfo × Guest)
    : Type 0 where
  stopped :
      r.0 ≡ 0
      → r.1.reason ≡ hv_exit_reason_exception
      → exception_class r.1 ≡ ec_data_abort_lower_el
      → r.1.exception.physical_address ≡ a
      → r.2 ≡ t
      → Exits m c g t a r
  canceled :
      (k : ℕ)
      → r.0 ≡ 0
      → r.1.reason ≡ hv_exit_reason_canceled
      → k ≤ c
      → after m k r.2 ≡ running t
      → Exits m c g t a r

-- The documented behaviour, for guests that fault within `limit` instructions.
pub record IsDocumented (m : Mapping) (limit : ℕ) (hv : Hypervisor) : Type 0 where
  pub set_x :
      (g : Guest) (r v : ℕ)
      → 1 ≤ r
      → r ≤ 6
      → hv.hv_vcpu_set_reg g r v ≡ (0, record g { x = update g.x r v })
  pub set_pc : (g : Guest) (v : ℕ) → hv.hv_vcpu_set_reg g hv_reg_pc v ≡ (0, record g { pc = v })
  pub get_x : (g : Guest) (r : ℕ) → 1 ≤ r → r ≤ 6 → hv.hv_vcpu_get_reg g r ≡ (0, g.x r)
  pub get_pc : (g : Guest) → hv.hv_vcpu_get_reg g hv_reg_pc ≡ (0, g.pc)
  pub exits :
      (i c : ℕ) (g t : Guest) (a : ℕ)
      → c ≤ limit
      → after m c g ≡ running t
      → step m t ≡ aborted a t
      → Exits m c g t a (hv.hv_vcpu_run i g)
  -- Cancellation is not for ever: from any call on there is one that runs to an exit of the guest.
  pub settles : ℕ → ℕ
  pub settles_later : (i : ℕ) → i ≤ settles i
  pub settled :
      (i : ℕ) (g : Guest) → (hv.hv_vcpu_run (settles i) g).1.reason ≢ hv_exit_reason_canceled
