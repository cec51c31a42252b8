-- ===== src/Guest/Bench.antt =====
-- A hypervisor that meets the laws, for the tests: it cancels every call with an odd number at once,
-- and otherwise runs the guest of crates/hv-reclaim/src/guest.rs to its fault.
use macos_vm_memory_ratchet.Prelude.{
  ℕ, zero, suc, ◌+◌, ◌*◌, ◌%◌, ◌^◌, ◌≤◌, ◌≡◌, ◌≢◌, refl, arith, Bool, true, false, ◌==◌,
  if◌then◌else◌,
}
use macos_vm_memory_ratchet.Guest.Isa.{
  Guest, Step, running, aborted, idle, unsupported, Mapping, step, after, update,
}
use macos_vm_memory_ratchet.Guest.Hypervisor.{
  Hypervisor, HvVcpuExitInfo, IsDocumented, Exits, stopped, canceled,
}

abbrev pub exit_info : ℕ → ℕ → HvVcpuExitInfo
exit_info reason pa = record {
  reason = reason;
  exception = record { syndrome = 0x24 * 2 ^ 26; virtual_address = pa; physical_address = pa };
}

pub run_guest : Mapping → ℕ → Guest → ℕ × HvVcpuExitInfo × Guest
run_guest m zero g = (1, exit_info 2 0, g)
run_guest m (suc fuel) g = elim (step m g) [
  | running h ↦ run_guest m fuel h
  | aborted a h ↦ (0, exit_info 1 a, h)
  | idle h ↦ (1, exit_info 2 0, h)
  | unsupported ↦ (1, exit_info 2 0, g)
]

run_guest_lem :
    (m : Mapping) (fuel c a : ℕ) (g t : Guest)
    → c ≤ fuel
    → after m c g ≡ running t
    → step m t ≡ aborted a t
    → run_guest m (suc fuel) g ≡ (0, exit_info 1 a, t)
unfolding run_guest after
run_guest_lem m fuel zero a g t le runs faults = ground arith
run_guest_lem m zero (suc c) a g t le runs faults = absurd (omega arith)
run_guest_lem m (suc fuel) (suc c) a g t le runs faults =
    go (step m g) runs λ h e. run_guest_lem m fuel c a h t (omega arith) e faults
  where
    go :
        (s : Step)
        → (elim s [
          | running h ↦ after m c h
          | aborted b h ↦ aborted b h
          | idle h ↦ idle h
          | unsupported ↦ unsupported
        ])
          ≡ running t
        → ((h : Guest) → after m c h ≡ running t → run_guest m (suc fuel) h ≡ (0, exit_info 1 a, t))
        → (elim s [
          | running h ↦ run_guest m (suc fuel) h
          | aborted b h ↦ (0, exit_info 1 b, h)
          | idle h ↦ (1, exit_info 2 0, h)
          | unsupported ↦ (1, exit_info 2 0, g)
        ])
          ≡ (0, exit_info 1 a, t)
    go (running h) e ih = ih h e
    go (aborted b h) e ih = cc
    go (idle h) e ih = cc
    go unsupported e ih = cc

run_guest_uncanceled : (m : Mapping) (fuel : ℕ) (g : Guest) → (run_guest m fuel g).1.reason ≢ 0
unfolding run_guest
run_guest_uncanceled m zero g = omega arith
run_guest_uncanceled m (suc fuel) g =
    elim (step m g)
      as (λ s.
        (elim s as (λ _. ℕ × HvVcpuExitInfo × Guest) [
          | running h ↦ run_guest m fuel h
          | aborted a h ↦ (0, exit_info 1 a, h)
          | idle h ↦ (1, exit_info 2 0, h)
          | unsupported ↦ (1, exit_info 2 0, g)
        ]).1.reason
        ≢ 0) [
          | running h ↦ run_guest_uncanceled m fuel h
          | aborted a h ↦ omega arith
          | idle h ↦ omega arith
          | unsupported ↦ omega arith
        ]

module _ (m : Mapping) (limit : ℕ) where
  unfoldable pub bench : Hypervisor
  bench = record {
    hv_vcpu_set_reg =
        λ g r v. (0, if r == 31 then record g { pc = v } else record g { x = update g.x r v });
    hv_vcpu_get_reg = λ g r. (0, if r == 31 then g.pc else g.x r);
    hv_vcpu_run = λ i g. if i % 2 == 1 then (0, exit_info 0 0, g) else run_guest m (suc limit) g;
  }

  bench-Exits :
      (i c : ℕ) (g t : Guest) (a : ℕ)
      → c ≤ limit
      → after m c g ≡ running t
      → step m t ≡ aborted a t
      → Exits m c g t a (bench.hv_vcpu_run i g)
  unfolding bench
  bench-Exits i c g t a le runs faults = go (i % 2 == 1)
    where
      go :
          (odd : Bool)
          → Exits m c g t a (if odd then (0, exit_info 0 0, g) else run_guest m (suc limit) g)
      go true = canceled c refl refl (omega arith) runs
      go false =
          rw (run_guest_lem m limit c a g t le runs faults) (stopped refl refl refl refl refl)

  bench_settled : (i : ℕ) (g : Guest) → (bench.hv_vcpu_run (i + i % 2) g).1.reason ≢ 0
  unfolding bench
  bench_settled i g = rw (even i) (run_guest_uncanceled m (suc limit) g)
    where
      even : (j : ℕ) → ((j + j % 2) % 2 == 1) ≡ false
      even j = ground arith

  pub bench_laws : IsDocumented m limit bench
  unfolding bench
  bench_laws = record {
    set_x = λ g r v lo hi. ground arith;
    set_pc = λ g v. refl;
    get_x = λ g r lo hi. ground arith;
    get_pc = λ g. refl;
    exits = bench-Exits;
    settles = λ i. i + i % 2;
    settles_later = λ i. omega arith;
    settled = bench_settled;
  }

  pub bench_settles : (i : ℕ) → bench_laws.settles i ≡ i + i % 2
  unfolding bench_laws
  bench_settles i = refl
