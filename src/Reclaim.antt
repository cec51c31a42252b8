-- ===== src/Reclaim.antt =====
-- The reclaim sequences of crates/hv-reclaim/src: `reclaim` of main.rs, `reclaim_extents` of
-- timing.rs, `reclaim` of soak.rs and the stop loop of fleet_sim.rs. The kernel and the framework are
-- a parameter that answers each call; the state is the calls made so far, the newest first.
pub mod Stage2
pub mod Safe
pub mod Returns
pub mod Extents
pub mod Services
pub mod Trap
pub mod Same
pub mod Bench
pub mod Tests
use macos_vm_memory_ratchet.Prelude.{
  ℕ, zero, suc, ◌+◌, ◌-◌, ◌*◌, ◌%◌, ◌^◌, Bool, true, false, not, List, [], ◌∷◌, ◌==◌, if◌then◌else◌,
  Run, pure, ◌>>=◌, ◌>>◌, assert, ok, panicked, out_of_fuel,
}
use macos_vm_memory_ratchet.Ledger.Pages.{step_by}
use macos_vm_memory_ratchet.Guest.Programs.{ram_gpa}

pub data Call : Type 0 where
  hv_vm_unmap : ℕ → ℕ → Call
  hv_vm_map : ℕ → ℕ → ℕ → Call
  madvise : ℕ → ℕ → ℕ → Call
  munmap : ℕ → ℕ → Call
  mmap_fixed : ℕ → ℕ → Call

-- `libc::MADV_FREE_REUSABLE`.
abbrev pub madv_free_reusable : ℕ
madv_free_reusable = 7

-- What a call returns may depend on all that went before.
abbrev pub Kernel : Type 0
Kernel = List Call → Call → ℕ

pub data ReclaimMode : Type 0 where
  reusable unmapping : ReclaimMode

abbrev pub Trace : Type 0
Trace = List Call

module _ (k : Kernel) where
  unfoldable pub syscall : Call → Run Trace ℕ
  syscall c calls = ok (k calls c, c ∷ calls)

  -- A call that must return zero.
  unfoldable pub checked : Call → Run Trace (Unit {0})
  unfolding syscall
  checked c = do rc ← syscall c; assert (rc == 0) "call failed"

  -- `mmap(MAP_FIXED)` returns the address that it was given.
  unfoldable pub remapped : ℕ → ℕ → Run Trace (Unit {0})
  unfolding syscall
  remapped host len = do
    p ← syscall (mmap_fixed host len)
    assert (p == host) "mmap(MAP_FIXED) moved or failed"

  -- `reclaim` of main.rs: unmap, advise, remap, or in place when `naive`.
  unfoldable pub reclaim : ℕ → ℕ → Bool → ℕ → Run Trace (Unit {0})
  unfolding checked
  reclaim ram ram_size naive advice = do
    (if naive then pure tt else checked (hv_vm_unmap ram_gpa ram_size))
    checked (madvise ram ram_size advice)
    (if naive then pure tt else checked (hv_vm_map ram ram_gpa ram_size))

  -- The release step of timing.rs and soak.rs.
  unfoldable pub release : ReclaimMode → ℕ → ℕ → ℕ → Run Trace (Unit {0})
  unfolding checked remapped
  release reusable host len advice = checked (madvise host len advice)
  release unmapping host len advice = do checked (munmap host len); remapped host len

  -- `reclaim` of soak.rs, and the body of the loop of `reclaim_extents`, on a range by its offset.
  unfoldable pub reclaim_range : ℕ → ℕ → ℕ → ReclaimMode → ℕ → Run Trace (Unit {0})
  unfolding checked
  reclaim_range ram off len mode advice = do
    checked (hv_vm_unmap (ram_gpa + off) len)
    release mode (ram + off) len advice
    checked (hv_vm_map (ram + off) (ram_gpa + off) len)

  unfoldable pub reclaim_each : ℕ → ℕ → ReclaimMode → ℕ → List ℕ → Run Trace (Unit {0})
  reclaim_each ram extent mode advice [] = pure tt
  reclaim_each ram extent mode advice (off ∷ rest) = do
    reclaim_range ram off extent mode advice
    reclaim_each ram extent mode advice rest

  -- `reclaim_extents` of timing.rs, without the clock.
  unfoldable pub reclaim_extents : ℕ → ℕ → ℕ → ReclaimMode → ℕ → Run Trace (Unit {0})
  unfolding reclaim_each
  reclaim_extents ram ram_size extent mode advice =
      reclaim_each ram extent mode advice (step_by 0 ram_size extent)

  -- A round of the stop loop of fleet_sim.rs, on the region at `off`.
  unfoldable pub stop_service : ℕ → ℕ → ℕ → Run Trace (Unit {0})
  unfolding checked
  stop_service ram off region = do
    checked (hv_vm_unmap (ram_gpa + off) region)
    checked (madvise (ram + off) region madv_free_reusable)
    checked (hv_vm_map (ram + off) (ram_gpa + off) region)

  -- The loop, from service `i` on with `left` to go.
  unfoldable pub stop_services : ℕ → ℕ → ℕ → ℕ → Run Trace (Unit {0})
  unfolding stop_service
  stop_services ram region i zero = pure tt
  stop_services ram region i (suc left) = do
    stop_service ram (i * region) region
    stop_services ram region (i + 1) left
