-- ===== src/Reclaim/Trap.antt =====
-- `reclaim` of crates/hv-reclaim/src/main.rs without `--naive`: the fix.
use macos_vm_memory_ratchet.Prelude.{ℕ, ◌+◌, ◌<◌, ◌≡◌, ◌∙◌, arith, true, false, Option, ok}
use native.Mathlib.Nat.{add-zero}
use macos_vm_memory_ratchet.Guest.Programs.{ram_gpa}
use macos_vm_memory_ratchet.Reclaim.{release, Trace, Kernel, reusable, reclaim, reclaim_range}
use macos_vm_memory_ratchet.Reclaim.Stage2.{view, IsLinear}
use macos_vm_memory_ratchet.Reclaim.Safe.{IsKept, triple, reclaim_range-IsKept}
use macos_vm_memory_ratchet.Reclaim.Returns.{given, reclaim_range-returns, IsCompliant}

-- The fix is the reclaim of the whole range as one.
pub reclaim-reclaim_range :
    (k : Kernel) (ram ram_size advice : ℕ) (calls : Trace)
    → reclaim k ram ram_size false advice calls
      ≡ reclaim_range k ram 0 ram_size reusable advice calls
unfolding reclaim reclaim_range release
reclaim-reclaim_range k ram ram_size advice calls = rw (add-zero ram, add-zero ram_gpa)

module _ (k : Kernel) (start : ℕ → Option ℕ) (ram ram_size advice : ℕ) where
  -- Without `--naive`, a `reclaim` of RAM, mapped as `main` maps it, of which no call fails advises
  -- all of RAM, none of it while the guest can reach it, and leaves the guest's mapping as it was.
  pub reclaim_lem :
      (calls : Trace)
      → IsCompliant k
      → IsLinear ram ram_size (view start calls)
      → (after : Trace) × (reclaim k ram ram_size false advice calls ≡ ok (tt, after))
        × IsKept start calls after
        × ((q : ℕ) → q < ram_size → given after (ram + q) ≡ true)
  reclaim_lem calls good linear =
      let returns = reclaim_range-returns k ram reusable advice good 0 ram_size calls in
      (
        triple ram 0 ram_size reusable advice calls,
        reclaim-reclaim_range k ram ram_size advice calls ∙ returns,
        reclaim_range-IsKept k start ram ram_size reusable advice 0 ram_size calls _ (omega arith)
            linear returns,
        λ q h. ground arith,
      )
