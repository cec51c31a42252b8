-- ===== src/Reclaim/Extents.antt =====
-- The extents of crates/hv-reclaim/src/timing.rs: their size, its check and their number.
use macos_vm_memory_ratchet.Prelude.{
  ℕ, zero, suc, ◌+◌, ◌*◌, ◌/◌, ◌%◌, ◌^◌, ◌≤◌, ◌<◌, ◌≡◌, sym, ap, arith, Bool, true, ◌&&◌, List,
  Option, ◌==◌, if◌then◌else◌, ok, Result, panicked,
}
use mathlib.Core.Path.{subst}
use native.Mathlib.Nat.{div-eq_of_lt-le, div-add-mod}
use macos_vm_memory_ratchet.Ledger.Pages.{page, offsets, step_by, All}
use macos_vm_memory_ratchet.Reclaim.{Trace, Kernel, ReclaimMode, reclaim_each, reclaim_extents}
use macos_vm_memory_ratchet.Reclaim.Stage2.{view, IsLinear}
use macos_vm_memory_ratchet.Reclaim.Safe.{IsKept, reclaim_each-IsKept}
use macos_vm_memory_ratchet.Reclaim.Returns.{
  given, IsCompliant, triples, reclaim_each-returns, given-offsets,
}

-- `run` of timing.rs: the size of an extent (0 for the whole range), its check, and their number.
unfoldable pub extent_of : ℕ → ℕ → ℕ
extent_of ram_size extent_kb = if extent_kb == 0 then ram_size else extent_kb * 1024 % 2 ^ 64

-- `is_multiple_of`: zero is the only multiple of zero.
abbrev pub is_multiple_of : ℕ → ℕ → Bool
is_multiple_of a b = if b == 0 then a == 0 else a % b == 0

unfoldable pub extents_of : ℕ → ℕ → Result ℕ
extents_of ram_size extent_kb =
    let extent = extent_of ram_size extent_kb in
    if is_multiple_of extent page && is_multiple_of ram_size extent
    then ok (ram_size / extent)
    else panicked "--extent-kb must be a multiple of the page and divide the RAM size"

-- `n` steps from `off` stay below `off + n * stride`.
pub offsets-fit :
    (n off stride hi : ℕ)
    → off + n * stride ≤ hi
    → All (λ q. q + stride ≤ hi) (offsets n off stride)
unfolding offsets
offsets-fit zero off stride hi h = tt
offsets-fit (suc n) off stride hi h =
    (grind arith, offsets-fit n (off + stride) stride hi (grind arith))

abbrev IsDivided : ℕ → ℕ → Type 0
IsDivided ram_size extent = (m : ℕ) × (ram_size ≡ m * extent)

-- A stride that divides the range goes round as often as it fits.
pub step_by-divided :
    (m stride : ℕ) → 0 < stride → step_by 0 (m * stride) stride ≡ offsets m 0 stride
unfolding step_by
step_by-divided m stride h =
    ap (λ n. offsets n 0 stride) (div-eq_of_lt-le stride (grind arith) (grind arith))

multiple_of-IsDivided : (a b : ℕ) → 0 < b → is_multiple_of a b ≡ true → IsDivided a b
multiple_of-IsDivided a b h e = (a / b, grind (arith, div-add-mod a b))

-- The extents of an accepted size lie in the range.
pub extents-fit :
    (size kb n : ℕ)
    → extents_of size kb ≡ ok n
    → 0 < extent_of size kb
    → All (λ q. q + extent_of size kb ≤ size) (step_by 0 size (extent_of size kb))
unfolding extents_of
extents-fit size kb n accepted pos =
    let extent = extent_of size kb in
    let whole = multiple_of-IsDivided size extent pos (ground arith) in
    subst (λ s. All (λ q. q + extent ≤ size) (step_by 0 s extent)) (sym (whole.1))
      (subst (All (λ q. q + extent ≤ size)) (sym (step_by-divided (whole.0) extent pos))
        (offsets-fit (whole.0) 0 extent size (omega (arith, whole.1))))

module _ (k : Kernel) (start : ℕ → Option ℕ) (ram size kb : ℕ) (mode : ReclaimMode)
    (advice : ℕ) where
  -- If the size of an extent is accepted for `size` bytes of RAM, mapped for the guest as `main`
  -- maps it, and no call fails, then `reclaim_extents` returns, every byte of RAM has been handed
  -- to the kernel, none while the guest could reach it, and the guest's mapping is what it was.
  pub reclaim_extents_lem :
      (n : ℕ) (calls : Trace)
      → IsCompliant k
      → extents_of size kb ≡ ok n
      → 0 < extent_of size kb
      → IsLinear ram size (view start calls)
      → (after : Trace) × (reclaim_extents k ram size (extent_of size kb) mode advice calls
          ≡ ok (tt, after))
        × IsKept start calls after
        × ((q : ℕ) → q < size → given after (ram + q) ≡ true)
  unfolding reclaim_extents extents_of
  reclaim_extents_lem n calls good accepted pos linear = (
    triples k ram mode advice good extent offs calls,
    returns,
    reclaim_each-IsKept k start ram size mode advice extent offs calls _ fits linear returns,
    λ q h.
        subst (λ os. given (triples k ram mode advice good extent os calls) (ram + q) ≡ true)
          (sym offs_lem)
          (given-offsets k ram mode advice good m 0 extent q calls (omega arith)
            (omega (arith, h, whole.1))),
  )
    where
      extent : ℕ
      extent = extent_of size kb

      offs : List ℕ
      offs = step_by 0 size extent

      whole : IsDivided size extent
      whole = multiple_of-IsDivided size extent pos (ground arith)

      m : ℕ
      m = whole.0

      offs_lem : offs ≡ offsets m 0 extent
      offs_lem =
          subst (λ s. step_by 0 s extent ≡ offsets m 0 extent) (sym (whole.1))
            (step_by-divided m extent pos)

      fits : All (λ q. q + extent ≤ size) offs
      fits = extents-fit size kb n accepted pos

      returns :
          reclaim_each k ram extent mode advice offs calls
          ≡ ok (tt, triples k ram mode advice good extent offs calls)
      returns = reclaim_each-returns k ram mode advice good extent offs calls
