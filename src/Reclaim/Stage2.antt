-- ===== src/Reclaim/Stage2.antt =====
-- What the calls of the reclaim sequences (crates/hv-reclaim/src) leave mapped for the guest, and
-- when a release of host memory is safe.
use macos_vm_memory_ratchet.Prelude.{
  ℕ, ◌+◌, ◌-◌, ◌≤◌, ◌<◌, ◌≡◌, ◌⊎◌, Bool, ◌&&◌, [], ◌∷◌, Option, none, some, ltb, leb, if◌then◌else◌,
}
use macos_vm_memory_ratchet.Guest.Programs.{ram_gpa}
use macos_vm_memory_ratchet.Reclaim.{hv_vm_unmap, hv_vm_map, madvise, munmap, mmap_fixed, Trace}

abbrev pub within : ℕ → ℕ → ℕ → Bool
within from len q = leb from q && ltb q (from + len)

-- The host address behind each guest address, after the calls on top of `start`.
abbrev pub view : (ℕ → Option ℕ) → Trace → ℕ → Option ℕ
view start [] q = start q
view start (hv_vm_unmap gpa len ∷ calls) q = if within gpa len q then none else view start calls q
view start (hv_vm_map host gpa len ∷ calls) q =
    if within gpa len q then some (host + (q - gpa)) else view start calls q
view start (madvise host len advice ∷ calls) q = view start calls q
view start (munmap host len ∷ calls) q = view start calls q
view start (mmap_fixed host len ∷ calls) q = view start calls q

-- No guest address leads into `len` bytes of host memory from `host`.
abbrev pub IsUnmapped : (ℕ → Option ℕ) → ℕ → ℕ → Type 0
IsUnmapped v host len = (q h : ℕ) → v q ≡ some h → (h < host) ⊎ (host + len ≤ h)

-- Whenever host memory was handed to the kernel, no guest address led to it.
abbrev pub IsSafe : (ℕ → Option ℕ) → Trace → Type 0
IsSafe start [] = Unit {0}
IsSafe start (hv_vm_unmap gpa len ∷ calls) = IsSafe start calls
IsSafe start (hv_vm_map host gpa len ∷ calls) = IsSafe start calls
IsSafe start (madvise host len advice ∷ calls) =
    IsUnmapped (view start calls) host len × IsSafe start calls
IsSafe start (munmap host len ∷ calls) = IsUnmapped (view start calls) host len × IsSafe start calls
IsSafe start (mmap_fixed host len ∷ calls) =
    IsUnmapped (view start calls) host len × IsSafe start calls

-- Guest RAM is mapped as `main` maps it, and no other guest address leads into its host memory.
pub record IsLinear (ram size : ℕ) (v : ℕ → Option ℕ) : Type 0 where
  pub inside : (q : ℕ) → ram_gpa ≤ q → q < ram_gpa + size → v q ≡ some (ram + (q - ram_gpa))
  pub outside :
      (q h : ℕ)
      → v q ≡ some h
      → (ram_gpa ≤ q) × (q < ram_gpa + size) ⊎ ((h < ram) ⊎ (ram + size ≤ h))
