-- ===== src/AllocShape/Cell.antt =====
-- What a cell of crates/hv-reclaim/src/alloc_shape.rs does to the memory under test between its two
-- readings of the ledger (`run_cell`). The kernel and the framework answer the calls, as for the
-- reclaim sequences.
use macos_vm_memory_ratchet.Prelude.{
  ℕ, ◌+◌, ◌<◌, Bool-cases, ◌≡◌, refl, ◌↔◌, inl, inr, arith, Bool, true, false, ◌∷◌, Option, some,
  ◌==◌, if◌then◌else◌, ok, Run, pure, ◌>>=◌, ◌>>◌,
}
use macos_vm_memory_ratchet.Guest.Programs.{ram_gpa}
use macos_vm_memory_ratchet.Reclaim.{
  hv_vm_unmap, hv_vm_map, madvise, madv_free_reusable, Kernel, Trace, syscall, checked,
}
use macos_vm_memory_ratchet.Reclaim.Stage2.{within, view, IsUnmapped, IsSafe, IsLinear}
use macos_vm_memory_ratchet.Reclaim.Returns.{given, IsCompliant}
use macos_vm_memory_ratchet.AllocShape.{Sequence, in_place, unmap_first, unmap_only}

-- The column `madvise` of the table: none, ok, or the error.
pub data Status : Type 0 where
  skipped done : Status
  failed : ℕ → Status

abbrev status_of : ℕ → Status
status_of rc = if rc == 0 then done else failed rc

module _ (k : Kernel) (ram size : ℕ) where
  pub release_cell : Sequence → Run Trace Status
  unfolding checked syscall
  release_cell in_place = do
    rc ← syscall k (madvise ram size madv_free_reusable)
    pure (status_of rc)
  release_cell unmap_first = do
    checked k (hv_vm_unmap ram_gpa size)
    rc ← syscall k (madvise ram size madv_free_reusable)
    checked k (hv_vm_map ram ram_gpa size)
    pure (status_of rc)
  release_cell unmap_only = do
    checked k (hv_vm_unmap ram_gpa size)
    checked k (hv_vm_map ram ram_gpa size)
    pure skipped

abbrev pub calls_of : Sequence → ℕ → ℕ → Trace → Trace
calls_of in_place ram size calls = madvise ram size madv_free_reusable ∷ calls
calls_of unmap_first ram size calls =
    hv_vm_map ram ram_gpa size
    ∷ madvise ram size madv_free_reusable
    ∷ hv_vm_unmap ram_gpa size
    ∷ calls
calls_of unmap_only ram size calls = hv_vm_map ram ram_gpa size ∷ hv_vm_unmap ram_gpa size ∷ calls

-- What the table reports of a cell of which no call fails.
abbrev pub reported : Sequence → Status
reported in_place = done
reported unmap_first = done
reported unmap_only = skipped

abbrev pub is_in_place : Sequence → Bool
is_in_place in_place = true
is_in_place unmap_first = false
is_in_place unmap_only = false

abbrev pub is_unmap_only : Sequence → Bool
is_unmap_only in_place = false
is_unmap_only unmap_first = false
is_unmap_only unmap_only = true

module _ (k : Kernel) (start : ℕ → Option ℕ) (ram size : ℕ) (calls : Trace) (good : IsCompliant k)
    (linear : IsLinear ram size (view start calls)) where
  pub release_cell-returns :
      (q : Sequence) → release_cell k ram size q calls ≡ ok (reported q, calls_of q ram size calls)
  unfolding release_cell
  release_cell-returns in_place = ground (arith, good calls (madvise ram size madv_free_reusable))
  release_cell-returns unmap_first =
      let c : Trace = hv_vm_unmap ram_gpa size ∷ calls in
      let d : Trace = madvise ram size madv_free_reusable ∷ c in
      ground (
        arith,
        good calls (hv_vm_unmap ram_gpa size),
        good c (madvise ram size madv_free_reusable),
        good d (hv_vm_map ram ram_gpa size),
      )
  release_cell-returns unmap_only = ground (
    arith,
    good calls (hv_vm_unmap ram_gpa size),
    good (hv_vm_unmap ram_gpa size ∷ calls) (hv_vm_map ram ram_gpa size),
  )

  pub same_view :
      (q : Sequence) (p : ℕ) → view start (calls_of q ram size calls) p ≡ view start calls p
  same_view in_place p = refl
  same_view unmap_first p = ground (arith, linear.inside p)
  same_view unmap_only p = ground (arith, linear.inside p)

  unmapped : IsUnmapped (view start (hv_vm_unmap ram_gpa size ∷ calls)) ram size
  unmapped p h e = elim (Bool-cases (within ram_gpa size p)) [
    | inl hit ↦ absurd (ground arith)
    | inr miss ↦
        let e' : view start calls p ≡ some h = ground arith in
        elim (linear.outside p h e') [
          | inl (lo, hi) ↦ ground (arith, linear.inside p lo hi)
          | inr away ↦ away
        ]
  ]

  pub keeps_IsSafe :
      (q : Sequence)
      → is_in_place q ≡ false
      → IsSafe start calls
      → IsSafe start (calls_of q ram size calls)
  keeps_IsSafe in_place h s = absurd (ground arith)
  keeps_IsSafe unmap_first h s = (unmapped, s)
  keeps_IsSafe unmap_only h s = s

  pub not-IsSafe :
      (q : Sequence) → 0 < size → is_in_place q ≡ true → ¬ IsSafe start (calls_of q ram size calls)
  not-IsSafe in_place pos h s = elim (s.0 ram_gpa ram (ground (arith, linear.inside ram_gpa))) [
    | inl below ↦ omega arith
    | inr above ↦ omega arith
  ]
  not-IsSafe unmap_first pos h s = absurd (ground arith)
  not-IsSafe unmap_only pos h s = absurd (ground arith)

  advised :
      (q : Sequence) (p : ℕ)
      → p < size
      → given (calls_of q ram size calls) (ram + p)
        ≡ (if is_unmap_only q then given calls (ram + p) else true)
  advised in_place p lt = ground arith
  advised unmap_first p lt = ground arith
  advised unmap_only p lt = ground arith

  -- A cell, on RAM that is not empty and mapped as `run_cell` maps it, of which no call fails
  -- leaves the guest's mapping as it was. It makes its advice on all of RAM, or, if it only unmaps,
  -- none. If the guest could not reach memory while it was advised or unmapped from the host before,
  -- then that is so after it exactly if it does not advise in place. What the kernel releases, on an
  -- advice or on an unmapping from the guest alone, is not said.
  pub release_cell_lem :
      (q : Sequence)
      → 0 < size
      → IsSafe start calls
      → (after : Trace) × (release_cell k ram size q calls ≡ ok (reported q, after))
        × ((p : ℕ) → view start after p ≡ view start calls p)
        × ((p : ℕ)
            → p < size
            → given after (ram + p) ≡ (if is_unmap_only q then given calls (ram + p) else true))
        × (IsSafe start after ↔ (is_in_place q ≡ false))
  release_cell_lem q pos safe = (
    calls_of q ram size calls,
    release_cell-returns q,
    same_view q,
    advised q,
    (
      λ s. elim (Bool-cases (is_in_place q)) [
        | inl at_place ↦ absurd (not-IsSafe q pos at_place s)
        | inr elsewhere ↦ elsewhere
      ],
      λ e. keeps_IsSafe q e safe,
    ),
  )
