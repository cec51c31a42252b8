-- ===== src/Reclaim/Returns.antt =====
-- The reclaim sequences of crates/hv-reclaim/src when no call fails, and what a trace of calls has
-- handed to the kernel.
use macos_vm_memory_ratchet.Prelude.{
  ℕ, zero, suc, ◌+◌, ◌*◌, ◌≤◌, ◌<◌, ◌≡◌, refl, ◌∙◌, arith, Bool, true, false, List, [], ◌∷◌, ltb,
  ◌||◌, Bool-cases, inl, inr, >>=-ok, ok,
}
use macos_vm_memory_ratchet.Ledger.Pages.{offsets}
use macos_vm_memory_ratchet.Guest.Programs.{ram_gpa}
use macos_vm_memory_ratchet.Reclaim.{
  release, Call, munmap, mmap_fixed, unmapping, hv_vm_unmap, hv_vm_map, madvise, Trace, Kernel,
  ReclaimMode, reusable, reclaim_range, reclaim_each,
}
use macos_vm_memory_ratchet.Reclaim.Stage2.{within}
use macos_vm_memory_ratchet.Reclaim.Safe.{triple}

-- What the calls have handed to the kernel of host memory: advised by `madvise`, or unmapped. What
-- the kernel then releases of it is not said.
abbrev pub given : Trace → ℕ → Bool
given [] h = false
given (hv_vm_unmap gpa len ∷ calls) h = given calls h
given (hv_vm_map host gpa len ∷ calls) h = given calls h
given (madvise host len advice ∷ calls) h = within host len h || given calls h
given (munmap host len ∷ calls) h = within host len h || given calls h
given (mmap_fixed host len ∷ calls) h = given calls h

-- Every call succeeds: it answers 0, and `mmap(MAP_FIXED)` the address that it was given.
abbrev pub IsCompliant : Kernel → Type 0
IsCompliant k =
    (calls : Trace) (c : Call) → k calls c ≡ elim c [ mmap_fixed host len ↦ host | _ ↦ 0 ]

module _ (k : Kernel) (ram : ℕ) (mode : ReclaimMode) (advice : ℕ) (good : IsCompliant k) where
  pub reclaim_range-returns :
      (off len : ℕ) (calls : Trace)
      → reclaim_range k ram off len mode advice calls
        ≡ ok (tt, triple ram off len mode advice calls)
  unfolding reclaim_range release
  reclaim_range-returns off len calls = go mode
    where
      go :
          (m : ReclaimMode)
          → reclaim_range k ram off len m advice calls ≡ ok (tt, triple ram off len m advice calls)
      go reusable =
          let u = ram_gpa + off in
          let c = hv_vm_unmap u len ∷ calls in
          ground (
            arith,
            good calls (hv_vm_unmap u len),
            good c (madvise (ram + off) len advice),
            good (madvise (ram + off) len advice ∷ c) (hv_vm_map (ram + off) u len),
          )
      go unmapping =
          let u = ram_gpa + off in
          let c = hv_vm_unmap u len ∷ calls in
          let d = munmap (ram + off) len ∷ c in
          ground (
            arith,
            good calls (hv_vm_unmap u len),
            good c (munmap (ram + off) len),
            good d (mmap_fixed (ram + off) len),
            good (mmap_fixed (ram + off) len ∷ d) (hv_vm_map (ram + off) u len),
          )

  -- The calls of all the extents.
  abbrev pub triples : ℕ → List ℕ → Trace → Trace
  triples extent [] calls = calls
  triples extent (off ∷ rest) calls = triples extent rest (triple ram off extent mode advice calls)

  pub reclaim_each-returns :
      (extent : ℕ) (offs : List ℕ) (calls : Trace)
      → reclaim_each k ram extent mode advice offs calls ≡ ok (tt, triples extent offs calls)
  unfolding reclaim_each
  reclaim_each-returns extent [] calls = refl
  reclaim_each-returns extent (off ∷ rest) calls =
      >>=-ok (reclaim_range k ram off extent mode advice) _ calls _ tt
        (reclaim_range-returns off extent calls)
      ∙ reclaim_each-returns extent rest (triple ram off extent mode advice calls)

  given-triples :
      (extent q : ℕ) (offs : List ℕ) (calls : Trace)
      → given calls q ≡ true
      → given (triples extent offs calls) q ≡ true
  given-triples extent q [] calls h = h
  given-triples extent q (off ∷ rest) calls h =
      given-triples extent q rest (triple ram off extent mode advice calls) (given_triple mode)
    where
      given_triple : (m : ReclaimMode) → given (triple ram off extent m advice calls) q ≡ true
      given_triple reusable = ground arith
      given_triple unmapping = ground arith

  pub given-offsets :
      (n off extent q : ℕ) (calls : Trace)
      → off ≤ q
      → q < off + n * extent
      → given (triples extent (offsets n off extent) calls) (ram + q) ≡ true
  unfolding offsets
  given-offsets zero off extent q calls lo hi = absurd (omega arith)
  given-offsets (suc n) off extent q calls lo hi = elim (Bool-cases (ltb q (off + extent))) [
    | inl here ↦
        given-triples extent (ram + q) (offsets n (off + extent) extent)
          (triple ram off extent mode advice calls) (given_here mode (ground arith))
    | inr later ↦
        given-offsets n (off + extent) extent q (triple ram off extent mode advice calls)
          (ground arith) (grind arith)
  ]
    where
      given_here :
          (m : ReclaimMode)
          → q < off + extent
          → given (triple ram off extent m advice calls) (ram + q) ≡ true
      given_here reusable h = ground arith
      given_here unmapping h = ground arith
