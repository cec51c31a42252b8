-- ===== src/Reclaim/Safe.antt =====
-- What the reclaim sequences of crates/hv-reclaim/src keep of the guest's mapping, and of what has
-- been handed to the kernel.
use macos_vm_memory_ratchet.Prelude.{
  ℕ, ◌+◌, ◌≤◌, ◌≡◌, refl, sym, ap, ◌∙◌, ◌↔◌, inl, inr, arith, List, [], ◌∷◌, Option, some, ok,
  Bool-cases, >>-eq-ok,
}
use mathlib.Core.Path.{subst}
use macos_vm_memory_ratchet.Ledger.Pages.{All}
use macos_vm_memory_ratchet.Guest.Programs.{ram_gpa}
use macos_vm_memory_ratchet.Reclaim.{
  hv_vm_unmap, hv_vm_map, madvise, munmap, mmap_fixed, Trace, Kernel, ReclaimMode, reusable,
  unmapping, reclaim_range, reclaim_each, release,
}
use macos_vm_memory_ratchet.Reclaim.Stage2.{within, view, IsUnmapped, IsSafe, IsLinear}

-- The calls of one reclaimed range on top of `calls`.
abbrev pub released : ReclaimMode → ℕ → ℕ → ℕ → Trace → Trace
released reusable host len advice calls = madvise host len advice ∷ calls
released unmapping host len advice calls = mmap_fixed host len ∷ munmap host len ∷ calls

abbrev pub triple : ℕ → ℕ → ℕ → ReclaimMode → ℕ → Trace → Trace
triple ram off len mode advice calls =
    hv_vm_map (ram + off) (ram_gpa + off) len
    ∷ released mode (ram + off) len advice (hv_vm_unmap (ram_gpa + off) len ∷ calls)

pub reclaim_range-triple :
    (k : Kernel) (ram off len : ℕ) (mode : ReclaimMode) (advice : ℕ) (calls after : Trace)
    → reclaim_range k ram off len mode advice calls ≡ ok (tt, after)
    → after ≡ triple ram off len mode advice calls
unfolding reclaim_range release
reclaim_range-triple k ram off len reusable advice calls after h = ground arith
reclaim_range-triple k ram off len unmapping advice calls after h = ground arith

module _ (start : ℕ → Option ℕ) (calls : Trace) (ram size off len : ℕ) (fits : off + len ≤ size)
    (linear : IsLinear ram size (view start calls)) where
  unmapped : IsUnmapped (view start (hv_vm_unmap (ram_gpa + off) len ∷ calls)) (ram + off) len
  unmapped q h e = elim (Bool-cases (within (ram_gpa + off) len q)) [
    | inl hit ↦ absurd (ground arith)
    | inr miss ↦
        let e' : view start calls q ≡ some h = ground arith in
        elim (linear.outside q h e') [
          | inl (lo, hi) ↦ ground (arith, linear.inside q lo hi)
          | inr away ↦ ground arith
        ]
  ]

  view-triple :
      (mode : ReclaimMode) (advice q : ℕ)
      → view start (triple ram off len mode advice calls) q ≡ view start calls q
  view-triple reusable advice q = ground (arith, linear.inside q)
  view-triple unmapping advice q = ground (arith, linear.inside q)

  triple-IsSafe :
      (mode : ReclaimMode) (advice : ℕ)
      → IsSafe start (triple ram off len mode advice calls) ↔ IsSafe start calls
  triple-IsSafe reusable advice = (λ after. after.1, λ s. (unmapped, s))
  triple-IsSafe unmapping advice = (λ after. after.1.1, λ s. (unmapped, (unmapped, s)))

pub IsLinear-congr :
    (ram size : ℕ) (v w : ℕ → Option ℕ)
    → ((q : ℕ) → w q ≡ v q)
    → IsLinear ram size v
    → IsLinear ram size w
IsLinear-congr ram size v w same l = record {
  inside = λ q lo hi. same q ∙ l.inside q lo hi;
  outside = λ q h e. l.outside q h (sym (same q) ∙ e);
}

-- What a reclaim sequence keeps: the guest's view of its memory, and that nothing it can reach has
-- been handed to the kernel.
pub record IsKept (start : ℕ → Option ℕ) (before after : Trace) : Type 0 where
  pub same_view : (q : ℕ) → view start after q ≡ view start before q
  pub safe : IsSafe start after ↔ IsSafe start before

module _ (k : Kernel) (start : ℕ → Option ℕ) (ram size : ℕ) (mode : ReclaimMode) (advice : ℕ) where
  -- A reclaim of a range of RAM, mapped for the guest as `main` maps it, that returns has put the
  -- guest's mapping back exactly, and has handed to the kernel, by `madvise` or by `munmap` and
  -- `mmap`, only memory that was out of the guest's reach.
  pub reclaim_range-IsKept :
      (off len : ℕ) (calls after : Trace)
      → off + len ≤ size
      → IsLinear ram size (view start calls)
      → reclaim_range k ram off len mode advice calls ≡ ok (tt, after)
      → IsKept start calls after
  reclaim_range-IsKept off len calls after fits linear h =
      let same = reclaim_range-triple k ram off len mode advice calls after h in
      record {
        same_view = λ q.
            ap (λ t. view start t q) same
            ∙ view-triple start calls ram size off len fits linear mode advice q;
        safe =
            subst (λ t. IsSafe start t ↔ IsSafe start calls) (sym same)
              (triple-IsSafe start calls ram size off len fits linear mode advice);
      }

  pub reclaim_each-IsKept :
      (extent : ℕ) (offs : List ℕ) (calls after : Trace)
      → All (λ off. off + extent ≤ size) offs
      → IsLinear ram size (view start calls)
      → reclaim_each k ram extent mode advice offs calls ≡ ok (tt, after)
      → IsKept start calls after
  unfolding reclaim_each
  reclaim_each-IsKept extent [] calls after fit linear h =
      let same : calls ≡ after = cc in
      subst (λ t. IsKept start calls t) same
        (record { same_view = λ q. refl; safe = (λ s. s, λ s. s) })
  reclaim_each-IsKept extent (off ∷ rest) calls after (fit, fits) linear h =
      let (mid, first, then_rest) =
        >>-eq-ok (reclaim_range k ram off extent mode advice)
          (reclaim_each k ram extent mode advice rest) calls after h in
      let a = reclaim_range-IsKept off extent calls mid fit linear first in
      let b =
        reclaim_each-IsKept extent rest mid after fits
          (IsLinear-congr ram size _ _ a.same_view linear) then_rest in
      record {
        same_view = λ q. b.same_view q ∙ a.same_view q;
        safe = (λ s. a.safe.0 (b.safe.0 s), λ s. b.safe.1 (a.safe.1 s));
      }
