-- ===== src/Reclaim/Same.antt =====
-- The reclaim sequences of crates/hv-reclaim/src that are written out three times: `reclaim` of
-- main.rs, `reclaim_extents` of timing.rs at one extent, and the stop loop of fleet_sim.rs at one
-- service.
use macos_vm_memory_ratchet.Prelude.{
  ℕ, ◌<◌, ◌≡◌, refl, ap, sym, ◌∙◌, ◌*◌, arith, false, List, [], ◌∷◌, Result, ok, panicked,
  out_of_fuel, Run, pure, ◌>>◌,
}
use native.Mathlib.Nat.{zero-mul}
use macos_vm_memory_ratchet.Ledger.Pages.{offsets, step_by}
use macos_vm_memory_ratchet.Reclaim.{
  Trace, Kernel, reusable, madv_free_reusable, reclaim, reclaim_range, reclaim_each,
  reclaim_extents, stop_services,
}
use macos_vm_memory_ratchet.Reclaim.Extents.{extent_of, step_by-divided}
use macos_vm_memory_ratchet.Reclaim.Services.{stop_services-reclaim_each}
use macos_vm_memory_ratchet.Reclaim.Trap.{reclaim-reclaim_range}

>>-pure : (m : Run Trace (Unit {0})) (s : Trace) → (m >> pure tt) s ≡ m s
>>-pure m s = go (m s)
  where
    go :
        (r : Result (Unit {0} × Trace))
        → (elim r as (λ _. Result (Unit {0} × Trace)) [
          | ok (a, u) ↦ ok (tt, u)
          | panicked what ↦ panicked what
          | out_of_fuel ↦ out_of_fuel
        ])
          ≡ r
    go (ok (a, u)) = refl
    go (panicked what) = refl
    go out_of_fuel = refl

module _ (k : Kernel) (ram size : ℕ) where
  one-reclaim_each :
      (advice : ℕ) (calls : Trace)
      → reclaim_each k ram size reusable advice (0 ∷ []) calls
        ≡ reclaim_range k ram 0 size reusable advice calls
  unfolding reclaim_each
  one-reclaim_each advice calls = >>-pure (reclaim_range k ram 0 size reusable advice) calls

  one-reclaim :
      (advice : ℕ) (calls : Trace)
      → reclaim_each k ram size reusable advice (0 ∷ []) calls
        ≡ reclaim k ram size false advice calls
  one-reclaim advice calls =
      one-reclaim_each advice calls ∙ sym (reclaim-reclaim_range k ram size advice calls)

  -- Whatever the kernel answers, with the same calls and the same outcome: a RAM that is not empty
  -- is reclaimed, with any advice, by `reclaim` without `--naive` and by `reclaim_extents` at
  -- `--extent-kb 0` in the reusable mode; the regions of a fleet are, by its stop loop and by
  -- `reclaim_extents` in extents of a region with the advice MADV_FREE_REUSABLE, which the stop loop
  -- makes whatever `--advice` says; and a fleet of one service is stopped by `reclaim` of its
  -- region with that advice.
  pub reclaim-reclaim_extents :
      (advice n : ℕ) (calls : Trace)
      → 0 < size
      → (reclaim_extents k ram size (extent_of size 0) reusable advice calls
          ≡ reclaim k ram size false advice calls)
        × (reclaim_extents k ram (n * size) size reusable madv_free_reusable calls
            ≡ stop_services k ram size 0 n calls)
        × (stop_services k ram size 0 1 calls ≡ reclaim k ram size false madv_free_reusable calls)
  unfolding reclaim_extents extent_of offsets
  reclaim-reclaim_extents advice n calls pos = (
    each (whole) advice ∙ one-reclaim advice calls,
    each (step_by-divided n size pos) madv_free_reusable ∙ sym (stops n),
    stops 1 ∙ one-reclaim madv_free_reusable calls,
  )
    where
      each :
          {os qs : List ℕ}
          → os ≡ qs
          → (a : ℕ)
          → reclaim_each k ram size reusable a os calls
            ≡ reclaim_each k ram size reusable a qs calls
      each same a = ap (λ (os : List ℕ). reclaim_each k ram size reusable a os calls) same

      stops :
          (m : ℕ)
          → stop_services k ram size 0 m calls
            ≡ reclaim_each k ram size reusable madv_free_reusable (offsets m 0 size) calls
      stops m =
          stop_services-reclaim_each k ram size 0 m calls
          ∙ ap
              (λ (o : ℕ).
                reclaim_each k ram size reusable madv_free_reusable (offsets m o size) calls)
              (zero-mul size)

      whole : step_by 0 size size ≡ 0 ∷ []
      whole = ap (λ (s : ℕ). step_by 0 s size) (omega arith) ∙ step_by-divided 1 size pos
