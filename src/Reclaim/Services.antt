-- ===== src/Reclaim/Services.antt =====
-- The fleet of crates/hv-reclaim/src/fleet_sim.rs: the services' regions and the stop loop.
use macos_vm_memory_ratchet.Prelude.{
  ℕ, zero, suc, ◌+◌, ◌*◌, ◌%◌, ◌^◌, ◌≤◌, ◌<◌, ◌≡◌, refl, ap, ◌∙◌, arith, Bool, true, List, Option,
  leb, ok, ap, >>-congr,
}
use macos_vm_memory_ratchet.Ledger.Pages.{offsets}
use native.Mathlib.Nat.{zero-mul}
use macos_vm_memory_ratchet.Reclaim.Extents.{offsets-fit}
use macos_vm_memory_ratchet.Reclaim.{
  Trace, Kernel, reusable, release, reclaim_range, reclaim_each, stop_service, stop_services,
  madv_free_reusable,
}
use macos_vm_memory_ratchet.Reclaim.Stage2.{view, IsLinear}
use macos_vm_memory_ratchet.Reclaim.Safe.{IsKept, reclaim_each-IsKept}
use macos_vm_memory_ratchet.Reclaim.Returns.{
  given, IsCompliant, triples, reclaim_each-returns, given-offsets,
}

-- The size of a service's region, and the check of the fleet.
unfoldable pub region_of : ℕ → ℕ
region_of service_mib = service_mib * 2 ^ 20 % 2 ^ 64

unfoldable pub fleet_fits : ℕ → ℕ → ℕ → Bool
fleet_fits service_mib services size_gb =
    leb (region_of service_mib * services % 2 ^ 64) (size_gb * 2 ^ 30 % 2 ^ 64)

-- The stop loop is a loop over the services' regions.
pub stop_services-reclaim_each :
    (k : Kernel) (ram region i n : ℕ) (calls : Trace)
    → stop_services k ram region i n calls
      ≡ reclaim_each k ram region reusable madv_free_reusable (offsets n (i * region) region) calls
unfolding stop_services stop_service reclaim_each reclaim_range release offsets
stop_services-reclaim_each k ram region i zero calls = refl
stop_services-reclaim_each k ram region i (suc n) calls =
    >>-congr (stop_service k ram (i * region) region) _ _ calls (λ t.
      stop_services-reclaim_each k ram region (i + 1) n t
      ∙ ap (λ o. reclaim_each k ram region reusable madv_free_reusable (offsets n o region) t)
          (grind arith))

module _ (k : Kernel) (start : ℕ → Option ℕ) (ram service_mib services size_gb : ℕ) where
  abbrev advice : ℕ
  advice = madv_free_reusable

  abbrev ram_size : ℕ
  ram_size = size_gb * 2 ^ 30 % 2 ^ 64

  -- Stopping every service of a fleet that fits in RAM, with no call failing and no overflow in the
  -- check, hands to the kernel every byte of every service's region, none of them while the guest
  -- could reach it, and leaves the guest's mapping as it was.
  pub stop_services_lem :
      (calls : Trace)
      → IsCompliant k
      → region_of service_mib * services < 2 ^ 64
      → fleet_fits service_mib services size_gb ≡ true
      → IsLinear ram ram_size (view start calls)
      → (after : Trace) × (stop_services k ram (region_of service_mib) 0 services calls
          ≡ ok (tt, after))
        × IsKept start calls after
        × ((i q : ℕ)
            → i < services
            → i * region_of service_mib ≤ q
            → q < (i + 1) * region_of service_mib
            → given after (ram + q) ≡ true)
  unfolding fleet_fits
  stop_services_lem calls good small fits linear = (
    triples k ram reusable advice good region offs calls,
    stop_services-reclaim_each k ram region 0 services calls
        ∙ (ap (λ o. reclaim_each k ram region reusable advice (offsets services o region) calls)
              (zero-mul region)
            ∙ returns),
    reclaim_each-IsKept k start ram ram_size reusable advice region offs calls _
        (offsets-fit services 0 region ram_size (ground arith)) linear returns,
    λ i q lt lo hi.
        given-offsets k ram reusable advice good services 0 region q calls (omega arith)
          (grind arith),
  )
    where
      region : ℕ
      region = region_of service_mib

      offs : List ℕ
      offs = offsets services 0 region

      returns :
          reclaim_each k ram region reusable advice offs calls
          ≡ ok (tt, triples k ram reusable advice good region offs calls)
      returns = reclaim_each-returns k ram reusable advice good region offs calls
