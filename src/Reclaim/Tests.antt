-- ===== src/Reclaim/Tests.antt =====
-- The theorems about the reclaim sequences of crates/hv-reclaim/src at a kernel that grants every
-- call and a guest of four pages.
use macos_vm_memory_ratchet.Prelude.{ℕ, ◌+◌, ◌*◌, ◌≤◌, ◌<◌, ◌≡◌, refl, arith, true, false, [], ok}
use macos_vm_memory_ratchet.Ledger.Pages.{page}
use macos_vm_memory_ratchet.Reclaim.{
  Trace, unmapping, reusable, madv_free_reusable, reclaim, reclaim_extents, stop_services,
}
use macos_vm_memory_ratchet.Reclaim.Safe.{IsKept, triple, reclaim_range-IsKept}
use macos_vm_memory_ratchet.Reclaim.Returns.{given, reclaim_range-returns}
use macos_vm_memory_ratchet.Reclaim.Extents.{extent_of, extents_of, reclaim_extents_lem}
use macos_vm_memory_ratchet.Reclaim.Services.{region_of, fleet_fits, stop_services_lem}
use macos_vm_memory_ratchet.Reclaim.Trap.{reclaim_lem}
use macos_vm_memory_ratchet.Reclaim.Same.{reclaim-reclaim_extents}
use macos_vm_memory_ratchet.Reclaim.Bench.{kernel, compliant, ram, mapped, linear}

reclaim_range_example : IsKept (mapped (4 * page)) [] (triple ram page (2 * page) unmapping 7 [])
reclaim_range_example =
    reclaim_range-IsKept kernel (mapped (4 * page)) ram (4 * page) unmapping 7 page (2 * page) []
      (triple ram page (2 * page) unmapping 7 []) (omega arith) (linear (4 * page))
      (reclaim_range-returns kernel ram unmapping 7 compliant page (2 * page) [])

reclaim_extents_example :
    (after : Trace) × (reclaim_extents kernel ram
        (4 * page)
        (extent_of (4 * page) 32)
        unmapping
        7
        []
      ≡ ok (tt, after))
    × IsKept (mapped (4 * page)) [] after
    × ((q : ℕ) → q < 4 * page → given after (ram + q) ≡ true)
unfolding extents_of extent_of
reclaim_extents_example =
    reclaim_extents_lem kernel (mapped (4 * page)) ram (4 * page) 32 unmapping 7 2 [] compliant refl
      (omega arith) (linear (4 * page))

stop_services_example :
    (after : Trace) × (stop_services kernel ram (region_of 256) 0 8 [] ≡ ok (tt, after))
    × IsKept (mapped (3 * 1024 * 1024 * 1024)) [] after
    × ((i q : ℕ)
        → i < 8
        → i * region_of 256 ≤ q
        → q < (i + 1) * region_of 256
        → given after (ram + q) ≡ true)
unfolding region_of fleet_fits
stop_services_example =
    stop_services_lem kernel (mapped (3 * 1024 * 1024 * 1024)) ram 256 8 3 [] compliant
      (omega arith) refl (linear (3 * 1024 * 1024 * 1024))

reclaim_example :
    (after : Trace) × (reclaim kernel ram (4 * page) false 7 [] ≡ ok (tt, after))
    × IsKept (mapped (4 * page)) [] after
    × ((q : ℕ) → q < 4 * page → given after (ram + q) ≡ true)
reclaim_example =
    reclaim_lem kernel (mapped (4 * page)) ram (4 * page) 7 [] compliant (linear (4 * page))

reclaim-reclaim_extents_example :
    (reclaim_extents kernel ram (4 * page) (extent_of (4 * page) 0) reusable madv_free_reusable []
      ≡ reclaim kernel ram (4 * page) false madv_free_reusable [])
    × (reclaim_extents kernel ram (2 * (4 * page)) (4 * page) reusable madv_free_reusable []
        ≡ stop_services kernel ram (4 * page) 0 2 [])
    × (stop_services kernel ram (4 * page) 0 1 []
        ≡ reclaim kernel ram (4 * page) false madv_free_reusable [])
reclaim-reclaim_extents_example =
    reclaim-reclaim_extents kernel ram (4 * page) madv_free_reusable 2 [] (omega arith)
