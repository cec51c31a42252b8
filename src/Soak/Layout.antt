-- ===== src/Soak/Layout.antt =====
-- The slots of crates/hv-reclaim/src/soak.rs.
use macos_vm_memory_ratchet.Prelude.{ℕ, suc, ◌+◌, ◌*◌, ◌/◌, ◌%◌, ◌≤◌, ◌<◌, ◌≡◌, arith, ok}
use mathlib.Core.Path.{subst, sym}
use native.Mathlib.Nat.{mul-div-le, mul-le-mul_right}
use macos_vm_memory_ratchet.Guest.Programs.{page}
use macos_vm_memory_ratchet.Soak.{slot_of, half_of}

-- The slot of a vCPU count that is accepted is a share of guest RAM, and half of it is sixteen whole
-- pages at least: the hot half and the cold half of each vCPU lie in guest RAM, one behind the other,
-- and before those of the next vCPU.
pub slot_of_lem :
    (ram_size vcpus slot k : ℕ)
    → slot_of ram_size vcpus ≡ ok slot
    → k < vcpus
    → (half_of slot % page ≡ 0)
      × (16 * page ≤ half_of slot)
      × (k * slot + 2 * half_of slot ≤ suc k * slot)
      × (suc k * slot ≤ ram_size)
unfolding slot_of half_of
slot_of_lem ram_size vcpus slot k h lt = (
  ground arith,
  ground (arith, big),
  grind (arith, big),
  omega (arith, fits, mul-le-mul_right slot lt),
)
  where
    share : slot ≡ ram_size / vcpus
    share = ground arith

    big : 32 * page ≤ slot
    big = ground arith

    fits : vcpus * slot ≤ ram_size
    fits = subst (λ s. vcpus * s ≤ ram_size) (sym share) (mul-div-le ram_size vcpus)
