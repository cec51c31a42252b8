-- ===== src/Soak/Crew/Acts.antt =====
-- What each act of a worker of crates/hv-reclaim/src/soak.rs does: to its own halves, to the counters
-- and the mapping that all share, and to the rest of guest RAM.
use macos_vm_memory_ratchet.Prelude.{
  ℕ, suc, ◌+◌, ◌%◌, ◌^◌, ◌≡◌, Bool, true, false, ◌&&◌, leb, ltb, List, [], ◌∷◌, ok, Option,
}
use macos_vm_memory_ratchet.Guest.Programs.{ram_gpa}
use macos_vm_memory_ratchet.Guest.Turns.{vm}
use macos_vm_memory_ratchet.Guest.Hypervisor.{Hypervisor, IsDocumented}
use macos_vm_memory_ratchet.Reclaim.{Kernel, ReclaimMode, Trace}
use macos_vm_memory_ratchet.Reclaim.Stage2.{view, IsSafe, IsLinear}
use macos_vm_memory_ratchet.Reclaim.Returns.{IsCompliant}
use macos_vm_memory_ratchet.Soak.{Worker, hot_start, middle, cold_end}
use macos_vm_memory_ratchet.Soak.Tally.{IsClean}
use macos_vm_memory_ratchet.Soak.Rounds.{IsBench}
use macos_vm_memory_ratchet.Soak.Crew.{
  Act, first_sweep, sweep_hot, fill_cold, verify_cold, stamp_of, perform,
}

-- Sweeps of the hot half that are still to come.
abbrev pub hot_left : List Act → ℕ
hot_left [] = 0
hot_left (first_sweep ∷ rest) = suc (hot_left rest)
hot_left (sweep_hot ∷ rest) = suc (hot_left rest)
hot_left (_ ∷ rest) = hot_left rest

-- The next act verifies the cold half.
abbrev pub verifies : List Act → Bool
verifies (verify_cold ∷ rest) = true
verifies _ = false

-- An act after which the cold half holds the stamp.
abbrev pub fills : Act → Bool
fills fill_cold = true
fills verify_cold = true
fills _ = false

-- Before each verification of the cold half comes its filling, or another verification.
abbrev pub IsOrdered : List Act → Type 0
IsOrdered [] = Unit {0}
IsOrdered (a ∷ rest) = (verifies rest ≡ true → fills a ≡ true) × IsOrdered rest

-- The words of the slot of the `k`-th worker.
abbrev pub in_slot : ℕ → ℕ → ℕ → ℕ → Bool
in_slot slot half k q =
    leb (ram_gpa + hot_start slot half k) q && ltb q (ram_gpa + cold_end slot half k)

-- With `todo` left of its `total` hot sweeps, the halves of a worker are as it expects them.
pub record IsDue (slot half total k : ℕ) (todo : List Act) (w : Worker) : Type 0 where
  pub swept : ℕ
  pub count : swept + hot_left todo ≡ total
  pub hot : IsClean (hot_start slot half k) (middle slot half k) (swept % 2 ^ 64) w.vcpu.guest.ram
  pub hot_sweeps : w.hot_sweeps ≡ swept % 2 ^ 64
  pub filled :
      verifies todo ≡ true
      → IsClean (middle slot half k) (cold_end slot half k) (stamp_of k w) w.vcpu.guest.ram

-- What the workers share is as it should be.
pub record IsCalm (start : ℕ → Option ℕ) (ram size : ℕ) (w : Worker) : Type 0 where
  pub mismatches : w.stats.mismatches ≡ 0
  pub linear : IsLinear ram size (view start w.calls)
  pub safe : IsSafe start w.calls

module _ (code : ℕ → ℕ) (size limit patience fuel : ℕ) (hv : Hypervisor)
    (laws : IsDocumented (vm code size) limit hv) (kernel : Kernel) (good : IsCompliant kernel)
    (left : Trace → ℕ → ℕ) (start : ℕ → Option ℕ) (ram slot half : ℕ) (mode : ReclaimMode)
    (advice k : ℕ) (bench : IsBench size limit patience fuel slot half k laws.settles)
    (total : ℕ) where
  -- An act returns, and the worker goes on with `rest`; guest RAM outside its slot is as it was.
  pub record IsDone (a : Act) (rest : List Act) (w u : Worker) : Type 0 where
    pub returns : perform hv kernel left fuel ram slot half mode advice k a w ≡ ok (tt, u)
    pub due : IsDue slot half total k rest u
    pub calm : IsCalm start ram size u
    pub outside : (q : ℕ) → in_slot slot half k q ≡ false → u.vcpu.guest.ram q ≡ w.vcpu.guest.ram q
