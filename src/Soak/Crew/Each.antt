-- ===== src/Soak/Crew/Each.antt =====
-- Whatever act of crates/hv-reclaim/src/soak.rs comes next.
use macos_vm_memory_ratchet.Prelude.{ℕ, ◌<◌, ◌≡◌, true, List, ◌∷◌, Option}
use macos_vm_memory_ratchet.Guest.Programs.{page}
use macos_vm_memory_ratchet.Guest.Turns.{vm}
use macos_vm_memory_ratchet.Guest.Hypervisor.{Hypervisor, IsDocumented}
use macos_vm_memory_ratchet.Reclaim.{Kernel, ReclaimMode, Trace}
use macos_vm_memory_ratchet.Reclaim.Returns.{IsCompliant}
use macos_vm_memory_ratchet.Soak.{Worker}
use macos_vm_memory_ratchet.Soak.Rounds.{IsBench}
use macos_vm_memory_ratchet.Soak.Crew.{
  Act, first_sweep, self_test, sweep_hot, verify_hot, sweep_cold, reclaim_cold, fill_cold,
  verify_cold,
}
use macos_vm_memory_ratchet.Soak.Crew.Acts.{verifies, fills, IsDue, IsCalm, IsDone}
use macos_vm_memory_ratchet.Soak.Crew.Hot.{
  first_sweep-IsDone, sweep_hot-IsDone, self_test-IsDone, verify_hot-IsDone,
}
use macos_vm_memory_ratchet.Soak.Crew.Cold.{
  sweep_cold-IsDone, reclaim_cold-IsDone, fill_cold-IsDone, verify_cold-IsDone,
}

module _ (code : ℕ → ℕ) (size limit patience fuel : ℕ) (hv : Hypervisor)
    (laws : IsDocumented (vm code size) limit hv) (kernel : Kernel) (good : IsCompliant kernel)
    (left : Trace → ℕ → ℕ) (start : ℕ → Option ℕ) (ram slot half : ℕ) (mode : ReclaimMode)
    (advice k : ℕ) (bench : IsBench size limit patience fuel slot half k laws.settles)
    (total : ℕ) where
  abbrev Done : Act → List Act → Worker → Worker → Type 0
  Done =
      IsDone code size limit patience fuel hv laws kernel good left start ram slot half mode advice
        k bench total

  pub act-IsDone :
      page < half
      → (a : Act) (rest : List Act) (w : Worker) → (verifies rest ≡ true → fills a ≡ true)
      → IsDue slot half total k (a ∷ rest) w
      → IsCalm start ram size w
      → (u : Worker) × Done a rest w u
  act-IsDone two first_sweep rest w order due calm =
      first_sweep-IsDone code size limit patience fuel hv laws kernel good left start ram slot half
        mode advice k bench total rest w order due calm
  act-IsDone two self_test rest w order due calm =
      self_test-IsDone code size limit patience fuel hv laws kernel good left start ram slot half
        mode advice k bench total two rest w order due calm
  act-IsDone two sweep_hot rest w order due calm =
      sweep_hot-IsDone code size limit patience fuel hv laws kernel good left start ram slot half
        mode advice k bench total rest w order due calm
  act-IsDone two verify_hot rest w order due calm =
      verify_hot-IsDone code size limit patience fuel hv laws kernel good left start ram slot half
        mode advice k bench total rest w order due calm
  act-IsDone two sweep_cold rest w order due calm =
      sweep_cold-IsDone code size limit patience fuel hv laws kernel good left start ram slot half
        mode advice k bench total rest w order due calm
  act-IsDone two reclaim_cold rest w order due calm =
      reclaim_cold-IsDone code size limit patience fuel hv laws kernel good left start ram slot half
        mode advice k bench total rest w order due calm
  act-IsDone two fill_cold rest w order due calm =
      fill_cold-IsDone code size limit patience fuel hv laws kernel good left start ram slot half
        mode advice k bench total rest w due calm
  act-IsDone two verify_cold rest w order due calm =
      verify_cold-IsDone code size limit patience fuel hv laws kernel good left start ram slot half
        mode advice k bench total rest w due calm
