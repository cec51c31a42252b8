-- ===== src/Probes/EndToEnd.antt =====
-- `hammer_check` of crates/hv-reclaim/src/main.rs behind the touch pass that comes before it, on
-- memory that keeps what it is given.
use macos_vm_memory_ratchet.Prelude.{
  ℕ, suc, ◌+◌, ◌*◌, ◌^◌, ◌≤◌, ◌<◌, ◌≡◌, refl, ◌∙◌, arith, List, [], ◌∷◌, Bool, true, false, ok,
  length,
}
use macos_vm_memory_ratchet.Ledger.Pages.{page, step_by, count, contains-step_by}
use macos_vm_memory_ratchet.Guest.Programs.{ram_gpa}
use macos_vm_memory_ratchet.Guest.Turns.{vm}
use macos_vm_memory_ratchet.Guest.Hypervisor.{Hypervisor, IsDocumented}
use macos_vm_memory_ratchet.Guest.Host.{Vcpu, run_touch_pass, run_hammer}
use macos_vm_memory_ratchet.Guest.Enter.{more_rounds, IsRange}
use macos_vm_memory_ratchet.Guest.Correct.{run_touch_range_lem}
use macos_vm_memory_ratchet.Guest.HammerCorrect.{Asks, run_hammer_lem}
use macos_vm_memory_ratchet.Probes.Survey.{hammered_survey, hammered_survey_lem}

count_none : (offs : List ℕ) → count (λ _. false) offs ≡ 0
count_none [] = refl
count_none (off ∷ rest) = omega (arith, count_none rest)

count_every : (offs : List ℕ) → count (λ _. true) offs ≡ length offs
count_every [] = refl
count_every (off ∷ rest) = omega (arith, count_every rest)

module _ {ℓ} {S : Type ℓ} (keep_going : ℕ → S → Bool × S) (code : ℕ → ℕ) (size limit : ℕ)
    (hv : Hypervisor) (laws : IsDocumented (vm code size) limit hv) (inside : IsRange size 0 size)
    (short : suc (more_rounds 0 size) * 7 + 3 ≤ limit) (patience : ℕ)
    (patient : (i : ℕ) → laws.settles i ≤ i + patience) where
  -- On a documented hypervisor that is never canceled more than `patience` times in a row, with
  -- enough entries and instructions, and with counters that do not wrap: a touch pass and then a
  -- hammer run of `1 + j` sweeps return, and if memory has kept what the guest wrote, then the
  -- survey with the number of sweeps that the run returned finds every page of RAM intact and none
  -- lost.
  pub hammered_survey-run_hammer :
      (j fuel : ℕ) (s t : S) (v : Vcpu)
      → Asks keep_going j 1 s t
      → ram_gpa + size + (1 + j) < 2 ^ 64
      → suc j * (patience + 1) ≤ fuel
      → (u : Vcpu) × (run_touch_pass hv fuel size v ≡ ok (tt, u))
        × ((w : Vcpu) × (run_hammer hv keep_going fuel size s u ≡ ok ((1 + j, t), w))
            × (let found = hammered_survey (1 + j) (λ off. w.guest.ram (ram_gpa + off)) size in
                (found.intact ≡ length (step_by 0 size page)) × (found.lost ≡ 0)))
  unfolding run_touch_pass
  hammered_survey-run_hammer j fuel s t v asks small enough =
      let entries : patience + 1 ≤ fuel = grind arith in
      let (u, touched, first) =
        run_touch_range_lem code size limit hv laws fuel 0 size inside v
          (omega (arith, patient v.calls)) in
      let (w, swept, then_ram) =
        run_hammer_lem keep_going code size limit hv laws inside short patience patient j fuel s t u
          asks (omega arith) enough in
      let found =
        hammered_survey_lem (λ off. w.guest.ram (ram_gpa + off)) size (λ _. false) (1 + j) small
          (λ off h. (
            λ kept. ground (
              arith,
              then_ram (ram_gpa + off),
              first (ram_gpa + off),
              contains-step_by 0 size off,
            ),
            λ lost. absurd (ground arith),
          )) in
      (
        u,
        touched,
        (
          w,
          swept,
          (found.0 ∙ count_every (step_by 0 size page), found.1 ∙ count_none (step_by 0 size page)),
        ),
      )
