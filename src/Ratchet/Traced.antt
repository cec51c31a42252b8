-- ===== src/Ratchet/Traced.antt =====
-- `run` of crates/vz-ratchet/src/fleet.rs whole: the session of the fleet with the thread that
-- samples the helper from its first line to its last.
use macos_vm_memory_ratchet.Prelude.{
  ℕ, suc, ◌+◌, ◌-◌, ◌/◌, ◌≡◌, refl, arith, true, List, [], none, some, ok, panicked, out_of_fuel,
  Result, Returns-ok,
}
use macos_vm_memory_ratchet.Options.Vz.{VzOptions, fleet_fits}
use macos_vm_memory_ratchet.Ratchet.{Link, Harness, run_fleet}
use macos_vm_memory_ratchet.Ratchet.Answers.{AnswersFleet, IsAfter}
use macos_vm_memory_ratchet.Ratchet.Logs.{fleet_log}
use macos_vm_memory_ratchet.Ratchet.Steps.{run_fleet-Says}
use macos_vm_memory_ratchet.Ratchet.Sampler.{Usage, Sample, sampler, IsTrace, sampler_lem}

-- The polls of the sampler between two times.
abbrev pub polls : ℕ → ℕ → ℕ
polls from to = (to - from) / 1000 + 1

-- The sampler is told to stop when the session has sent and slept its last.
unfoldable pub run : Harness → (ℕ → Usage) → VzOptions → Link → Result (List Sample × Link)
unfolding run_fleet sampler
run harness usage o l = elim (run_fleet harness o l) [
  | ok (done, m) ↦ elim (sampler usage m.now (suc (polls l.now m.now)) l.now) [
    | some trace ↦ ok (trace, m)
    | none ↦ out_of_fuel
  ]
  | panicked what ↦ panicked what
  | out_of_fuel ↦ out_of_fuel
]

-- With a harness that answers the lines of the fleet in time where they are sent, that is each
-- start, each stop of a service that was started and the balloon, a fleet that fits in the guest
-- and a helper that can be sampled throughout: the run of the fleet ends, its polls being enough;
-- it has sent a start for each service, a stop for each and the balloon to what the fleet left; and
-- its trace has a sample of the helper for each second from its start to its end, with the figures
-- that the kernel had then.
pub run_traced :
    (harness : Harness) (usage : ℕ → Usage)
    → ((t : ℕ) → (usage t).rc ≡ 0)
    → (o : VzOptions) → AnswersFleet harness o
    → fleet_fits o ≡ true
    → (l : Link) → l.inbox ≡ []
    → l.sent ≡ []
    → (trace : List Sample) × (m : Link) × (run harness usage o l ≡ ok (trace, m))
      × (m.sent ≡ fleet_log o)
      × IsTrace usage m.now l.now trace
unfolding run
run_traced harness usage answers o good fits l quiet fresh =
    let (done, (m, e, after)) =
      Returns-ok (λ _ u. IsAfter l.now (fleet_log o) u) (run_fleet harness o l)
        (run_fleet-Says harness o good fits l.now l
          (record { quiet = quiet; logged = fresh; forward = omega arith })) in
    let (trace, ran, is) =
      sampler_lem usage m.now answers (polls l.now m.now) l.now (omega (arith, after.forward))
        (omega (arith, after.forward)) in
    (trace, m, rw (e, ran, run) refl, after.logged, is)
