-- ===== src/Ratchet/Whole.antt =====
-- A whole session of crates/vz-ratchet/src/main.rs, from the harness's start to `quit`.
use macos_vm_memory_ratchet.Prelude.{
  ltb, inl, inr, ℕ, ◌+◌, ◌-◌, ◌*◌, ◌%◌, ◌^◌, ◌≤◌, ◌<◌, ◌≡◌, refl, sym, ◌∙◌, arith, Bool, true,
  false, List, [], ◌∷◌, Run, ok, pure, assert, ◌>>◌, >>=-ok, Returns, Returns->>=, Returns-mono,
  Returns-ok, if◌then◌else◌,
}
use mathlib.Core.Path.{subst}
use Prim.Native.String.{String}
use macos_vm_memory_ratchet.Options.Vz.{VzOptions, fleet_fits}
use macos_vm_memory_ratchet.Agent.Requests.{
  touch, free, mem, fleet_stop_one, fleet_start_one, write_request,
}
use macos_vm_memory_ratchet.Ratchet.{
  Machine, find_helper, pressure, steps, sleep, Arrival, Link, Harness, send, wait, touch_and_free,
  balloon, run_fleet, session, boot_timeout,
}
use macos_vm_memory_ratchet.Ledger.Pressure.{guard, apply}
use macos_vm_memory_ratchet.Ratchet.Pids.{ℤ, contains_pid, running_helpers}
use macos_vm_memory_ratchet.Ratchet.Helper.{find_new_helper_lem}
use macos_vm_memory_ratchet.Ratchet.Wait.{IsNoise, IsTaken, wait_lem}
use macos_vm_memory_ratchet.Ratchet.Answers.{AnswersSteps, AnswersFleet, IsAfter}
use macos_vm_memory_ratchet.Ratchet.Watch.{IsWatched}
use macos_vm_memory_ratchet.Ratchet.Logs.{
  times, balloon_line, free_log, balloon_log, touch_target, fleet_log,
}
use macos_vm_memory_ratchet.Ratchet.Steps.{touch_and_free-Says, balloon-Returns, run_fleet-Says}

-- The harness has started and the guest is ready, both in time, with nothing sent so far.
pub record IsBooting (l : Link) : Type 0 where
  pub rest : List Arrival
  pub banner : String
  pub ready : String
  pub fresh : l.sent ≡ []
  pub started : IsTaken "HARNESS started" (l.now + boot_timeout) l.inbox banner rest
  pub booted : IsTaken "RATCHET READY" (l.now + boot_timeout) rest ready []

-- The lines that a session has sent before `quit`, the newest first.
pub record IsSaid (o : VzOptions) (log : List String) : Type 0 where
  pub ballooned :
      o.fleet ≡ false
      → (k : ℕ) × (k ≤ 30)
        × (log
            ≡ times k (write_request mem) (
                balloon_line ((o.guest_gb - o.touch_gb) * 1024 % 2 ^ 64)
                ∷ write_request mem
                ∷ write_request free
                ∷ write_request (touch o.touch_gb)
                ∷ []))
  pub served :
      o.fleet ≡ true
      → log
        ≡ balloon_line (o.guest_gb * 1024 % 2 ^ 64 - o.services * o.service_mib % 2 ^ 64)
          ∷ times o.services
              (write_request fleet_stop_one)
              (times o.services (write_request (fleet_start_one o.service_mib)) [])

IsNoise-mono :
    (prefix : String) (d e : ℕ) (inbox : List Arrival)
    → d ≤ e
    → IsNoise prefix d inbox
    → IsNoise prefix e inbox
IsNoise-mono prefix d e [] le n = tt
IsNoise-mono prefix d e (a ∷ rest) le (miss, in_time, n) =
    (miss, omega arith, IsNoise-mono prefix d e rest le n)

IsTaken-mono :
    (prefix : String) (d e : ℕ) (inbox : List Arrival) (text : String) (rest : List Arrival)
    → d ≤ e
    → IsTaken prefix d inbox text rest
    → IsTaken prefix e inbox text rest
IsTaken-mono prefix d e inbox text rest le k = record {
  before = k.before;
  taken = k.taken;
  found = k.found;
  whole = k.whole;
  noise = IsNoise-mono prefix d e k.before le k.noise;
  in_time = omega (arith, k.in_time);
  hit = k.hit;
  same = k.same;
}

-- A helper runs from the time on that its guest is ready, and pressure can be generated if it is
-- asked for.
pub record IsSupporting (machine : Machine) (o : VzOptions) (from : ℕ) : Type 0 where
  pub helper :
      (t : ℕ)
      → from ≤ t
      → (pid : ℤ) × (contains_pid (running_helpers (machine.pgrep t)) pid ≡ true)
        × (contains_pid machine.pre_existing pid ≡ false)
  pub holds : (apply machine.exe machine.spawn o.pressure_gb).0 ≡ guard

module _ (harness : Harness) (machine : Machine) (o : VzOptions)
    (good : o.fleet ≡ false → AnswersSteps harness o)
    (serving : o.fleet ≡ true → AnswersFleet harness o)
    (room : o.fleet ≡ false → o.touch_gb < o.guest_gb)
    (fits : o.fleet ≡ true → fleet_fits o ≡ true) where
  abbrev middle : Bool → Run Link (Unit {0})
  middle b =
      if b
      then (do assert (fleet_fits o) "fleet must fit in the guest"; run_fleet harness o)
      else steps harness machine 31 o

  -- Nothing is left to receive, and the lines sent are those of the session.
  abbrev Spoken : Link → Type 0
  Spoken m = (m.inbox ≡ []) × IsSaid o m.sent

  pressed :
      (b : Bool) (l : Link)
      → (apply machine.exe machine.spawn o.pressure_gb).0 ≡ guard
      → Spoken l
      → Returns (λ _. Spoken) ((if b then pressure harness machine o.pressure_gb else pure tt) l)
  unfolding pressure sleep
  pressed true l holds spoken = rw (holds, Returns) spoken
  pressed false l holds spoken = spoken

  steps-Returns :
      (l : Link)
      → (apply machine.exe machine.spawn o.pressure_gb).0 ≡ guard
      → o.fleet ≡ false
      → l.inbox ≡ []
      → l.sent ≡ []
      → Returns (λ _. Spoken) (steps harness machine 31 o l)
  unfolding steps
  steps-Returns l holds is quiet fresh =
      let log = free_log o.touch_gb in
      let target = touch_target o in
      Returns->>= (touch_and_free harness o.touch_gb) _ (λ _. IsAfter 0 log) (λ _. Spoken) l
        (touch_and_free-Says harness o (good is) 0 l
          (record { quiet = quiet; logged = fresh; forward = omega arith }))
        (λ _ m a.
          Returns->>= (balloon harness 31 o.guest_gb o.touch_gb) _
            (λ _. IsWatched 0 30 (balloon_log target log)) (λ _. Spoken) m
            (balloon-Returns harness o 0 m (good is) (omega (arith, room is)) a)
            (λ _ u w. pressed (ltb 0 o.pressure_gb) u holds (
              (w.after).quiet,
              record {
                ballooned = λ e. (w.rounds, w.few, (w.after).logged);
                served = λ e. cc (is, e);
              },
            )))

  middle-Returns :
      (b : Bool) (l : Link)
      → (apply machine.exe machine.spawn o.pressure_gb).0 ≡ guard
      → o.fleet ≡ b
      → l.inbox ≡ []
      → l.sent ≡ []
      → Returns (λ _. Spoken) (middle b l)
  middle-Returns true l holds is quiet fresh =
      rw (fits is, Returns)
        (Returns-mono (λ _ m. IsAfter 0 (fleet_log o) m) (λ _. Spoken) (run_fleet harness o l)
          (λ _ m a. (a.quiet, record { ballooned = λ e. cc (is, e); served = λ e. a.logged }))
          (run_fleet-Says harness o (serving is) (fits is) 0 l
            (record { quiet = quiet; logged = fresh; forward = omega arith })))
  middle-Returns false l holds is quiet fresh = steps-Returns l holds is quiet fresh

  -- A helper that runs is found.
  find_helper-ok :
      (from : ℕ) (l : Link)
      → from ≤ l.now
      → IsSupporting machine o from
      → (pid : ℤ) × (t : ℕ) × (find_helper harness machine l ≡ ok (pid, record l { now = t }))
  unfolding find_helper
  find_helper-ok from l le supports =
      elim (find_new_helper_lem machine.pgrep machine.pre_existing l.now 10000) [
        | inl (pid, t, found, is) ↦ (pid, t, rw (found, find_helper))
        | inr (_, missing) ↦
            let (pid, runs, new) = supports.helper (l.now + 250 * 0) (omega arith) in
            absurd (cc (missing 0 pid (omega arith) runs, new))
      ]

  -- With a harness that starts in time and answers in time what a session with these options sends,
  -- where it sends it, with any other lines in front of an answer, with a helper that runs from
  -- then on and a pressure generator that can be started, and with options that leave the guest
  -- room to run or a fleet that fits in it, a session returns, and its loop over the balloon within
  -- the 30 seconds of its deadline: 31 rounds of fuel are enough. The lines that it sent are a
  -- touch, a free, a reading, the balloon to what the touch left of the guest and at most 30
  -- readings; with a fleet, a start for each service, a stop for each and the balloon to what the
  -- fleet left; and `quit` last.
  pub session_lem :
      (l : Link)
      → IsBooting l
      → IsSupporting machine o l.now
      → (m : Link) × (session harness machine 31 o l ≡ ok (tt, m))
        × ((log : List String) × (m.sent ≡ "quit" ∷ log) × IsSaid o log)
  unfolding session send
  session_lem l boots supports =
      let (t, started, lo, hi) =
        (wait_lem "HARNESS started" boot_timeout l boots.banner boots.rest).1 boots.started in
      let up : Link = record l { now = t; inbox = boots.rest } in
      let (u, ready, lo', hi') = (wait_lem "RATCHET READY" boot_timeout up boots.ready []).1 (
        IsTaken-mono "RATCHET READY" (l.now + boot_timeout) (t + boot_timeout) boots.rest
          boots.ready [] (omega arith) boots.booted) in
      let alive : Link = record up { now = u; inbox = [] } in
      let (pid, v, found) = find_helper-ok l.now alive (omega arith) supports in
      let known : Link = record alive { now = v } in
      let Spoke : Unit {0} → Link → Type 0 =
        λ _ m. (log : List String) × (m.sent ≡ "quit" ∷ log) × IsSaid o log in
      let all : Returns Spoke (session harness machine 31 o l) =
        subst (Returns Spoke)
          (sym (
            >>=-ok (wait "HARNESS started" boot_timeout) _ l up boots.banner started
            ∙ (>>=-ok (wait "RATCHET READY" boot_timeout) _ up alive boots.ready ready
                ∙ >>=-ok (find_helper harness machine) _ alive known pid found)))
          (Returns->>= (middle o.fleet) (λ _. send harness "quit") (λ _. Spoken) Spoke known
            (middle-Returns o.fleet known supports.holds refl refl boots.fresh)
            (λ _ m (quiet, said). (m.sent, refl, said))) in
      (Returns-ok Spoke (session harness machine 31 o l) all).1
