-- ===== src/Ratchet/Answers.antt =====
-- A harness that answers the lines of a session of crates/vz-ratchet/src in time, and one exchange
-- with it.
use macos_vm_memory_ratchet.Prelude.{
  ℕ, ◌+◌, ◌*◌, ◌^◌, ◌≤◌, ◌<◌, ◌≡◌, refl, ap, sym, ◌∙◌, arith, List, [], ◌∷◌, ◌++◌, Run, ◌>>=◌, ◌>>◌,
  >>=-ok, Returns,
}
use mathlib.Core.Path.{subst}
use Prim.Native.String.{String}
use macos_vm_memory_ratchet.Options.Numbers.{parse_usize, print_usize, parse_usize-print_usize}
use macos_vm_memory_ratchet.Options.Vz.{VzOptions}
use macos_vm_memory_ratchet.Agent.Requests.{mem, fleet_stop_one, fleet_start_one, write_request}
use macos_vm_memory_ratchet.Ratchet.Logs.{
  times, touch_log, free_log, balloon_log, touch_target, starts_log, stops_log, fleet_log,
}
use macos_vm_memory_ratchet.Ratchet.{
  Arrival, Link, Harness, send, wait, sleep, expect, guest_mem_available_kib, boot_timeout,
  touch_timeout,
}
use macos_vm_memory_ratchet.Ratchet.Wait.{IsTaken, wait_lem}

-- Behind noise, one line with the prefix comes in within the timeout. What comes in behind it, before
-- the next line is sent, counts as noise in front of that line's answer.
abbrev pub IsAnswered : String → ℕ → ℕ → List Arrival → Type 0
IsAnswered prefix timeout now inbox = (text : String) × IsTaken prefix (now + timeout) inbox text []

-- A figure for `MemAvailable` comes in within its timeout when it is asked for on top of `log`.
abbrev pub IsFigured : Harness → List String → Type 0
IsFigured harness log =
    (now : ℕ)
    → (kib : ℕ) × (kib < 2 ^ 64)
      × IsTaken "RATCHET MEM" (now + 15 * 1000) (harness (write_request mem ∷ log) now)
          (print_usize kib) []

-- The lines of a session without a fleet are answered, each where the session sends it.
pub record AnswersSteps (harness : Harness) (o : VzOptions) : Type 0 where
  pub touches :
      (now : ℕ)
      → IsAnswered "RATCHET TOUCHED" touch_timeout now (harness (touch_log o.touch_gb) now)
  pub frees :
      (now : ℕ) → IsAnswered "RATCHET FREED" boot_timeout now (harness (free_log o.touch_gb) now)
  pub figure : IsFigured harness (free_log o.touch_gb)
  pub balloons :
      (now : ℕ)
      → IsAnswered "HARNESS balloon-target"
          (10 * 1000)
          now
          (harness (balloon_log (touch_target o) (free_log o.touch_gb)) now)
  pub figures :
      (k : ℕ)
      → k < 30
      → IsFigured harness
          (times k (write_request mem) (balloon_log (touch_target o) (free_log o.touch_gb)))

-- And those of a session with a fleet: a start for each service, a stop for each that was started,
-- and the balloon.
pub record AnswersFleet (harness : Harness) (o : VzOptions) : Type 0 where
  pub starts :
      (k now : ℕ)
      → k < o.services
      → IsAnswered "RATCHET FLEET-STARTED" boot_timeout now
          (harness (write_request (fleet_start_one o.service_mib) ∷ starts_log k o) now)
  pub stops :
      (k now : ℕ)
      → k < o.services
      → IsAnswered "RATCHET FLEET-STOPPED" boot_timeout now
          (harness (write_request fleet_stop_one ∷ stops_log k o) now)
  pub balloons :
      (now : ℕ) → IsAnswered "HARNESS balloon-target" (10 * 1000) now (harness (fleet_log o) now)

-- The lines sent by then are `log`, nothing is left to receive, and the clock has not gone back.
pub record IsAfter (now : ℕ) (log : List String) (m : Link) : Type 0 where
  pub quiet : m.inbox ≡ []
  pub logged : m.sent ≡ log
  pub forward : now ≤ m.now

module _ (harness : Harness) where
  -- A line that is sent, and the wait for its answer.
  pub exchange {ℓ} :
      {B : Type ℓ} (line prefix : String) (timeout : ℕ) (text : String) (f : String → Run Link B)
      (R : B → Link → Type 0) (now : ℕ) (log : List String) (l : Link)
      → IsAfter now log l
      → IsTaken prefix (l.now + timeout) (harness (line ∷ log) l.now) text []
      → ((m : Link) → IsAfter l.now (line ∷ log) m → Returns R (f text m))
      → Returns R ((send harness line >> (wait prefix timeout >>= f)) l)
  unfolding send
  exchange line prefix timeout text f R now log l after taken next =
      let sent : Link = record {
        now = l.now;
        sent = line ∷ l.sent;
        inbox = l.inbox ++ harness (line ∷ l.sent) l.now;
      } in
      let inbox : harness (line ∷ log) l.now ≡ sent.inbox = sym (
        ap (λ i. i ++ harness (line ∷ l.sent) l.now) after.quiet
        ∙ ap (λ s. harness (line ∷ s) l.now) after.logged) in
      let (t, returns, lo, hi) =
        (wait_lem prefix timeout sent text []).1
          (subst (λ i. IsTaken prefix (l.now + timeout) i text []) inbox taken) in
      subst (Returns R)
        (sym
          (>>=-ok (wait prefix timeout) f sent (record sent { now = t; inbox = [] }) text returns))
        (next (record sent { now = t; inbox = [] })
          (record { quiet = refl; logged = ap (◌∷◌ line) after.logged; forward = lo }))

  -- The figure that `guest_mem_available_kib` answers is the one that the guest printed.
  pub guest_mem-Returns :
      (now : ℕ) (log : List String) (l : Link)
      → IsFigured harness log
      → IsAfter now log l
      → Returns
          (λ kib m. IsAfter l.now (write_request mem ∷ log) m)
          (guest_mem_available_kib harness l)
  unfolding guest_mem_available_kib
  guest_mem-Returns now log l figure after =
      let (kib, small, taken) = figure l.now in
      exchange (write_request mem) "RATCHET MEM" (15 * 1000) (print_usize kib)
        (λ text. expect (parse_usize text)) (λ kib m. IsAfter l.now (write_request mem ∷ log) m) now
        log l after taken (λ m next. rw (parse_usize-print_usize kib small, Returns) next)

  pub sleep-Returns :
      (ms now : ℕ) (log : List String) (l : Link)
      → IsAfter now log l
      → Returns (λ _. IsAfter now log) (sleep ms l)
  unfolding sleep
  sleep-Returns ms now log l after = record {
    quiet = after.quiet;
    logged = after.logged;
    forward = omega (arith, after.forward);
  }
