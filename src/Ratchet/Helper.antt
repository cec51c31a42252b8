-- ===== src/Ratchet/Helper.antt =====
-- `find_new_helper` of crates/vz-ratchet/src/helper.rs. What `pgrep` prints at a time is a parameter.
-- Of several new helpers the first is taken.
use macos_vm_memory_ratchet.Prelude.{
  ℕ, zero, suc, ◌+◌, ◌*◌, ◌/◌, ◌≤◌, ◌<◌, ◌≡◌, ◌⊎◌, ap, ◌∙◌, inl, inr, arith, true, false, List, [],
  ◌∷◌, Option, none, some, Option-cases, Bool-cases, ltb, if◌then◌else◌, Result, ok, panicked,
  out_of_fuel,
}
use mathlib.Core.Path.{subst}
use Prim.Native.String.{String}
use macos_vm_memory_ratchet.Ratchet.Pids.{
  ℤ, contains_pid, running_helpers, same_pid_refl, same_pid-eq,
}

-- `running_helpers().difference(pre_existing).next()`.
unfoldable pub first_new : List ℤ → List ℤ → Option ℤ
first_new pre_existing [] = none
first_new pre_existing (pid ∷ rest) =
    if contains_pid pre_existing pid then first_new pre_existing rest else some pid

module _ (pgrep : ℕ → List String) (pre_existing : List ℤ) where
  abbrev pub running : ℕ → List ℤ
  running now = running_helpers (pgrep now)

  unfoldable pub poll : ℕ → ℕ → ℕ → Result (ℤ × ℕ)
  unfolding first_new
  poll zero now deadline = out_of_fuel
  poll (suc fuel) now deadline =
      let again = poll fuel (now + 250) deadline in
      if ltb now deadline
      then elim (first_new pre_existing (running now)) [ some pid ↦ ok (pid, now) | none ↦ again ]
      else panicked "no new VirtualMachine process appeared"

  -- The clock reads `now`, and a poll takes 250 milliseconds; with the process comes what the clock
  -- reads then.
  unfoldable pub find_new_helper : ℕ → ℕ → Result (ℤ × ℕ)
  unfolding poll
  find_new_helper now timeout = poll (suc (timeout / 250 + 1)) now (now + timeout)

  first_new-some :
      (pids : List ℤ) (pid : ℤ)
      → first_new pre_existing pids ≡ some pid
      → (contains_pid pids pid ≡ true) × (contains_pid pre_existing pid ≡ false)
  unfolding first_new
  first_new-some [] pid h = absurd (cc)
  first_new-some (p ∷ rest) pid h =
      ground (arith, first_new-some rest pid, same_pid_refl p, same_pid_refl pid)

  first_new-none :
      (pids : List ℤ) (pid : ℤ)
      → first_new pre_existing pids ≡ none
      → contains_pid pids pid ≡ true
      → contains_pid pre_existing pid ≡ true
  unfolding first_new
  first_new-none [] pid h c = absurd (cc)
  first_new-none (p ∷ rest) pid h c = ground (arith, first_new-none rest pid, same_pid-eq pid p)

  -- A helper that was not there before was running at a poll, at the time `t`.
  pub record IsFound (now deadline : ℕ) (pid : ℤ) (t : ℕ) : Type 0 where
    pub polls : ℕ
    pub clock : t ≡ now + 250 * polls
    pub in_time : t < deadline
    pub runs : contains_pid (running t) pid ≡ true
    pub new : contains_pid pre_existing pid ≡ false

  -- At no poll before the deadline did a new helper run.
  abbrev pub IsMissing : ℕ → ℕ → Type 0
  IsMissing now deadline =
      (i : ℕ) (pid : ℤ)
      → now + 250 * i < deadline
      → contains_pid (running (now + 250 * i)) pid ≡ true
      → contains_pid pre_existing pid ≡ true

  abbrev Polled : ℕ → ℕ → Result (ℤ × ℕ) → Type 0
  Polled now deadline r =
      ((pid : ℤ) × (t : ℕ) × (r ≡ ok (pid, t)) × IsFound now deadline pid t)
      ⊎ (((what : String) × (r ≡ panicked what)) × IsMissing now deadline)

  missed :
      (now deadline : ℕ)
      → first_new pre_existing (running now) ≡ none
      → IsMissing (now + 250) deadline
      → IsMissing now deadline
  missed now deadline e rest zero pid lt c =
      first_new-none (running now) pid e (ap (λ t. contains_pid (running t) pid) (omega arith) ∙ c)
  missed now deadline e rest (suc i) pid lt c =
      rest i pid (omega (arith, lt)) (ap (λ t. contains_pid (running t) pid) (omega arith) ∙ c)

  later-IsFound :
      (now deadline : ℕ) (pid : ℤ) (t : ℕ)
      → IsFound (now + 250) deadline pid t
      → IsFound now deadline pid t
  later-IsFound now deadline pid t f = record {
    polls = suc (f.polls);
    clock = omega (arith, f.clock);
    in_time = f.in_time;
    runs = f.runs;
    new = f.new;
  }

  shifted :
      (now deadline : ℕ) (r : Result (ℤ × ℕ))
      → first_new pre_existing (running now) ≡ none
      → Polled (now + 250) deadline r
      → Polled now deadline r
  shifted now deadline r e (inl (pid, t, same, f)) =
      inl (pid, t, same, later-IsFound now deadline pid t f)
  shifted now deadline r e (inr (what, m)) = inr (what, missed now deadline e m)

  poll_lem :
      (fuel now deadline : ℕ)
      → deadline ≤ now + 250 * fuel
      → Polled now deadline (poll (suc fuel) now deadline)
  unfolding poll
  poll_lem zero now deadline enough =
      let over : ltb now deadline ≡ false = ground arith in
      inr (
        ("no new VirtualMachine process appeared", rw (over, poll)),
        λ i pid lt c. absurd (omega (arith, enough, lt)),
      )
  poll_lem (suc fuel) now deadline enough = elim (Bool-cases (ltb now deadline)) [
    | inr over ↦ inr (
      ("no new VirtualMachine process appeared", rw (over, poll)),
      λ i pid lt c. absurd (ground arith),
    )
    | inl still ↦ elim (Option-cases (first_new pre_existing (running now))) [
      | inr (pid, e) ↦
          let (runs, new) = first_new-some (running now) pid e in
          inl (
            pid,
            now,
            ground arith,
            record {
              polls = 0;
              clock = omega arith;
              in_time = ground arith;
              runs = runs;
              new = new;
            },
          )
      | inl e ↦ subst (Polled now deadline) (ground arith) (
          shifted now deadline (poll (suc fuel) (now + 250) deadline) e
            (poll_lem fuel (now + 250) deadline (omega (arith, enough))))
    ]
  ]

  -- `find_new_helper` ends: a poll takes 250 milliseconds, so the fuel for a timeout is enough. It
  -- returns a process that ran at one of its polls and not before the VM was started, with the time
  -- of that poll, or it panics, and then at none of its polls did any such process run.
  pub find_new_helper_lem :
      (now timeout : ℕ)
      → ((pid : ℤ) × (t : ℕ) × (find_new_helper now timeout ≡ ok (pid, t))
          × IsFound now (now + timeout) pid t)
        ⊎ (((what : String) × (find_new_helper now timeout ≡ panicked what))
            × IsMissing now (now + timeout))
  unfolding find_new_helper
  find_new_helper_lem now timeout = poll_lem (timeout / 250 + 1) now (now + timeout) (omega arith)
