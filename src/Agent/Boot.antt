-- ===== src/Agent/Boot.antt =====
-- `mount`, `open_console` and `main` of guest-init/src/main.rs: the agent from its start on. What the
-- kernel answers to a mount and to each attempt at opening the console is a parameter.
use macos_vm_memory_ratchet.Prelude.{
  ℕ, zero, suc, ◌+◌, ◌<◌, ◌≡◌, ap, ◌∙◌, arith, Bool, true, false, ◌||◌, ◌==◌, if◌then◌else◌,
  Bool-cases, inl, inr, Result, ok, panicked, out_of_fuel, List, ◌∷◌, map,
}
use Prim.Native.String.{String}
use macos_vm_memory_ratchet.Agent.{Agent, Os, boot, serve}
use macos_vm_memory_ratchet.Agent.Requests.{Request, write_request, meant}
use macos_vm_memory_ratchet.Agent.Loop.{
  serve_lines, passed_on, AllSmall, as_lines, serve_lines-serve,
}

-- The error number of a mount, zero if it succeeds, and whether the console opens, for writing or
-- not, at an attempt.
pub record Start : Type 0 where
  pub errno : String → ℕ
  pub ebusy : ℕ
  pub opens : Bool → ℕ → Bool

abbrev pub and_then {ℓ κ} : {A : Type ℓ} {B : Type κ} → Result A → Result B → Result B
and_then (ok a) next = next
and_then (panicked what) next = panicked what
and_then out_of_fuel next = out_of_fuel

-- The line that comes before all replies.
abbrev pub after_ready : Result (List String × Agent) → Result (List String × Agent)
after_ready (ok (lines, a)) = ok ("RATCHET READY" ∷ lines, a)
after_ready (panicked what) = panicked what
after_ready out_of_fuel = out_of_fuel

module _ (start : Start) where
  -- A mount that is there already is no failure.
  unfoldable pub mount : String → Result (Unit {0})
  mount fstype =
      if start.errno fstype == 0 || start.errno fstype == start.ebusy
      then ok tt
      else panicked "mount"

  -- The attempts from `i` on, with `left` to go; it answers the one that opened the console.
  unfoldable pub attempt : Bool → ℕ → ℕ → Result ℕ
  attempt write i zero = panicked "/dev/hvc0 never appeared"
  attempt write i (suc left) =
      let again = attempt write (i + 1) left in if start.opens write i then ok i else again

  unfoldable pub open_console : Bool → Result ℕ
  unfolding attempt
  open_console write = attempt write 0 100

  -- `main` on the lines of the console.
  unfoldable pub main : Os → List String → Result (List String × Agent)
  unfolding mount open_console serve_lines
  main os lines = and_then (mount "devtmpfs") (
      and_then (mount "proc") (
        and_then (open_console true)
          (and_then (open_console false) (after_ready (serve_lines os lines boot)))))

  -- Both file systems are mounted, or were, and the console opens both ways within ten seconds, that
  -- is a hundred attempts.
  pub record IsBooting : Type 0 where
    pub devices : (start.errno "devtmpfs" == 0 || start.errno "devtmpfs" == start.ebusy) ≡ true
    pub processes : (start.errno "proc" == 0 || start.errno "proc" == start.ebusy) ≡ true
    pub out : (i : ℕ) × (i < 100) × (start.opens true i ≡ true)
    pub into : (i : ℕ) × (i < 100) × (start.opens false i ≡ true)

  -- An attempt that opens the console ends the loop, if no earlier one has.
  attempt_lem :
      (write : Bool) (i left k : ℕ)
      → k < left
      → start.opens write (i + k) ≡ true
      → (n : ℕ) × (attempt write i left ≡ ok n)
  unfolding attempt
  attempt_lem write i zero k lt opened = absurd (omega (arith, lt))
  attempt_lem write i (suc left) zero lt opened =
      let here : i + 0 ≡ i = omega arith in (i, ground (arith, ap (start.opens write) here, opened))
  attempt_lem write i (suc left) (suc k) lt opened = elim (Bool-cases (start.opens write i)) [
    | inl now ↦ (i, rw now)
    | inr not_yet ↦
        let (n, e) =
          attempt_lem write (i + 1) left k (omega (arith, lt))
            (ap (start.opens write) (omega arith) ∙ opened) in
        (n, rw not_yet e)
  ]

  open_console_lem :
      (write : Bool)
      → (i : ℕ) × (i < 100) × (start.opens write i ≡ true)
      → (n : ℕ) × (open_console write ≡ ok n)
  unfolding open_console
  open_console_lem write (i, lt, opened) =
      attempt_lem write 0 100 i lt (ap (start.opens write) (omega arith) ∙ opened)

  -- The agent, once the kernel lets it boot, says that it is ready and then does, on the lines that
  -- the harness passes on of whatever requests the host sends with numbers that are `usize`, what
  -- the server of commands does on the commands that are meant: it panics where that panics, and
  -- else it comes to the same state with that server's replies as lines.
  pub main-serve :
      IsBooting
      → (os : Os) (rs : List Request) → AllSmall rs
      → main os (passed_on (map write_request rs))
        ≡ after_ready (as_lines (serve os (map meant rs) boot))
  unfolding main mount
  main-serve booting os rs small =
      let (n, opened) = open_console_lem true booting.out in
      let (m, read) = open_console_lem false booting.into in
      rw (booting.devices, booting.processes, opened, read)
        (ap after_ready (serve_lines-serve os rs boot small))
