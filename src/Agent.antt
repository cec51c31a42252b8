-- ===== src/Agent.antt =====
-- guest-init/src/main.rs: the agent inside the Linux guest, from a command that has been read to its
-- reply. The guest's kernel is a parameter that answers `mmap` and `fork`.
pub mod Sessions
pub mod Fleet
pub mod Lines
pub mod Requests
pub mod MemInfo
pub mod Loop
pub mod Child
pub mod Boot
pub mod Tests
use Prim.Native.String.{String}
use macos_vm_memory_ratchet.Prelude.{
  ℕ, zero, suc, ◌+◌, ◌*◌, ◌%◌, ◌^◌, Option, none, some, List, [], ◌∷◌, ◌++◌, length, if◌then◌else◌,
  ok, panicked, out_of_fuel, Result, Bool, true, false,
}

-- The arms of the `if` on a line: `touch N`, `free`, `mem`, `fleet start K MIB`, `fleet stop-one`,
-- `fleet stop` and anything else.
pub data Command : Type 0 where
  touch : ℕ → Command
  free mem : Command
  fleet_start : ℕ → ℕ → Command
  fleet_stop_one fleet_stop : Command
  unknown : String → Command

pub data Reply : Type 0 where
  touched : ℕ → Reply
  freed : Reply
  available : ℕ → Reply
  fleet_started fleet_stopped : ℕ → Reply
  err : String → Reply

-- The two lists, and for the proofs what has been unmapped and killed so far, the newest last.
pub record Agent : Type 0 where
  pub held : List (ℕ × ℕ)
  pub fleet : List ℕ
  pub unmapped : List (ℕ × ℕ)
  pub killed : List ℕ
  pub forks : ℕ

abbrev pub boot : Agent
boot = record { held = []; fleet = []; unmapped = []; killed = []; forks = 0 }

-- `mmap` of a size gives an address or fails, the `n`-th `fork` a process id or fails, and
-- `/proc/meminfo` has a figure.
pub record Os : Type 0 where
  pub mmap : Agent → ℕ → Option ℕ
  pub fork : ℕ → Option ℕ
  pub mem_available_kib : Agent → ℕ

module _ (os : Os) where
  -- The loop of `fleet start`.
  unfoldable pub start_services : ℕ → Agent → Result Agent
  start_services zero a = ok a
  start_services (suc k) a = elim (os.fork a.forks) [
    | none ↦ panicked "fork"
    | some pid ↦ start_services k (record a { fleet = a.fleet ++ pid ∷ []; forks = suc (a.forks) })
  ]

  -- `fleet.drain(..stop)` with its kills: out of range if the fleet is shorter.
  unfoldable pub stop_services : ℕ → Agent → Result Agent
  stop_services zero a = ok a
  stop_services (suc n) a = elim (a.fleet) [
    | [] ↦ panicked "range end index out of range"
    | pid ∷ rest ↦ stop_services n (record a { fleet = rest; killed = a.killed ++ pid ∷ [] })
  ]

  abbrev replying : (Agent → Reply) → Result Agent → Result (Reply × Agent)
  replying reply (ok a) = ok (reply a, a)
  replying reply (panicked what) = panicked what
  replying reply out_of_fuel = out_of_fuel

  unfoldable pub handle : Command → Agent → Result (Reply × Agent)
  handle (touch gib) a =
      let size = gib * 2 ^ 30 % 2 ^ 64 in
      elim (os.mmap a size) [
        | none ↦ panicked "guest mmap failed"
        | some p ↦ ok (touched gib, record a { held = a.held ++ (p, size) ∷ [] })
      ]
  handle free a = ok (freed, record a { held = []; unmapped = a.unmapped ++ a.held })
  handle mem a = ok (available (os.mem_available_kib a), a)
  handle (fleet_start k mib) a = replying (λ b. fleet_started (length b.fleet)) (start_services k a)
  handle fleet_stop_one a = replying (λ b. fleet_stopped (length b.fleet)) (stop_services 1 a)
  handle fleet_stop a =
      replying (λ b. fleet_stopped (length b.fleet)) (stop_services (length a.fleet) a)
  handle (unknown line) a = ok (err line, a)

  -- The loop over the lines, with the replies in order.
  unfoldable pub serve : List Command → Agent → Result (List Reply × Agent)
  serve [] a = ok ([], a)
  serve (c ∷ rest) a = elim (handle c a) [
    | ok (reply, b) ↦ elim (serve rest b) [
      | ok (replies, d) ↦ ok (reply ∷ replies, d)
      | panicked what ↦ panicked what
      | out_of_fuel ↦ out_of_fuel
    ]
    | panicked what ↦ panicked what
    | out_of_fuel ↦ out_of_fuel
  ]
