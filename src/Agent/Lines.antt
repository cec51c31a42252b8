-- ===== src/Agent/Lines.antt =====
-- The lines of guest-init/src/main.rs: how a command is read and how
-- a reply is written.
use macos_vm_memory_ratchet.Prelude.{ℕ, Option, none, some, if◌then◌else◌}
use mathlib.Core.List.{List}
use Prim.Native.String.{String, []}
use macos_vm_memory_ratchet.Options.Numbers.{parse_usize, print_usize}
use macos_vm_memory_ratchet.Wire.{strip_prefix, trim, split_whitespace, equals, prepend}
use macos_vm_memory_ratchet.Agent.{
  Command, touch, free, mem, fleet_start, fleet_stop_one, fleet_stop, unknown, Reply, touched,
  freed, available, fleet_started, fleet_stopped, err,
}

-- `parse().unwrap_or(0)`.
abbrev pub number : String → ℕ
number s = elim (parse_usize s) [ none ↦ 0 | some n ↦ n ]

-- `it.next().and_then(|v| v.parse().ok()).unwrap_or(0)`, and what the iterator still has.
abbrev pub next_number : List String → ℕ × List String
next_number List.[] = (0, List.[])
next_number (List.◌∷◌ word words) = (number word, words)

abbrev pub started : List String → Command
started words = let (k, rest) = next_number words in fleet_start k (next_number rest).0

-- The arms of the `if` on a line that is trimmed and not empty.
unfoldable pub command_of : String → Command
command_of line = elim (strip_prefix "touch " line) [
  | some n ↦ touch (number (trim n))
  | none ↦
      if equals line "free"
      then free
      else if equals line "mem"
      then mem
      else elim (strip_prefix "fleet start " line) [
        | some rest ↦ started (split_whitespace rest)
        | none ↦
            if equals line "fleet stop-one"
            then fleet_stop_one
            else if equals line "fleet stop"
            then fleet_stop
            else unknown line
      ]
]

-- A line that is blank is passed over.
unfoldable pub read_command : String → Option Command
unfolding command_of
read_command line =
    let line' = trim line in if equals line' [] then none else some (command_of line')

-- The reply without its `RATCHET `, and the line.
abbrev pub write_body : Reply → String
write_body (touched gib) = prepend "TOUCHED " (print_usize gib)
write_body freed = "FREED"
write_body (available kib) = prepend "MEM " (print_usize kib)
write_body (fleet_started n) = prepend "FLEET-STARTED " (print_usize n)
write_body (fleet_stopped n) = prepend "FLEET-STOPPED " (print_usize n)
write_body (err line) = prepend "ERR unknown command: " line

unfoldable pub write_reply : Reply → String
write_reply r = prepend "RATCHET " (write_body r)
