-- ===== src/Agent/Requests.antt =====
-- The lines that crates/vz-ratchet/src (main.rs, fleet.rs and harness.rs) sends to the agent of
-- guest-init/src/main.rs, through the harness.
use macos_vm_memory_ratchet.Prelude.{
  ℕ, ◌<◌, ◌^◌, ◌≡◌, refl, ap, sym, ◌∙◌, arith, true, false, Option, some,
}
use mathlib.Core.List.{List}
use mathlib.Core.Path.{subst}
use Prim.Native.String.{String, [], ◌∷◌}
use macos_vm_memory_ratchet.Options.Numbers.{
  parse_usize, parse_unsigned, parse_digits, print_usize, parse_usize-print_usize,
}
use macos_vm_memory_ratchet.Wire.{
  strip_prefix, trim_start, trim_end, trim, split_whitespace, equals, prepend, is_word,
  is_whitespace,
}
use macos_vm_memory_ratchet.Wire.Trim.{
  trim_end_word, trim_end-prepend, trim_word, print_usize-is_word, print_usize-head, split_word,
  split-prepend,
}
use macos_vm_memory_ratchet.Agent.{Command}
use macos_vm_memory_ratchet.Agent.Lines.{number, started, command_of, read_command}

pub data Request : Type 0 where
  touch : ℕ → Request
  free mem fleet_stop_one : Request
  fleet_start_one : ℕ → Request

-- The line as `send` puts it.
unfoldable pub write_request : Request → String
write_request (touch gib) = prepend "guest touch " (print_usize gib)
write_request free = "guest free"
write_request mem = "guest mem"
write_request fleet_stop_one = "guest fleet stop-one"
write_request (fleet_start_one mib) = prepend "guest fleet start 1 " (print_usize mib)

-- What the harness passes on to the guest: the line behind `guest `.
unfoldable pub forwarded : String → Option String
forwarded line = strip_prefix "guest " line

abbrev pub meant : Request → Command
meant (touch gib) = Command.touch gib
meant free = Command.free
meant mem = Command.mem
meant fleet_stop_one = Command.fleet_stop_one
meant (fleet_start_one mib) = Command.fleet_start 1 mib

-- Every number that it carries is a `usize`.
abbrev pub IsSmall : Request → Type 0
IsSmall (touch gib) = gib < 2 ^ 64
IsSmall free = Unit {0}
IsSmall mem = Unit {0}
IsSmall fleet_stop_one = Unit {0}
IsSmall (fleet_start_one mib) = mib < 2 ^ 64

-- A line that is trimmed already, and not empty.
read-eq :
    (line : String) (c : Command)
    → trim line ≡ line
    → equals line [] ≡ false
    → command_of line ≡ c
    → read_command line ≡ some c
unfolding read_command
read-eq line c kept full e = rw (kept, full) (ap some e)

number-print_usize : (n : ℕ) → n < 2 ^ 64 → number (print_usize n) ≡ n
number-print_usize n lt = ground (arith, parse_usize-print_usize n lt)

-- A line that ends in a printed number is not trimmed there.
trim_end-number :
    (prefix : String) (n : ℕ)
    → trim_end (prepend prefix (print_usize n)) ≡ prepend prefix (print_usize n)
trim_end-number prefix n =
    let (d, (more, e)) = print_usize-head n in
    ap (λ s. trim_end (prepend prefix s)) e
    ∙ (trim_end-prepend prefix d more
          (trim_end_word (d ∷ more) (subst (λ s. is_word s ≡ true) e (print_usize-is_word n)))
        ∙ ap (prepend prefix) (sym e))

split-number : (n : ℕ) → split_whitespace (print_usize n) ≡ List.◌∷◌ (print_usize n) List.[]
split-number n =
    let (d, (more, e)) = print_usize-head n in
    subst (λ s. split_whitespace s ≡ List.◌∷◌ s List.[]) (sym e)
      (split_word d more (subst (λ s. is_word s ≡ true) e (print_usize-is_word n)))

trim-touch : (n : ℕ) → trim (prepend "touch " (print_usize n)) ≡ prepend "touch " (print_usize n)
unfolding trim trim_start is_whitespace
trim-touch n = trim_end-number "touch " n

trim-start_one :
    (n : ℕ)
    → trim (prepend "fleet start 1 " (print_usize n)) ≡ prepend "fleet start 1 " (print_usize n)
unfolding trim trim_start is_whitespace
trim-start_one n = trim_end-number "fleet start 1 " n

command_of-touch :
    (n : ℕ) → n < 2 ^ 64 → command_of (prepend "touch " (print_usize n)) ≡ Command.touch n
unfolding command_of strip_prefix
command_of-touch n lt =
    ap (λ s. Command.touch (number s)) (trim_word (print_usize n) (print_usize-is_word n))
    ∙ ap Command.touch (number-print_usize n lt)

one-split : (s : String) → split_whitespace (prepend "1 " s) ≡ List.◌∷◌ "1" (split_whitespace s)
unfolding is_whitespace
one-split s = split-prepend "1" [] s refl

command_of-start_one :
    (n : ℕ)
    → n < 2 ^ 64
    → command_of (prepend "fleet start 1 " (print_usize n)) ≡ Command.fleet_start 1 n
unfolding command_of strip_prefix parse_usize parse_unsigned parse_digits
command_of-start_one n lt =
    ap started (one-split (print_usize n) ∙ ap (List.◌∷◌ "1") (split-number n))
    ∙ ap (Command.fleet_start 1) (number-print_usize n lt)

-- What vz-ratchet sends to the guest, with numbers that are `usize`, is passed on by the harness and
-- read by the agent as the command that is meant.
pub read_command-write_request :
    (r : Request)
    → IsSmall r
    → (line : String) × (forwarded (write_request r) ≡ some line)
      × (read_command line ≡ some (meant r))
unfolding write_request forwarded strip_prefix read_command trim is_whitespace
read_command-write_request (touch gib) lt = (
  prepend "touch " (print_usize gib),
  refl,
  read-eq _ _ (trim-touch gib) refl (command_of-touch gib lt),
)
read_command-write_request free lt = ("free", refl, refl)
read_command-write_request mem lt = ("mem", refl, refl)
read_command-write_request fleet_stop_one lt = ("fleet stop-one", refl, refl)
read_command-write_request (fleet_start_one mib) lt = (
  prepend "fleet start 1 " (print_usize mib),
  refl,
  read-eq _ _ (trim-start_one mib) refl (command_of-start_one mib lt),
)
