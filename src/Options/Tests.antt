-- ===== src/Options/Tests.antt =====
-- The theorems about the command lines of crates/hv-reclaim and crates/vz-ratchet at concrete ones.
use macos_vm_memory_ratchet.Prelude.{
  ◌≡◌, ◌↔◌, refl, arith, true, List, [], ◌∷◌, none, some, ok, panicked,
}
use Prim.Native.String.{String}
use macos_vm_memory_ratchet.Reclaim.{unmapping}
use macos_vm_memory_ratchet.Options.Numbers.{
  parse_usize, parse_unsigned, parse_digits, print_usize, parse_usize-print_usize,
}
use macos_vm_memory_ratchet.Options.{
  Options, defaults, assign, argument, parse_loop, validate, parse_args,
}
use macos_vm_memory_ratchet.Options.Checks.{IsConsistent, IsBounded, parse_args_lem}
use macos_vm_memory_ratchet.Options.Vz
use macos_vm_memory_ratchet.Options.Vz.{VzOptions, IsReady, parse_args-IsReady}

parse_usize-print_usize_example : parse_usize (print_usize 65536) ≡ some 65536
parse_usize-print_usize_example = parse_usize-print_usize 65536 (omega arith)

abbrev soak_line : List String
soak_line = "--soak" ∷ ("--vcpus" ∷ ("6" ∷ ("--reclaim-mode" ∷ ("munmap" ∷ []))))

abbrev soak_options : Options
soak_options = record defaults { soak = true; vcpus = 6; reclaim_mode = unmapping }

soak_line_lem : parse_args soak_line ≡ ok soak_options
unfolding parse_args parse_loop argument assign validate parse_usize parse_unsigned parse_digits
soak_line_lem = refl

parse_args_example : (parse_args soak_line ≡ ok soak_options) ↔ (
    (parse_loop none soak_line defaults ≡ ok soak_options)
    × IsBounded soak_options
    × IsConsistent soak_options)
parse_args_example = parse_args_lem soak_line soak_options

-- A hammer run excludes the trap.
trap_line_lem :
    parse_args ("--hammer" ∷ ("--naive" ∷ []))
    ≡ panicked "--hammer probes the post-reclaim guest state"
unfolding parse_args parse_loop argument assign validate
trap_line_lem = refl

abbrev vz_line : List String
vz_line =
    "--harness"
    ∷ ("h" ∷ ("--kernel" ∷ ("k" ∷ ("--initramfs" ∷ ("i" ∷ ("--touch-gb" ∷ ("5" ∷ [])))))))

abbrev vz_options : VzOptions
vz_options = record (Vz.defaults) { harness = "h"; kernel = "k"; initramfs = "i"; touch_gb = 5 }

vz_line_lem : Vz.parse_args vz_line ≡ ok vz_options
unfolding Vz.parse_args Vz.parse_loop Vz.argument Vz.assign Vz.validate parse_usize parse_unsigned
    parse_digits
vz_line_lem = refl

parse_args-IsReady_example : Vz.IsBounded vz_options × IsReady vz_options
parse_args-IsReady_example = parse_args-IsReady vz_line vz_options vz_line_lem
