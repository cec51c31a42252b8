-- ===== src/Options.antt =====
-- The command lines: `parse_args` of crates/hv-reclaim/src/main.rs (child Checks for what it accepts)
-- and of crates/vz-ratchet/src/main.rs (child Vz). Numbers are read by `str::parse::<usize>` (child
-- Numbers).
pub mod Numbers
pub mod Vz
pub mod Checks
pub mod Tests
use macos_vm_memory_ratchet.Prelude.{
  ℕ, zero, suc, ◌+◌, ◌-◌, ◌*◌, ◌%◌, ◌^◌, Bool, true, false, not, ◌&&◌, ◌||◌, List, [], ◌∷◌, ◌==◌,
  leb, if◌then◌else◌, Option, none, some, Result, ok, panicked, out_of_fuel,
}
use Prim.Native.String.{String}
use text.Mathlib.Text.{◌==◌ as str_eq}
use macos_vm_memory_ratchet.Reclaim.{ReclaimMode, reusable, unmapping}
use macos_vm_memory_ratchet.Options.Numbers.{parse_usize}

-- The pair of `advice` and `advice_name`.
pub data Advice : Type 0 where
  madv_free_reusable madv_free madv_dontneed : Advice

pub record Options : Type 0 where
  pub advice : Advice
  pub size_gb : ℕ
  pub naive : Bool
  pub host_touch : Bool
  pub guest_read : Bool
  pub pressure_check : Bool
  pub hammer : Bool
  pub pressure_gb : ℕ
  pub repeat : ℕ
  pub time_reclaim : Bool
  pub extent_kb : ℕ
  pub reclaim_mode : ReclaimMode
  pub steady_state : Bool
  pub fleet_sim : Bool
  pub services : ℕ
  pub service_mib : ℕ
  pub alloc_shape : Bool
  pub soak : Bool
  pub soak_minutes : ℕ
  pub vcpus : ℕ

abbrev pub defaults : Options
defaults = record {
  advice = madv_free_reusable;
  size_gb = 3;
  naive = false;
  host_touch = false;
  guest_read = false;
  pressure_check = false;
  hammer = false;
  pressure_gb = 48;
  repeat = 1;
  time_reclaim = false;
  extent_kb = 0;
  reclaim_mode = reusable;
  steady_state = false;
  fleet_sim = false;
  services = 8;
  service_mib = 256;
  alloc_shape = false;
  soak = false;
  soak_minutes = 60;
  vcpus = 4;
}

-- The arguments that stand alone, and those that are followed by a value.
pub data Switch : Type 0 where
  naive host_touch guest_read pressure_check hammer time_reclaim steady_state : Switch
  fleet_sim alloc_shape soak : Switch

pub data Setting : Type 0 where
  advice size_gb pressure_gb repeat extent_kb reclaim_mode soak_minutes vcpus : Setting
  services service_mib : Setting

pub data Argument : Type 0 where
  switch : Switch → Argument
  setting : Setting → Argument

-- The arms of the `match` on an argument.
unfoldable pub argument : String → Option Argument
argument arg =
    if str_eq arg "--advice"
    then some (setting Setting.advice)
    else if str_eq arg "--size-gb"
    then some (setting Setting.size_gb)
    else if str_eq arg "--naive"
    then some (switch Switch.naive)
    else if str_eq arg "--host-touch"
    then some (switch Switch.host_touch)
    else if str_eq arg "--guest-read"
    then some (switch Switch.guest_read)
    else if str_eq arg "--pressure-check"
    then some (switch Switch.pressure_check)
    else if str_eq arg "--hammer"
    then some (switch Switch.hammer)
    else if str_eq arg "--pressure-gb"
    then some (setting Setting.pressure_gb)
    else if str_eq arg "--repeat"
    then some (setting Setting.repeat)
    else if str_eq arg "--time-reclaim"
    then some (switch Switch.time_reclaim)
    else if str_eq arg "--extent-kb"
    then some (setting Setting.extent_kb)
    else if str_eq arg "--reclaim-mode"
    then some (setting Setting.reclaim_mode)
    else if str_eq arg "--steady-state"
    then some (switch Switch.steady_state)
    else if str_eq arg "--fleet-sim"
    then some (switch Switch.fleet_sim)
    else if str_eq arg "--alloc-shape"
    then some (switch Switch.alloc_shape)
    else if str_eq arg "--soak"
    then some (switch Switch.soak)
    else if str_eq arg "--soak-minutes"
    then some (setting Setting.soak_minutes)
    else if str_eq arg "--vcpus"
    then some (setting Setting.vcpus)
    else if str_eq arg "--services"
    then some (setting Setting.services)
    else if str_eq arg "--service-mib"
    then some (setting Setting.service_mib)
    else none

abbrev pub turn_on : Switch → Options → Options
turn_on Switch.naive o = record o { naive = true }
turn_on Switch.host_touch o = record o { host_touch = true }
turn_on Switch.guest_read o = record o { guest_read = true }
turn_on Switch.pressure_check o = record o { pressure_check = true }
turn_on Switch.hammer o = record o { hammer = true }
turn_on Switch.time_reclaim o = record o { time_reclaim = true }
turn_on Switch.steady_state o = record o { steady_state = true }
turn_on Switch.fleet_sim o = record o { fleet_sim = true }
turn_on Switch.alloc_shape o = record o { alloc_shape = true }
turn_on Switch.soak o = record o { soak = true }

-- `value.parse().expect(…)` and what is done with the number.
abbrev pub number : String → (ℕ → Result Options) → Result Options
number value f = elim (parse_usize value) [ none ↦ panicked "integer" | some n ↦ f n ]

abbrev at_least_one : ℕ → Options → Result Options
at_least_one n o = if leb 1 n then ok o else panicked "must be >= 1"

unfoldable pub assign : Setting → String → Options → Result Options
assign Setting.advice value o =
    if str_eq value "reusable"
    then ok (record o { advice = madv_free_reusable })
    else if str_eq value "free"
    then ok (record o { advice = madv_free })
    else if str_eq value "dontneed"
    then ok (record o { advice = madv_dontneed })
    else panicked "unknown advice"
assign Setting.reclaim_mode value o =
    if str_eq value "reusable"
    then ok (record o { reclaim_mode = reusable })
    else if str_eq value "munmap"
    then ok (record o { reclaim_mode = unmapping })
    else panicked "unknown reclaim mode"
assign Setting.size_gb value o = number value λ n. ok (record o { size_gb = n })
assign Setting.pressure_gb value o = number value λ n. ok (record o { pressure_gb = n })
assign Setting.repeat value o = number value λ n. at_least_one n (record o { repeat = n })
assign Setting.extent_kb value o = number value λ n. ok (record o { extent_kb = n })
assign Setting.soak_minutes value o = number value λ n. ok (record o { soak_minutes = n })
assign Setting.vcpus value o = number value λ n. at_least_one n (record o { vcpus = n })
assign Setting.services value o = number value λ n. ok (record o { services = n })
assign Setting.service_mib value o = number value λ n. ok (record o { service_mib = n })

-- The loop over the arguments; between a setting and its value it keeps the setting.
unfoldable pub parse_loop : Option Setting → List String → Options → Result Options
parse_loop none [] o = ok o
parse_loop (some s) [] o = panicked "a value is missing"
parse_loop none (arg ∷ rest) o = elim (argument arg) [
  | none ↦ panicked "unknown argument"
  | some (switch s) ↦ parse_loop none rest (turn_on s o)
  | some (setting s) ↦ parse_loop (some s) rest o
]
parse_loop (some s) (value ∷ rest) o = elim (assign s value o) [
  | ok p ↦ parse_loop none rest p
  | panicked what ↦ panicked what
  | out_of_fuel ↦ out_of_fuel
]

abbrev pub from_bool : Bool → ℕ
from_bool b = if b then 1 else 0

abbrev pub is_reusable : ReclaimMode → Bool
is_reusable reusable = true
is_reusable unmapping = false

abbrev pub exclusive : Options → ℕ
exclusive o =
    from_bool o.time_reclaim + from_bool o.fleet_sim + from_bool o.soak + from_bool o.alloc_shape

-- The assertions after the loop, in their order.
unfoldable pub validate : Options → Result Options
validate o =
    if o.hammer && not (not o.host_touch && not o.naive && not o.pressure_check)
    then panicked "--hammer probes the post-reclaim guest state"
    else if leb 2 o.repeat && not (not o.pressure_check && not o.hammer)
    then panicked "--repeat measures the plain reclaim cycle"
    else if leb 1 (exclusive o)
    then if not (exclusive o == 1)
      then panicked "--time-reclaim, --fleet-sim, --soak and --alloc-shape are separate modes"
      else if not (not o.naive && not o.host_touch && not o.pressure_check && not o.hammer)
      then panicked "they exclude --naive, --host-touch and the short safety probes"
      else ok o
    else if not (o.extent_kb == 0 && not o.steady_state && is_reusable o.reclaim_mode)
    then panicked
        "--extent-kb, --steady-state and --reclaim-mode only apply to --time-reclaim and --soak"
    else ok o

unfoldable pub parse_args : List String → Result Options
parse_args args = elim (parse_loop none args defaults) [
  | ok o ↦ validate o
  | panicked what ↦ panicked what
  | out_of_fuel ↦ out_of_fuel
]
