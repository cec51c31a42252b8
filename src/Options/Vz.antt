-- ===== src/Options/Vz.antt =====
-- `parse_args` of crates/vz-ratchet/src/main.rs, and the check of the fleet in its `main`.
use macos_vm_memory_ratchet.Prelude.{
  ℕ, ◌*◌, ◌%◌, ◌^◌, ◌<◌, ◌≡◌, ◌⊎◌, inl, inr, ap, ◌∙◌, sym, arith, Bool, true, false, not, ◌&&◌,
  ◌||◌, List, [], ◌∷◌, ltb, if◌then◌else◌, Option, none, some, Option-cases, Result, ok, panicked,
  out_of_fuel, Result-cases,
}
use mathlib.Core.Path.{subst}
use Prim.Native.String.{String}
use text.Mathlib.Text.{◌==◌ as str_eq}
use macos_vm_memory_ratchet.Options.Numbers.{parse_usize, parse_usize-lt}

pub record VzOptions : Type 0 where
  pub harness : String
  pub kernel : String
  pub initramfs : String
  pub guest_gb : ℕ
  pub touch_gb : ℕ
  pub pressure_gb : ℕ
  pub verbose : Bool
  pub fleet : Bool
  pub services : ℕ
  pub service_mib : ℕ

abbrev pub defaults : VzOptions
defaults = record {
  harness = "";
  kernel = "";
  initramfs = "";
  guest_gb = 6;
  touch_gb = 4;
  pressure_gb = 0;
  verbose = false;
  fleet = false;
  services = 8;
  service_mib = 256;
}

pub data Setting : Type 0 where
  harness kernel initramfs guest_gb touch_gb pressure_gb services service_mib : Setting

pub data Argument : Type 0 where
  verbose fleet : Argument
  setting : Setting → Argument

-- The arms of the `match` on an argument.
unfoldable pub argument : String → Option Argument
argument arg =
    if str_eq arg "--harness"
    then some (setting Setting.harness)
    else if str_eq arg "--kernel"
    then some (setting Setting.kernel)
    else if str_eq arg "--initramfs"
    then some (setting Setting.initramfs)
    else if str_eq arg "--guest-gb"
    then some (setting Setting.guest_gb)
    else if str_eq arg "--touch-gb"
    then some (setting Setting.touch_gb)
    else if str_eq arg "--pressure-gb"
    then some (setting Setting.pressure_gb)
    else if str_eq arg "--verbose"
    then some Argument.verbose
    else if str_eq arg "--fleet"
    then some Argument.fleet
    else if str_eq arg "--services"
    then some (setting Setting.services)
    else if str_eq arg "--service-mib"
    then some (setting Setting.service_mib)
    else none

abbrev number : String → (ℕ → Result VzOptions) → Result VzOptions
number value f = elim (parse_usize value) [ none ↦ panicked "integer" | some n ↦ f n ]

unfoldable pub assign : Setting → String → VzOptions → Result VzOptions
assign Setting.harness value o = ok (record o { harness = value })
assign Setting.kernel value o = ok (record o { kernel = value })
assign Setting.initramfs value o = ok (record o { initramfs = value })
assign Setting.guest_gb value o = number value λ n. ok (record o { guest_gb = n })
assign Setting.touch_gb value o = number value λ n. ok (record o { touch_gb = n })
assign Setting.pressure_gb value o = number value λ n. ok (record o { pressure_gb = n })
assign Setting.services value o = number value λ n. ok (record o { services = n })
assign Setting.service_mib value o = number value λ n. ok (record o { service_mib = n })

-- The loop over the arguments; between a setting and its value it keeps the setting.
unfoldable pub parse_loop : Option Setting → List String → VzOptions → Result VzOptions
parse_loop none [] o = ok o
parse_loop (some s) [] o = panicked "<value>"
parse_loop none (arg ∷ rest) o = elim (argument arg) [
  | none ↦ panicked "unknown argument"
  | some Argument.verbose ↦ parse_loop none rest (record o { verbose = true })
  | some Argument.fleet ↦ parse_loop none rest (record o { fleet = true })
  | some (setting s) ↦ parse_loop (some s) rest o
]
parse_loop (some s) (value ∷ rest) o = elim (assign s value o) [
  | ok p ↦ parse_loop none rest p
  | panicked what ↦ panicked what
  | out_of_fuel ↦ out_of_fuel
]

abbrev pub is_empty : String → Bool
is_empty s = str_eq s ""

unfoldable pub validate : VzOptions → Result VzOptions
validate o =
    if not (not (is_empty o.harness) && not (is_empty o.kernel) && not (is_empty o.initramfs))
    then panicked "--harness/--kernel/--initramfs are required"
    else if not (o.fleet || ltb o.touch_gb o.guest_gb)
    then panicked "--touch-gb must leave the guest room to run"
    else ok o

unfoldable pub parse_args : List String → Result VzOptions
parse_args args = elim (parse_loop none args defaults) [
  | ok o ↦ validate o
  | panicked what ↦ panicked what
  | out_of_fuel ↦ out_of_fuel
]

-- The fleet's check in `main`, with the wrap-around of both products.
unfoldable pub fleet_fits : VzOptions → Bool
fleet_fits o = ltb (o.services * o.service_mib % 2 ^ 64) (o.guest_gb * 1024 % 2 ^ 64)

validate-eq : (o p : VzOptions) → validate o ≡ ok p → p ≡ o
unfolding validate
validate-eq o p h = ground arith

abbrev pub IsReady : VzOptions → Type 0
IsReady o =
    (is_empty o.harness ≡ false)
    × (is_empty o.kernel ≡ false)
    × (is_empty o.initramfs ≡ false)
    × ((o.fleet ≡ true) ⊎ (o.touch_gb < o.guest_gb))

validate-IsReady : (o : VzOptions) → validate o ≡ ok o → IsReady o
unfolding validate
validate-IsReady o h = ground arith

-- No number that was read is beyond `usize`.
abbrev pub IsBounded : VzOptions → Type 0
IsBounded o =
    (o.guest_gb < 2 ^ 64)
    × (o.touch_gb < 2 ^ 64)
    × (o.pressure_gb < 2 ^ 64)
    × (o.services < 2 ^ 64)
    × (o.service_mib < 2 ^ 64)

number-IsBounded :
    (value : String) (f : ℕ → Result VzOptions) (p : VzOptions)
    → ((n : ℕ) → n < 2 ^ 64 → f n ≡ ok p → IsBounded p)
    → number value f ≡ ok p
    → IsBounded p
number-IsBounded value f p each h = elim (Option-cases (parse_usize value)) [
  | inl bad ↦ absurd (ground arith)
  | inr (n, good) ↦ each n (parse_usize-lt value n good) (ground arith)
]

assign-IsBounded :
    (s : Setting) (value : String) (o p : VzOptions)
    → IsBounded o
    → assign s value o ≡ ok p
    → IsBounded p
unfolding assign
assign-IsBounded Setting.harness value o p b h = ground arith
assign-IsBounded Setting.kernel value o p b h = ground arith
assign-IsBounded Setting.initramfs value o p b h = ground arith
assign-IsBounded Setting.guest_gb value o p b h =
    number-IsBounded value _ p (λ n lt e. ground arith) h
assign-IsBounded Setting.touch_gb value o p b h =
    number-IsBounded value _ p (λ n lt e. ground arith) h
assign-IsBounded Setting.pressure_gb value o p b h =
    number-IsBounded value _ p (λ n lt e. ground arith) h
assign-IsBounded Setting.services value o p b h =
    number-IsBounded value _ p (λ n lt e. ground arith) h
assign-IsBounded Setting.service_mib value o p b h =
    number-IsBounded value _ p (λ n lt e. ground arith) h

parse_loop-IsBounded :
    (pending : Option Setting) (args : List String) (o p : VzOptions)
    → IsBounded o
    → parse_loop pending args o ≡ ok p
    → IsBounded p
unfolding parse_loop
parse_loop-IsBounded none [] o p b h = ground arith
parse_loop-IsBounded (some s) [] o p b h = absurd (ground arith)
parse_loop-IsBounded none (arg ∷ rest) o p b h = elim (Option-cases (argument arg)) [
  | inl bad ↦ absurd (ground arith)
  | inr (Argument.verbose, e) ↦
      parse_loop-IsBounded none rest (record o { verbose = true }) p b (ground arith)
  | inr (Argument.fleet, e) ↦
      parse_loop-IsBounded none rest (record o { fleet = true }) p b (ground arith)
  | inr (setting s, e) ↦ parse_loop-IsBounded (some s) rest o p b (ground arith)
]
parse_loop-IsBounded (some s) (value ∷ rest) o p b h = elim (Result-cases (assign s value o)) [
  | inl (q, e) ↦
      parse_loop-IsBounded none rest q p (assign-IsBounded s value o q b e) (ground arith)
  | inr (inl (what, e)) ↦ absurd (ground arith)
  | inr (inr e) ↦ absurd (ground arith)
]

-- `parse_args` of vz-ratchet returns only options that name the harness, the kernel and the
-- initramfs, whose numbers are in range, and that leave the guest room to run unless a fleet is asked
-- for.
pub parse_args-IsReady :
    (args : List String) (o : VzOptions) → parse_args args ≡ ok o → IsBounded o × IsReady o
unfolding parse_args
parse_args-IsReady args o h = elim (Result-cases (parse_loop none args defaults)) [
  | inl (p, e) ↦
      let kept : validate p ≡ ok o = ground arith in
      let same : o ≡ p = validate-eq p o kept in
      let bounded : IsBounded p = parse_loop-IsBounded none args defaults p (omega arith) e in
      (
        subst IsBounded (sym same) bounded,
        subst IsReady (sym same) (validate-IsReady p (kept ∙ ap ok same)),
      )
  | inr (inl (what, e)) ↦ absurd (ground arith)
  | inr (inr e) ↦ absurd (ground arith)
]
