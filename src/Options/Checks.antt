-- ===== src/Options/Checks.antt =====
-- What `parse_args` of crates/hv-reclaim/src/main.rs accepts.
use macos_vm_memory_ratchet.Prelude.{
  ℕ, ◌^◌, ◌≤◌, ◌<◌, ◌≡◌, sym, ◌∙◌, ◌↔◌, arith, true, false, List, [], ◌∷◌, Option, none, some, inl,
  inr, ap, Option-cases, Result-cases, Result, ok, panicked, out_of_fuel,
}
use mathlib.Core.Path.{subst}
use Prim.Native.String.{String}
use macos_vm_memory_ratchet.Reclaim.{reusable}
use macos_vm_memory_ratchet.Options.Numbers.{parse_usize, parse_usize-lt}
use macos_vm_memory_ratchet.Options.{
  Options, Switch, Setting, defaults, turn_on, number, assign, switch, setting, argument,
  parse_loop, exclusive, validate, parse_args,
}

-- No two options that exclude each other.
pub record IsConsistent (o : Options) : Type 0 where
  pub hammer_alone :
      o.hammer ≡ true → (o.host_touch ≡ false) × (o.naive ≡ false) × (o.pressure_check ≡ false)
  pub repeats_plain : 2 ≤ o.repeat → (o.pressure_check ≡ false) × (o.hammer ≡ false)
  pub one_mode : exclusive o ≤ 1
  pub modes_plain :
      exclusive o ≡ 1
      → (o.naive ≡ false) × (o.host_touch ≡ false) × (o.pressure_check ≡ false) × (o.hammer ≡ false)
  pub timing_only :
      exclusive o ≡ 0 → (o.extent_kb ≡ 0) × (o.steady_state ≡ false) × (o.reclaim_mode ≡ reusable)

validate-eq : (o p : Options) → validate o ≡ ok p → p ≡ o
unfolding validate
validate-eq o p h = ground arith

validate-IsConsistent : (o : Options) → validate o ≡ ok o → IsConsistent o
unfolding validate
validate-IsConsistent o h = record {
  hammer_alone = ground arith;
  repeats_plain = ground arith;
  one_mode = ground arith;
  modes_plain = ground arith;
  timing_only = ground arith;
}

validate-ne-out_of_fuel : (o : Options) → ¬ (validate o ≡ out_of_fuel)
unfolding validate
validate-ne-out_of_fuel o h = ground arith

IsConsistent-validate : (o : Options) → IsConsistent o → validate o ≡ ok o
unfolding validate
IsConsistent-validate o c = ground arith

-- What the checks of single options keep.
abbrev pub IsBounded : Options → Type 0
IsBounded o =
    ((1 ≤ o.repeat) × (o.repeat < 2 ^ 64))
    × ((1 ≤ o.vcpus) × (o.vcpus < 2 ^ 64))
    × ((o.size_gb < 2 ^ 64) × (o.pressure_gb < 2 ^ 64) × (o.extent_kb < 2 ^ 64))
    × ((o.services < 2 ^ 64) × (o.service_mib < 2 ^ 64))
    × (o.soak_minutes < 2 ^ 64)

turn_on-IsBounded : (s : Switch) (o : Options) → IsBounded o → IsBounded (turn_on s o)
turn_on-IsBounded Switch.naive o b = b
turn_on-IsBounded Switch.host_touch o b = b
turn_on-IsBounded Switch.guest_read o b = b
turn_on-IsBounded Switch.pressure_check o b = b
turn_on-IsBounded Switch.hammer o b = b
turn_on-IsBounded Switch.time_reclaim o b = b
turn_on-IsBounded Switch.steady_state o b = b
turn_on-IsBounded Switch.fleet_sim o b = b
turn_on-IsBounded Switch.alloc_shape o b = b
turn_on-IsBounded Switch.soak o b = b

number-IsBounded :
    (value : String) (f : ℕ → Result Options) (p : Options)
    → ((n : ℕ) → n < 2 ^ 64 → f n ≡ ok p → IsBounded p)
    → number value f ≡ ok p
    → IsBounded p
number-IsBounded value f p each h = elim (Option-cases (parse_usize value)) [
  | inl bad ↦ absurd (ground arith)
  | inr (n, good) ↦ each n (parse_usize-lt value n good) (ground arith)
]

assign-IsBounded :
    (s : Setting) (value : String) (o p : Options)
    → IsBounded o
    → assign s value o ≡ ok p
    → IsBounded p
unfolding assign
assign-IsBounded Setting.advice value o p b h = ground arith
assign-IsBounded Setting.size_gb value o p b h =
    number-IsBounded value _ p (λ n lt e. ground arith) h
assign-IsBounded Setting.pressure_gb value o p b h =
    number-IsBounded value _ p (λ n lt e. ground arith) h
assign-IsBounded Setting.repeat value o p b h =
    number-IsBounded value _ p (λ n lt e. ground arith) h
assign-IsBounded Setting.extent_kb value o p b h =
    number-IsBounded value _ p (λ n lt e. ground arith) h
assign-IsBounded Setting.reclaim_mode value o p b h = ground arith
assign-IsBounded Setting.soak_minutes value o p b h =
    number-IsBounded value _ p (λ n lt e. ground arith) h
assign-IsBounded Setting.vcpus value o p b h = number-IsBounded value _ p (λ n lt e. ground arith) h
assign-IsBounded Setting.services value o p b h =
    number-IsBounded value _ p (λ n lt e. ground arith) h
assign-IsBounded Setting.service_mib value o p b h =
    number-IsBounded value _ p (λ n lt e. ground arith) h

parse_loop-IsBounded :
    (pending : Option Setting) (args : List String) (o p : Options)
    → IsBounded o
    → parse_loop pending args o ≡ ok p
    → IsBounded p
unfolding parse_loop
parse_loop-IsBounded none [] o p b h = ground arith
parse_loop-IsBounded (some s) [] o p b h = absurd (ground arith)
parse_loop-IsBounded none (arg ∷ rest) o p b h = elim (Option-cases (argument arg)) [
  | inl bad ↦ absurd (ground arith)
  | inr (switch s, e) ↦
      parse_loop-IsBounded none rest (turn_on s o) p (turn_on-IsBounded s o b) (ground arith)
  | inr (setting s, e) ↦ parse_loop-IsBounded (some s) rest o p b (ground arith)
]
parse_loop-IsBounded (some s) (value ∷ rest) o p b h = elim (Result-cases (assign s value o)) [
  | inl (q, e) ↦
      parse_loop-IsBounded none rest q p (assign-IsBounded s value o q b e) (ground arith)
  | inr (inl (what, e)) ↦ absurd (ground arith)
  | inr (inr e) ↦ absurd (ground arith)
]

-- `parse_args` returns options exactly if the loop over the arguments comes to them and no two of
-- them exclude each other, and then they are in the range of their types, with a repeat and a vCPU
-- count of one at least.
pub parse_args_lem :
    (args : List String) (o : Options)
    → (parse_args args ≡ ok o)
      ↔ ((parse_loop none args defaults ≡ ok o) × IsBounded o × IsConsistent o)
unfolding parse_args
parse_args_lem args o = elim (Result-cases (parse_loop none args defaults)) [
  | inl (p, e) ↦ (
    λ h.
        let kept : validate p ≡ ok o = ground arith in
        let same : o ≡ p = validate-eq p o kept in
        let bounded : IsBounded p = parse_loop-IsBounded none args defaults p (omega arith) e in
        (
          e ∙ ap ok (sym same),
          subst IsBounded (sym same) bounded,
          subst IsConsistent (sym same) (validate-IsConsistent p (kept ∙ ap ok same)),
        ),
    λ (looped, bounded, consistent). rw (looped, parse_args) (IsConsistent-validate o consistent),
  )
  | inr (inl (what, e)) ↦ (λ h. absurd (ground arith), λ h. absurd (cc (h.0, e)))
  | inr (inr e) ↦ (λ h. absurd (ground arith), λ h. absurd (cc (h.0, e)))
]

-- The checks return just the options of which no two exclude each other, and panic on all others.
pub validate_lem :
    (o : Options)
    → ((validate o ≡ ok o) ↔ IsConsistent o)
      × (((what : String) × (validate o ≡ panicked what)) ↔ (¬ IsConsistent o))
validate_lem o = (
  (validate-IsConsistent o, IsConsistent-validate o),
  (
    λ (what, e). λ c. absurd (ok-ne-panicked (sym (IsConsistent-validate o c) ∙ e)),
    λ bad. elim (Result-cases (validate o)) [
      | inl (p, e) ↦ absurd (bad (validate-IsConsistent o (e ∙ ap ok (validate-eq o p e))))
      | inr (inl r) ↦ r
      | inr (inr e) ↦ absurd (validate-ne-out_of_fuel o e)
    ],
  ),
)
  where
    ok-ne-panicked : {what : String} → ok o ≡ panicked what → ⊥
    ok-ne-panicked e = cc
