-- ===== src/Soak/Crew/Frame.antt =====
-- The slots of crates/hv-reclaim/src/soak.rs have no word in common, so what a worker expects of its
-- halves holds whatever is done outside its slot.
use macos_vm_memory_ratchet.Prelude.{
  ℕ, suc, ◌+◌, ◌*◌, ◌≤◌, ◌<◌, ◌≡◌, ◌≢◌, ◌∙◌, arith, true, false, inl, inr, ltb, Bool-cases,
}
use native.Mathlib.Nat.{mul-le-mul_right}
use macos_vm_memory_ratchet.Soak.Crew.{Crew, Thread, enter}
use macos_vm_memory_ratchet.Soak.Crew.Acts.{in_slot, IsDue}

module _ (slot half : ℕ) (fits : 2 * half ≤ slot) where
  before : (j k q : ℕ) → j < k → in_slot slot half j q ≡ true → in_slot slot half k q ≡ false
  before j k q lt h =
      let next : suc j * slot ≤ k * slot = mul-le-mul_right slot lt in
      let step : suc j * slot ≡ slot + j * slot = grind arith in ground (arith, h)

  behind : (j k q : ℕ) → k < j → in_slot slot half j q ≡ true → in_slot slot half k q ≡ false
  behind j k q lt h =
      let next : suc k * slot ≤ j * slot = mul-le-mul_right slot lt in
      let step : suc k * slot ≡ slot + k * slot = grind arith in ground (arith, h)

  pub in_slot-apart :
      (j k q : ℕ) → j ≢ k → in_slot slot half j q ≡ true → in_slot slot half k q ≡ false
  in_slot-apart j k q ne h = elim (Bool-cases (ltb j k)) [
    | inl lt ↦ before j k q (ground arith) h
    | inr ge ↦ behind j k q (ground arith) h
  ]

-- Another worker's turn.
pub IsDue-stable :
    (slot half total j : ℕ) (t : Thread) (c d : Crew)
    → ((q : ℕ) → in_slot slot half j q ≡ true → d.ram q ≡ c.ram q)
    → IsDue slot half total j t.todo (enter c t)
    → IsDue slot half total j t.todo (enter d t)
IsDue-stable slot half total j t c d same due = record {
  swept = due.swept;
  count = due.count;
  hot = λ q h. same q (ground arith) ∙ due.hot q h;
  hot_sweeps = due.hot_sweeps;
  filled = λ v q h. same q (ground arith) ∙ due.filled v q h;
}
