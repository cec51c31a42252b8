-- ===== src/Ledger/Tests.antt =====
-- crates/ledger/src: the canary at a size of one GiB, a reading and a pressure generator.
use macos_vm_memory_ratchet.Prelude.{
  ℕ, ◌*◌, ◌^◌, ◌≤◌, ◌≡◌, ◌↔◌, refl, arith, Bool, true, ◌==◌, some, none, ok, length, bit_xor,
  Option, false, List, [], ◌∷◌, ◌+◌, if◌then◌else◌,
}
use Prim.Native.String.{String}
use macos_vm_memory_ratchet.Options.Numbers.{print_usize}
use macos_vm_memory_ratchet.Wire.{equals}
use macos_vm_memory_ratchet.Ledger.Reading.{Field, full, TaskInfo, u64_at, Ledger, read, read_lem}
use macos_vm_memory_ratchet.Ledger.Pressure.{
  Chunk, holding, spawned, guard, failed, child_after, apply, drop, maybe_run_generator, child,
  IsHolding, apply_lem, apply-failed,
}
use macos_vm_memory_ratchet.Ledger.Pages.{page, step_by, count, write_each}
use macos_vm_memory_ratchet.Ledger.Canary.{
  Canary, pattern, arm, survey, conclusive, pressed, survey-arm,
}

-- A canary of one GiB on a mapping of zeros.
abbrev armed : Canary
armed = record {
  size = 2 ^ 30;
  words = write_each (bit_xor pattern) (step_by 0 (2 ^ 30) page) (λ _. 0);
}

armed_lem : arm (some (λ _. 0)) 0 1 ≡ ok armed
unfolding arm
armed_lem = refl

-- The first page alone is discarded.
abbrev first_gone : ℕ → Bool
first_gone off = off == 0

survey-arm_example :
    let v = survey (pressed first_gone armed) in
    (v.discarded ≡ count first_gone (step_by 0 armed.size page))
    × (v.total ≡ length (step_by 0 armed.size page))
    × ((conclusive v ≡ true)
        ↔ (length (step_by 0 armed.size page) ≤ 2 * count first_gone (step_by 0 armed.size page)))
survey-arm_example = survey-arm (λ _. 0) 1 first_gone armed (omega arith) armed_lem

-- A kernel that copies every word, and generators of which the third chunk fails.
abbrev whole : TaskInfo
whole = record { kr = 0; count = full; words = λ i. 100 + i }

abbrev reading : Ledger
reading = record {
  phys_footprint = u64_at (λ i. 100 + i) Field.phys_footprint;
  resident = u64_at (λ i. 100 + i) Field.resident_size;
  reusable = u64_at (λ i. 100 + i) Field.reusable;
  compressed = u64_at (λ i. 100 + i) Field.compressed;
  regions = 102;
}

read_example :
    (read whole ≡ ok reading) ↔ ((whole.kr ≡ 0) × (whole.count ≡ full) × (reading ≡ reading))
read_example = read_lem whole reading

abbrev two_chunks : ℕ → Option ℕ
two_chunks i = if i == 2 then none else some (0x1_0000_0000 * (i + 1))

apply_example :
    (apply true (child two_chunks) 48 ≡ (guard, spawned ∷ []))
    × (child_after false (drop (spawned ∷ [])) ≡ false)
    × ((chunks : List Chunk) × (maybe_run_generator two_chunks (some (print_usize 48))
          ≡ ok (holding chunks))
        × IsHolding two_chunks 48 chunks)
apply_example = apply_lem two_chunks 48 (omega arith)

apply-failed_example :
    (((apply true (child two_chunks) 48).0 ≡ guard) ↔ (
      (◌≡◌ {A = Bool} true true)
      × ((line : String) × (child two_chunks (print_usize 48) ≡ some (some line))
          × (equals line "HOLDING" ≡ true))))
    × ((apply true (child two_chunks) 48).0 ≡ failed
        → child_after false (apply true (child two_chunks) 48).1 ≡ false)
apply-failed_example = apply-failed true (child two_chunks) 48
