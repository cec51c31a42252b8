-- ===== src/Guest/Passes.antt =====
-- One pass of each guest program of crates/hv-reclaim/src/guest.rs, from its entry to the doorbell.
use macos_vm_memory_ratchet.Prelude.{
  ℕ, suc, ◌+◌, ◌*◌, ◌^◌, ◌<◌, ◌≡◌, refl, sym, ◌∙◌, Bool, true, false, arith, ◌==◌, if◌then◌else◌,
}
use mathlib.Core.Path.{subst}
use macos_vm_memory_ratchet.Guest.Isa.{Guest, aborted, Mapping, decode, step, exec}
use macos_vm_memory_ratchet.Guest.Programs.{
  code_gpa, doorbell_gpa, read_gpa, verify_gpa, fill_gpa, write_code_page,
}
use macos_vm_memory_ratchet.Guest.Sweep.{sweep, tally_pages}
use macos_vm_memory_ratchet.Guest.CounterTurns.{verify-Turn}
use macos_vm_memory_ratchet.Guest.Turns.{vm, at, Turn, touch-Turn, fill-Turn, read-Turn}
use macos_vm_memory_ratchet.Guest.Loop.{Rounds, Takes, rounds}
use macos_vm_memory_ratchet.Guest.Rings.{Rings}

-- `str xzr, [x3]` or `str x4, [x3]` at the doorbell faults.
module _ (code : ℕ → ℕ) (size : ℕ) (x : ℕ → ℕ) (z c : Bool) (r : ℕ → ℕ)
    (h : x 3 ≡ doorbell_gpa) where
  touch_faults :
      step (vm code size) (at (code_gpa + 16) x z c r)
      ≡ aborted doorbell_gpa (at (code_gpa + 16) x z c r)
  unfolding write_code_page decode step exec
  touch_faults = ground arith

  fill_faults :
      step (vm code size) (at (fill_gpa + 16) x z c r)
      ≡ aborted doorbell_gpa (at (fill_gpa + 16) x z c r)
  unfolding write_code_page decode step exec
  fill_faults = ground arith

  read_faults :
      step (vm code size) (at (read_gpa + 16) x z c r)
      ≡ aborted doorbell_gpa (at (read_gpa + 16) x z c r)
  unfolding write_code_page decode step exec
  read_faults = ground arith

  verify_faults :
      step (vm code size) (at (verify_gpa + 28) x z c r)
      ≡ aborted doorbell_gpa (at (verify_gpa + 28) x z c r)
  unfolding write_code_page decode step exec
  verify_faults = ground arith

-- A pass: the guest rings, with `n` pages visited.
pub record Passes (m : Mapping) (limit n : ℕ) (visit tally : ℕ → ℕ → ℕ) (g : Guest) : Type 0 where
  pub stop : Guest
  pub rings : Rings m limit g stop
  pub x4 : stop.x 4 ≡ g.x 4 + tally_pages tally (g.x 1) n g.ram
  pub ram : stop.ram ≡ sweep visit (g.x 1) n g.ram

-- The loop, and then the doorbell.
Passes-Rounds :
    (m : Mapping) (exit n : ℕ) (keeps : Bool) (visit tally : ℕ → ℕ → ℕ) (g : Guest)
    → Rounds m exit keeps visit tally n g
    → g.x 3 ≡ doorbell_gpa
    → ((x : ℕ → ℕ) (z c : Bool) (r : ℕ → ℕ)
        → x 3 ≡ doorbell_gpa
        → step m (at exit x z c r) ≡ aborted doorbell_gpa (at exit x z c r))
    → Passes m (n * 7) n visit tally g
Passes-Rounds m exit n keeps visit tally g l h faults = record {
  stop = l.stop;
  rings = record {
    cost = l.cost;
    cost_le = l.cost_le;
    runs = l.runs;
    faults =
        subst
          (λ (p : ℕ).
            step m (at p l.stop.x l.stop.z l.stop.c l.stop.ram)
            ≡ aborted doorbell_gpa (at p l.stop.x l.stop.z l.stop.c l.stop.ram))
          (sym l.pc_lem) (faults l.stop.x l.stop.z l.stop.c l.stop.ram (l.x3 ∙ h));
  };
  x4 = l.x4;
  ram = l.ram;
}

module _ (code : ℕ → ℕ) (size n : ℕ) (x : ℕ → ℕ) (z c : Bool) (r : ℕ → ℕ)
    (bell : x 3 ≡ doorbell_gpa) (takes : Takes size n x) where
  pub touch_pass :
      Passes (vm code size) (suc n * 7) (suc n) (λ q v. q) (λ q v. 0) (at code_gpa x z c r)
  touch_pass =
      Passes-Rounds (vm code size) (code_gpa + 16) (suc n) false _ _ _
        (rounds (vm code size) size code_gpa (code_gpa + 16) false (λ q v. q) (λ q v. 0)
          (λ _ _. Unit {0}) (λ k y z' c' s ok _. touch-Turn code size y z' c' s ok)
          (λ _ _ _ _ _ _ _ _. tt) n x z c r takes tt)
        bell (touch_faults code size)

  pub read_pass :
      Passes (vm code size) (suc n * 7) (suc n) (λ q v. v) (λ q v. 0) (at read_gpa x z c r)
  read_pass =
      Passes-Rounds (vm code size) (read_gpa + 16) (suc n) false _ _ _
        (rounds (vm code size) size read_gpa (read_gpa + 16) false (λ q v. v) (λ q v. 0)
          (λ _ _. Unit {0}) (λ k y z' c' s ok _. read-Turn code size y z' c' s ok)
          (λ _ _ _ _ _ _ _ _. tt) n x z c r takes tt)
        bell (read_faults code size)

  pub fill_pass :
      (value : ℕ)
      → x 5 ≡ value
      → Passes (vm code size) (suc n * 7) (suc n) (λ q v. value) (λ q v. 0) (at fill_gpa x z c r)
  fill_pass value e =
      Passes-Rounds (vm code size) (fill_gpa + 16) (suc n) true _ _ _
        (rounds (vm code size) size fill_gpa (fill_gpa + 16) true (λ q v. value) (λ q v. 0)
          (λ _ y. y 5 ≡ value)
          (λ k y z' c' s ok e'.
            subst
              (λ (w : ℕ).
                Turn (vm code size) (fill_gpa + 16) 7 true (λ q v. w) (λ q v. 0)
                  (at fill_gpa y z' c' s))
              e' (fill-Turn code size y z' c' s ok))
          (λ _ _ y y' _ _ same e'. same refl ∙ e') n x z c r takes e)
        bell (fill_faults code size)

  -- x4 has gone up by the number of pages that differ from `value`.
  pub verify_pass :
      (value : ℕ)
      → x 5 ≡ value
      → x 4 + suc n < 2 ^ 64
      → Passes
          (vm code size)
          (suc n * 7)
          (suc n)
          (λ q v. v)
          (λ q v. if v == value then 0 else 1)
          (at verify_gpa x z c r)
  verify_pass value e room =
      Passes-Rounds (vm code size) (verify_gpa + 28) (suc n) true _ _ _
        (rounds (vm code size) size verify_gpa (verify_gpa + 28) true (λ q v. v)
          (λ q v. if v == value then 0 else 1) (λ k y. (y 5 ≡ value) × (y 4 + k < 2 ^ 64))
          (λ k y z' c' s ok e'.
            subst
              (λ (w : ℕ).
                Turn (vm code size) (verify_gpa + 28) 7 true (λ q v. v)
                  (λ q v. if v == w then 0 else 1) (at verify_gpa y z' c' s))
              (e'.0) (verify-Turn code size y z' c' s ok (omega (arith, e'.1))))
          (λ k a y y' w e4 same e'. (same refl ∙ e'.0, ground arith)) n x z c r takes (e, room))
        bell (verify_faults code size)
