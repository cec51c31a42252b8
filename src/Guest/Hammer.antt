-- ===== src/Guest/Hammer.antt =====
-- A sweep of the hammer program of crates/hv-reclaim/src/guest.rs, from `outer` to the doorbell, and
-- the way back to `outer`.
use macos_vm_memory_ratchet.Prelude.{
  ℕ, suc, ◌+◌, ◌*◌, ◌%◌, ◌^◌, ◌≡◌, refl, ◌∙◌, ap, Bool, false, arith,
}
use macos_vm_memory_ratchet.Guest.Isa.{
  Guest, running, aborted, update, Mapping, decode, step, exec, after,
}
use macos_vm_memory_ratchet.Guest.Programs.{doorbell_gpa, hammer_gpa, write_code_page}
use macos_vm_memory_ratchet.Guest.Sweep.{sweep, tally_pages}
use macos_vm_memory_ratchet.Guest.After.{after_trans}
use macos_vm_memory_ratchet.Guest.Turns.{vm, at}
use macos_vm_memory_ratchet.Guest.CounterTurns.{hammer-Turn}
use macos_vm_memory_ratchet.Guest.Loop.{Rounds, Takes, rounds}
use macos_vm_memory_ratchet.Guest.Rings.{Rings}

-- What a visit of the hammer leaves.
abbrev pub bump : ℕ → ℕ → ℕ
bump q v = (v + 1) % 2 ^ 64

module _ (code : ℕ → ℕ) (size : ℕ) (x : ℕ → ℕ) (z c : Bool) (r : ℕ → ℕ) where
  hammer_enter :
      after (vm code size) 1 (at hammer_gpa x z c r)
      ≡ running (at (hammer_gpa + 4) (update x 1 (x 6)) z c r)
  unfolding write_code_page decode step exec after
  hammer_enter = ground arith

  hammer_back :
      after (vm code size) 1 (at (hammer_gpa + 36) x z c r) ≡ running (at hammer_gpa x z c r)
  unfolding write_code_page decode step exec after
  hammer_back = ground arith

  hammer_count :
      after (vm code size) 1 (at (hammer_gpa + 28) x z c r)
      ≡ running (at (hammer_gpa + 32) (update x 4 ((x 4 + 1) % 2 ^ 64)) z c r)
  unfolding write_code_page decode step exec after
  hammer_count = ground arith

  hammer_faults :
      x 3 ≡ doorbell_gpa
      → step (vm code size) (at (hammer_gpa + 32) x z c r)
        ≡ aborted doorbell_gpa (at (hammer_gpa + 32) x z c r)
  unfolding write_code_page decode step exec
  hammer_faults h = ground arith

-- A sweep leaves the registers that the next one needs, and counts itself in x4.
pub record Sweeps (m : Mapping) (limit n : ℕ) (g : Guest) : Type 0 where
  pub stop : Guest
  pub rings : Rings m limit g stop
  pub pc_lem : stop.pc ≡ hammer_gpa + 32
  pub x2 : stop.x 2 ≡ g.x 2
  pub x3 : stop.x 3 ≡ g.x 3
  pub x4 : stop.x 4 ≡ (g.x 4 + 1) % 2 ^ 64
  pub x6 : stop.x 6 ≡ g.x 6
  pub ram : stop.ram ≡ sweep bump (g.x 6) n g.ram

tally_none : (n a : ℕ) (r : ℕ → ℕ) → tally_pages (λ q v. 0) a n r ≡ 0
unfolding tally_pages
tally_none ℕ.zero a r = refl
tally_none (suc n) a r = omega (arith, tally_none n (a + 16 * 1024) r)

module _ (code : ℕ → ℕ) (size n : ℕ) (x : ℕ → ℕ) (z c : Bool) (r : ℕ → ℕ)
    (bell : x 3 ≡ doorbell_gpa) (takes : Takes size n (update x 1 (x 6))) where
  loop :
      Rounds
        (vm code size)
        (hammer_gpa + 28)
        false
        bump
        (λ q v. 0)
        (suc n)
        (at (hammer_gpa + 4) (update x 1 (x 6)) z c r)
  loop =
      rounds (vm code size) size (hammer_gpa + 4) (hammer_gpa + 28) false bump (λ q v. 0)
        (λ _ _. Unit {0}) (λ k y z' c' s ok _. hammer-Turn code size y z' c' s ok)
        (λ _ _ _ _ _ _ _ _. tt) n (update x 1 (x 6)) z c r takes tt

  pub hammer_sweep : Sweeps (vm code size) (suc n * 7 + 2) (suc n) (at hammer_gpa x z c r)
  hammer_sweep =
      let y = loop.stop.x in
      record {
        stop =
            at (hammer_gpa + 32) (update y 4 ((y 4 + 1) % 2 ^ 64)) loop.stop.z loop.stop.c
              loop.stop.ram;
        rings = record {
          cost = 1 + (loop.cost + 1);
          cost_le = omega (arith, loop.cost_le);
          runs =
              after_trans (vm code size) 1 (loop.cost + 1) _ _ _ (hammer_enter code size x z c r) (
                after_trans (vm code size) loop.cost 1 _ _ _
                  (loop.runs
                    ∙ ap (λ (p : ℕ). running (at p y loop.stop.z loop.stop.c loop.stop.ram))
                        loop.pc_lem)
                  (hammer_count code size y loop.stop.z loop.stop.c loop.stop.ram));
          faults = hammer_faults code size _ loop.stop.z loop.stop.c loop.stop.ram (loop.x3 ∙ bell);
        };
        pc_lem = refl;
        x2 = loop.x2;
        x3 = loop.x3;
        x4 = omega (arith, loop.x4, tally_none (suc n) (x 6) r);
        x6 = loop.x6 refl;
        ram = loop.ram;
      }

  -- Stepped past the doorbell store the guest goes back to `outer` and sweeps again.
  pub hammer_resweep : Sweeps (vm code size) (suc n * 7 + 3) (suc n) (at (hammer_gpa + 36) x z c r)
  hammer_resweep =
      let s = hammer_sweep in
      record {
        stop = s.stop;
        rings = record {
          cost = 1 + s.rings.cost;
          cost_le = omega (arith, s.rings.cost_le);
          runs =
              after_trans (vm code size) 1 s.rings.cost _ _ _ (hammer_back code size x z c r)
                s.rings.runs;
          faults = s.rings.faults;
        };
        pc_lem = s.pc_lem;
        x2 = s.x2;
        x3 = s.x3;
        x4 = s.x4;
        x6 = s.x6;
        ram = s.ram;
      }
