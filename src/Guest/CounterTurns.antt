-- ===== src/Guest/CounterTurns.antt =====
-- One round of the two guest programs of crates/hv-reclaim/src/guest.rs that count: hammer and
-- verify.
use macos_vm_memory_ratchet.Prelude.{
  ℕ, ◌+◌, ◌%◌, ◌^◌, ◌<◌, ◌≡◌, refl, sym, ◌∙◌, Bool, true, false, arith, ap, Bool-cases, inl, inr,
  leb, ◌==◌, if◌then◌else◌,
}
use macos_vm_memory_ratchet.Guest.Isa.{running, update, decode, step, exec, after}
use macos_vm_memory_ratchet.Guest.Programs.{page, hammer_gpa, verify_gpa, write_code_page}
use macos_vm_memory_ratchet.Guest.After.{after_trans}
use macos_vm_memory_ratchet.Guest.Sweep.{update_self}
use macos_vm_memory_ratchet.Guest.Turns.{vm, at, IsOnPage, Turn}

module _ (code : ℕ → ℕ) (size : ℕ) (x : ℕ → ℕ) (z c : Bool) (r : ℕ → ℕ) (ok : IsOnPage size x) where
  hammer_store :
      after (vm code size) 3 (at (hammer_gpa + 4) x z c r)
      ≡ running (
          at
            (hammer_gpa + 16)
            (update (update x 5 (r (x 1))) 5 ((r (x 1) + 1) % 2 ^ 64))
            z
            c
            (update r (x 1) ((r (x 1) + 1) % 2 ^ 64)))
  unfolding write_code_page decode step exec after
  hammer_store = ground arith

  verify_load :
      after (vm code size) 3 (at verify_gpa x z c r)
      ≡ running (
          at
            (if r (x 1) == x 5 then verify_gpa + 16 else verify_gpa + 12)
            (update x 6 (r (x 1)))
            (r (x 1) == x 5)
            (leb (x 5) (r (x 1)))
            r)
  unfolding write_code_page decode step exec after
  verify_load = ground arith

  verify_same :
      (r (x 1) == x 5) ≡ true
      → after (vm code size) 3 (at verify_gpa x z c r)
        ≡ running
            (at (verify_gpa + 16) (update x 6 (r (x 1))) (r (x 1) == x 5) (leb (x 5) (r (x 1))) r)
  verify_same h =
      verify_load
      ∙ ap
          (λ (b : Bool). running (
            at (if b then verify_gpa + 16 else verify_gpa + 12) (update x 6 (r (x 1)))
              (r (x 1) == x 5) (leb (x 5) (r (x 1))) r))
          h

  verify_differs :
      (r (x 1) == x 5) ≡ false
      → after (vm code size) 3 (at verify_gpa x z c r)
        ≡ running
            (at (verify_gpa + 12) (update x 6 (r (x 1))) (r (x 1) == x 5) (leb (x 5) (r (x 1))) r)
  verify_differs h =
      verify_load
      ∙ ap
          (λ (b : Bool). running (
            at (if b then verify_gpa + 16 else verify_gpa + 12) (update x 6 (r (x 1)))
              (r (x 1) == x 5) (leb (x 5) (r (x 1))) r))
          h

module _ (code : ℕ → ℕ) (size : ℕ) (x : ℕ → ℕ) (z c : Bool) (r : ℕ → ℕ) where
  -- Past the visit every program goes on alike: advance the cursor, compare it with the end.
  hammer_next :
      x 1 + page < 2 ^ 64
      → after (vm code size) 3 (at (hammer_gpa + 16) x z c r)
        ≡ running (
            at
              (if leb (x 2) (x 1 + page) then hammer_gpa + 28 else hammer_gpa + 4)
              (update x 1 (x 1 + page))
              (x 1 + page == x 2)
              (leb (x 2) (x 1 + page))
              r)
  unfolding write_code_page decode step exec after
  hammer_next h = ground arith

  verify_next :
      x 1 + page < 2 ^ 64
      → after (vm code size) 3 (at (verify_gpa + 16) x z c r)
        ≡ running (
            at
              (if leb (x 2) (x 1 + page) then verify_gpa + 28 else verify_gpa)
              (update x 1 (x 1 + page))
              (x 1 + page == x 2)
              (leb (x 2) (x 1 + page))
              r)
  unfolding write_code_page decode step exec after
  verify_next h = ground arith

  verify_count :
      x 4 + 1 < 2 ^ 64
      → after (vm code size) 1 (at (verify_gpa + 12) x z c r)
        ≡ running (at (verify_gpa + 16) (update x 4 (x 4 + 1)) z c r)
  unfolding write_code_page decode step exec after
  verify_count h = ground arith

module _ (code : ℕ → ℕ) (size : ℕ) (x : ℕ → ℕ) (z c : Bool) (r : ℕ → ℕ) (ok : IsOnPage size x) where
  no_carry : x 1 + page < 2 ^ 64
  no_carry = omega arith

  pub hammer-Turn :
      Turn
        (vm code size)
        (hammer_gpa + 28)
        7
        false
        (λ q v. (v + 1) % 2 ^ 64)
        (λ q v. 0)
        (at (hammer_gpa + 4) x z c r)
  hammer-Turn = record {
    cost = 6;
    stop =
        at (if leb (x 2) (x 1 + page) then hammer_gpa + 28 else hammer_gpa + 4)
          (update (update (update x 5 (r (x 1))) 5 ((r (x 1) + 1) % 2 ^ 64)) 1 (x 1 + page))
          (x 1 + page == x 2) (leb (x 2) (x 1 + page)) (update r (x 1) ((r (x 1) + 1) % 2 ^ 64));
    runs =
        after_trans (vm code size) 3 3 _ _ _ (hammer_store code size x z c r ok)
          (hammer_next code size _ z c _ no_carry);
    cost_le = omega arith;
    pc_lem = refl;
    x1 = refl;
    x2 = refl;
    x3 = refl;
    x4 = omega arith;
    x5 = λ h. cc;
    x6 = λ h. refl;
    ram = refl;
  }

  -- A page that differs from x5 adds one to x4.
  pub verify-Turn :
      x 4 + 1 < 2 ^ 64
      → Turn
          (vm code size)
          (verify_gpa + 28)
          7
          true
          (λ q v. v)
          (λ q v. if v == x 5 then 0 else 1)
          (at verify_gpa x z c r)
  verify-Turn room = elim (Bool-cases (r (x 1) == x 5)) [
    | inl same ↦ record {
      cost = 6;
      stop =
          at (if leb (x 2) (x 1 + page) then verify_gpa + 28 else verify_gpa)
            (update (update x 6 (r (x 1))) 1 (x 1 + page)) (x 1 + page == x 2)
            (leb (x 2) (x 1 + page)) r;
      runs =
          after_trans (vm code size) 3 3 _ _ _ (verify_same code size x z c r ok same)
            (verify_next code size _ _ _ r no_carry);
      cost_le = omega arith;
      pc_lem = refl;
      x1 = refl;
      x2 = refl;
      x3 = refl;
      x4 = ground arith;
      x5 = λ h. refl;
      x6 = λ h. cc;
      ram = sym (update_self r (x 1));
    }
    | inr differs ↦ record {
      cost = 7;
      stop =
          at (if leb (x 2) (x 1 + page) then verify_gpa + 28 else verify_gpa)
            (update (update (update x 6 (r (x 1))) 4 (x 4 + 1)) 1 (x 1 + page)) (x 1 + page == x 2)
            (leb (x 2) (x 1 + page)) r;
      runs = after_trans (vm code size) 3 4 _ _ _ (verify_differs code size x z c r ok differs) (
          after_trans (vm code size) 1 3 _ _ _ (verify_count code size _ _ _ r room)
            (verify_next code size _ _ _ r no_carry));
      cost_le = omega arith;
      pc_lem = refl;
      x1 = refl;
      x2 = refl;
      x3 = refl;
      x4 = ground arith;
      x5 = λ h. refl;
      x6 = λ h. cc;
      ram = sym (update_self r (x 1));
    }
  ]
