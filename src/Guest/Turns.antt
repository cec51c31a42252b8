-- ===== src/Guest/Turns.antt =====
-- One round of the loop of the guest programs of crates/hv-reclaim/src/guest.rs that count nothing:
-- touch, fill and read.
use macos_vm_memory_ratchet.Prelude.{
  ℕ, ◌+◌, ◌%◌, ◌^◌, ◌≤◌, ◌<◌, ◌≡◌, refl, sym, Bool, true, false, arith, leb, ◌==◌, if◌then◌else◌,
}
use macos_vm_memory_ratchet.Guest.Isa.{Guest, running, update, Mapping, decode, step, exec, after}
use macos_vm_memory_ratchet.Guest.Programs.{
  page, code_gpa, ram_gpa, read_gpa, fill_gpa, write_code_page,
}
use macos_vm_memory_ratchet.Guest.Sweep.{update_self}

-- The stage-2 map of `main`: the code page that `write_code_page` fills, and `size` bytes of RAM.
abbrev pub vm : (ℕ → ℕ) → ℕ → Mapping
vm code size = record {
  code_gpa = code_gpa;
  code_size = page;
  code = write_code_page code;
  ram_gpa = ram_gpa;
  size = size;
}

abbrev pub at : ℕ → (ℕ → ℕ) → Bool → Bool → (ℕ → ℕ) → Guest
at p x z c r = record { pc = p; x = x; z = z; c = c; ram = r }

-- The word under the cursor is mapped and aligned, and the cursor cannot wrap.
pub record IsOnPage (size : ℕ) (x : ℕ → ℕ) : Type 0 where
  pub from_base : ram_gpa ≤ x 1
  pub below_end : x 1 < ram_gpa + size
  pub no_wrap : ram_gpa + size + page < 2 ^ 64
  pub aligned : x 1 % 8 ≡ 0

-- What a round does to a guest at the head of its loop: the visited word, what is added to x4, and
-- where it goes on. x2 and x3 stay, and so does x5 or x6.
pub record Turn (m : Mapping) (exit most : ℕ) (keeps_x5 : Bool) (visit tally : ℕ → ℕ → ℕ)
    (g : Guest) : Type 0 where
  pub cost : ℕ
  pub stop : Guest
  pub runs : after m cost g ≡ running stop
  pub cost_le : cost ≤ most
  pub pc_lem : stop.pc ≡ (if leb (g.x 2) (g.x 1 + page) then exit else g.pc)
  pub x1 : stop.x 1 ≡ g.x 1 + page
  pub x2 : stop.x 2 ≡ g.x 2
  pub x3 : stop.x 3 ≡ g.x 3
  pub x4 : stop.x 4 ≡ g.x 4 + tally (g.x 1) (g.ram (g.x 1))
  pub x5 : keeps_x5 ≡ true → stop.x 5 ≡ g.x 5
  pub x6 : keeps_x5 ≡ false → stop.x 6 ≡ g.x 6
  pub ram : stop.ram ≡ update g.ram (g.x 1) (visit (g.x 1) (g.ram (g.x 1)))

module _ (code : ℕ → ℕ) (size : ℕ) (x : ℕ → ℕ) (z c : Bool) (r : ℕ → ℕ) (ok : IsOnPage size x) where
  touch_after :
      after (vm code size) 4 (at code_gpa x z c r)
      ≡ running (
          at
            (if leb (x 2) (x 1 + page) then code_gpa + 16 else code_gpa)
            (update x 1 (x 1 + page))
            (x 1 + page == x 2)
            (leb (x 2) (x 1 + page))
            (update r (x 1) (x 1)))
  unfolding write_code_page decode step exec after
  touch_after = ground arith

  pub touch-Turn :
      Turn (vm code size) (code_gpa + 16) 7 false (λ q v. q) (λ q v. 0) (at code_gpa x z c r)
  touch-Turn = record {
    cost = 4;
    stop =
        at (if leb (x 2) (x 1 + page) then code_gpa + 16 else code_gpa) (update x 1 (x 1 + page))
          (x 1 + page == x 2) (leb (x 2) (x 1 + page)) (update r (x 1) (x 1));
    runs = touch_after;
    cost_le = omega arith;
    pc_lem = refl;
    x1 = refl;
    x2 = refl;
    x3 = refl;
    x4 = omega arith;
    x5 = λ h. refl;
    x6 = λ h. refl;
    ram = refl;
  }

  fill_after :
      after (vm code size) 4 (at fill_gpa x z c r)
      ≡ running (
          at
            (if leb (x 2) (x 1 + page) then fill_gpa + 16 else fill_gpa)
            (update x 1 (x 1 + page))
            (x 1 + page == x 2)
            (leb (x 2) (x 1 + page))
            (update r (x 1) (x 5)))
  unfolding write_code_page decode step exec after
  fill_after = ground arith

  pub fill-Turn :
      Turn (vm code size) (fill_gpa + 16) 7 true (λ q v. x 5) (λ q v. 0) (at fill_gpa x z c r)
  fill-Turn = record {
    cost = 4;
    stop =
        at (if leb (x 2) (x 1 + page) then fill_gpa + 16 else fill_gpa) (update x 1 (x 1 + page))
          (x 1 + page == x 2) (leb (x 2) (x 1 + page)) (update r (x 1) (x 5));
    runs = fill_after;
    cost_le = omega arith;
    pc_lem = refl;
    x1 = refl;
    x2 = refl;
    x3 = refl;
    x4 = omega arith;
    x5 = λ h. refl;
    x6 = λ h. refl;
    ram = refl;
  }

  read_after :
      after (vm code size) 4 (at read_gpa x z c r)
      ≡ running (
          at
            (if leb (x 2) (x 1 + page) then read_gpa + 16 else read_gpa)
            (update (update x 5 (r (x 1))) 1 (x 1 + page))
            (x 1 + page == x 2)
            (leb (x 2) (x 1 + page))
            (r))
  unfolding write_code_page decode step exec after
  read_after = ground arith

  pub read-Turn :
      Turn (vm code size) (read_gpa + 16) 7 false (λ q v. v) (λ q v. 0) (at read_gpa x z c r)
  read-Turn = record {
    cost = 4;
    stop =
        at (if leb (x 2) (x 1 + page) then read_gpa + 16 else read_gpa)
          (update (update x 5 (r (x 1))) 1 (x 1 + page)) (x 1 + page == x 2)
          (leb (x 2) (x 1 + page)) (r);
    runs = read_after;
    cost_le = omega arith;
    pc_lem = refl;
    x1 = refl;
    x2 = refl;
    x3 = refl;
    x4 = omega arith;
    x5 = λ h. cc;
    x6 = λ h. refl;
    ram = sym (update_self r (x 1));
  }
