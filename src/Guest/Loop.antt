-- ===== src/Guest/Loop.antt =====
-- The loop that the guest programs of crates/hv-reclaim/src/guest.rs share, `b.lo loop`: from one
-- round to all of them.
use macos_vm_memory_ratchet.Prelude.{
  ℕ, zero, suc, ◌+◌, ◌*◌, ◌%◌, ◌^◌, ◌≤◌, ◌<◌, ◌≡◌, ap, ◌∙◌, Bool, true, false, arith, le→leb,
  le→not-leb, if◌then◌else◌,
}
use macos_vm_memory_ratchet.Guest.Isa.{Guest, running, Mapping, after}
use macos_vm_memory_ratchet.Guest.Programs.{page, ram_gpa}
use macos_vm_memory_ratchet.Guest.Sweep.{sweep, tally_pages, tally_pages-update}
use macos_vm_memory_ratchet.Guest.After.{after_trans}
use macos_vm_memory_ratchet.Guest.Turns.{at, IsOnPage, Turn}

-- `n` rounds: the guest has come to `exit`, with `n` pages visited and the rest as in one round.
pub record Rounds (m : Mapping) (exit : ℕ) (keeps_x5 : Bool) (visit tally : ℕ → ℕ → ℕ) (n : ℕ)
    (g : Guest) : Type 0 where
  pub cost : ℕ
  pub stop : Guest
  pub runs : after m cost g ≡ running stop
  pub cost_le : cost ≤ n * 7
  pub pc_lem : stop.pc ≡ exit
  pub x2 : stop.x 2 ≡ g.x 2
  pub x3 : stop.x 3 ≡ g.x 3
  pub x4 : stop.x 4 ≡ g.x 4 + tally_pages tally (g.x 1) n g.ram
  pub x6 : keeps_x5 ≡ false → stop.x 6 ≡ g.x 6
  pub ram : stop.ram ≡ sweep visit (g.x 1) n g.ram

-- The range from the cursor to x2 takes `suc n` rounds, all of them on mapped pages. The loop tests
-- its end after a round, so `n` is 0 for an empty range too.
pub record Takes (size n : ℕ) (x : ℕ → ℕ) : Type 0 where
  pub from_base : ram_gpa ≤ x 1
  pub aligned : x 1 % 8 ≡ 0
  pub no_wrap : ram_gpa + size + page < 2 ^ 64
  pub on_pages : x 1 + n * page < ram_gpa + size
  pub not_before : 0 < n → x 1 + n * page < x 2
  pub not_after : x 2 ≤ x 1 + suc n * page

Takes-IsOnPage : (size n : ℕ) (x : ℕ → ℕ) → Takes size n x → IsOnPage size x
Takes-IsOnPage size n x t = record {
  from_base = t.from_base;
  below_end = omega arith;
  no_wrap = t.no_wrap;
  aligned = t.aligned;
}

Takes-next :
    (size n : ℕ) (x y : ℕ → ℕ)
    → Takes size (suc n) x
    → y 1 ≡ x 1 + page
    → y 2 ≡ x 2
    → Takes size n y
Takes-next size n x y t e1 e2 = record {
  from_base = omega arith;
  aligned = omega arith;
  no_wrap = t.no_wrap;
  on_pages = omega arith;
  not_before = λ h. omega (arith, t.not_before (omega arith));
  not_after = omega arith;
}

module _ (m : Mapping) (size head exit : ℕ) (keeps_x5 : Bool) (visit tally : ℕ → ℕ → ℕ)
    (P : ℕ → (ℕ → ℕ) → Type 0)
    (turn : (n : ℕ) (x : ℕ → ℕ) (z c : Bool) (r : ℕ → ℕ)
      → IsOnPage size x
      → P (suc n) x
      → Turn m exit 7 keeps_x5 visit tally (at head x z c r))
    (keep : (n a : ℕ) (x y : ℕ → ℕ) (w : ℕ)
      → y 4 ≡ x 4 + tally a w
      → (keeps_x5 ≡ true → y 5 ≡ x 5)
      → P (suc n) x
      → P n y) where
  -- One round more in front.
  more :
      (n : ℕ) (x : ℕ → ℕ) (z c : Bool) (r : ℕ → ℕ)
      → Turn m exit 7 keeps_x5 visit tally (at head x z c r)
      → x 1 + page < x 2
      → ((y : ℕ → ℕ) (z' c' : Bool) (s : ℕ → ℕ)
          → y 1 ≡ x 1 + page
          → y 2 ≡ x 2
          → y 4 ≡ x 4 + tally (x 1) (r (x 1))
          → (keeps_x5 ≡ true → y 5 ≡ x 5)
          → Rounds m exit keeps_x5 visit tally n (at head y z' c' s))
      → Rounds m exit keeps_x5 visit tally (suc n) (at head x z c r)
  unfolding sweep tally_pages
  more n x z c r t more_left rest =
      let back : t.stop.pc ≡ head =
        t.pc_lem
        ∙ ap (λ (b : Bool). if b then exit else head) (le→not-leb (x 2) (x 1 + page) more_left) in
      let tail = rest t.stop.x t.stop.z t.stop.c t.stop.ram t.x1 t.x2 t.x4 t.x5 in
      record {
        cost = t.cost + tail.cost;
        stop = tail.stop;
        runs =
            after_trans m t.cost tail.cost _ _ _
              (t.runs ∙ ap (λ p. running (at p t.stop.x t.stop.z t.stop.c t.stop.ram)) back)
              tail.runs;
        cost_le = omega (arith, t.cost_le, tail.cost_le);
        pc_lem = tail.pc_lem;
        x2 = tail.x2 ∙ t.x2;
        x3 = tail.x3 ∙ t.x3;
        x4 = ground (
          arith,
          t.x4,
          tail.x4,
          t.x1,
          t.ram,
          tally_pages-update tally n (x 1 + page) (x 1) (visit (x 1) (r (x 1))) r,
        );
        x6 = λ h. tail.x6 h ∙ t.x6 h;
        ram = ground (arith, tail.ram, t.ram, t.x1);
      }

  -- The whole loop.
  pub rounds :
      (n : ℕ) (x : ℕ → ℕ) (z c : Bool) (r : ℕ → ℕ)
      → Takes size n x
      → P (suc n) x
      → Rounds m exit keeps_x5 visit tally (suc n) (at head x z c r)
  unfolding sweep tally_pages
  rounds zero x z c r t p =
      let u = turn 0 x z c r (Takes-IsOnPage size 0 x t) p in
      record {
        cost = u.cost;
        stop = u.stop;
        runs = u.runs;
        cost_le = omega (arith, u.cost_le);
        pc_lem =
            u.pc_lem
            ∙ ap (λ (b : Bool). if b then exit else head)
                (le→leb (x 2) (x 1 + page) (omega (arith, t.not_after)));
        x2 = u.x2;
        x3 = u.x3;
        x4 = ground (arith, u.x4);
        x6 = u.x6;
        ram = u.ram;
      }
  rounds (suc n) x z c r t p =
      more (suc n) x z c r (turn (suc n) x z c r (Takes-IsOnPage size (suc n) x t) p)
        (omega (arith, t.not_before (omega arith)))
        λ y z' c' s e1 e2 e4 e5.
          rounds n y z' c' s (Takes-next size n x y t e1 e2)
            (keep (suc n) (x 1) x y (r (x 1)) e4 e5 p)
