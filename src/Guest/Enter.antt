-- ===== src/Guest/Enter.antt =====
-- What the host loops of crates/hv-reclaim/src/guest.rs set up before the guest runs, and what they
-- return after it rang the doorbell.
use macos_vm_memory_ratchet.Prelude.{
  ℕ, suc, ◌+◌, ◌-◌, ◌/◌, ◌%◌, ◌^◌, ◌≤◌, ◌<◌, ◌≡◌, refl, arith, Bool, ◌&&◌, ltb, leb, ◌==◌, ok,
  ◌>>=◌, ◌∙◌,
}
use macos_vm_memory_ratchet.Guest.Isa.{Guest, Mapping, update}
use macos_vm_memory_ratchet.Guest.Programs.{page, ram_gpa, doorbell_gpa}
use macos_vm_memory_ratchet.Guest.Sweep.{covers}
use macos_vm_memory_ratchet.Guest.Hypervisor.{Hypervisor, IsDocumented, hv_reg_pc}
use macos_vm_memory_ratchet.Guest.Host.{Vcpu, check, set_reg, read_reg, pass_loop, run_pass}
use macos_vm_memory_ratchet.Guest.Rings.{Rings, pass_loop_lem}
use macos_vm_memory_ratchet.Guest.Loop.{Takes}
use macos_vm_memory_ratchet.Guest.Turns.{at}

-- Rounds after the first that a range takes.
abbrev pub more_rounds : ℕ → ℕ → ℕ
more_rounds start_off end_off = (end_off - start_off - 1) / page

-- A range of guest RAM that a pass may be given: not empty, in RAM, its words aligned.
pub record IsRange (size start_off end_off : ℕ) : Type 0 where
  pub not_empty : start_off < end_off
  pub in_ram : end_off ≤ size
  pub aligned : start_off % 8 ≡ 0
  pub no_wrap : ram_gpa + size + page < 2 ^ 64

-- `q` is the first word of a page of the range, pages counted from its start.
abbrev pub is_first_word : ℕ → ℕ → ℕ → Bool
is_first_word start_off end_off q =
    leb (ram_gpa + start_off) q
    && ltb q (ram_gpa + end_off)
    && (q - (ram_gpa + start_off)) % page == 0

pub covers-is_first_word :
    (size start_off end_off q : ℕ)
    → IsRange size start_off end_off
    → covers (ram_gpa + start_off) (suc (more_rounds start_off end_off)) q
      ≡ is_first_word start_off end_off q
covers-is_first_word size start_off end_off q inside = ground arith

pub Takes-IsRange :
    (size start_off end_off : ℕ) (x : ℕ → ℕ)
    → IsRange size start_off end_off
    → x 1 ≡ ram_gpa + start_off
    → x 2 ≡ ram_gpa + end_off
    → Takes size (more_rounds start_off end_off) x
Takes-IsRange size start_off end_off x inside e1 e2 = record {
  from_base = omega arith;
  aligned = omega (arith, inside.aligned);
  no_wrap = inside.no_wrap;
  on_pages = omega (arith, inside.in_ram, inside.not_empty);
  not_before = λ h. omega (arith, inside.not_empty);
  not_after = omega (arith, inside.not_empty);
}

module _ (hv : Hypervisor) (m : Mapping) (limit : ℕ) (laws : IsDocumented m limit hv) where
  pub set_x_lem :
      (r value : ℕ) (v : Vcpu)
      → 1 ≤ r
      → r ≤ 6
      → set_reg hv r value v
        ≡ ok (tt, record v { guest = record (v.guest) { x = update v.guest.x r value } })
  unfolding set_reg check
  set_x_lem r value v lo hi = rw (laws.set_x v.guest r value lo hi)

  pub set_pc_lem :
      (value : ℕ) (v : Vcpu)
      → set_reg hv hv_reg_pc value v ≡ ok (tt, record v { guest = record (v.guest) { pc = value } })
  unfolding set_reg check
  set_pc_lem value v = rw (laws.set_pc v.guest value)

  pub read_x_lem : (r : ℕ) (v : Vcpu) → 1 ≤ r → r ≤ 6 → read_reg hv r v ≡ ok (v.guest.x r, v)
  unfolding read_reg check
  read_x_lem r v lo hi = rw (laws.get_x v.guest r lo hi)

  pub read_pc_lem : (v : Vcpu) → read_reg hv hv_reg_pc v ≡ ok (v.guest.pc, v)
  unfolding read_reg check
  read_pc_lem v = rw (laws.get_pc v.guest)

  -- The registers as `run_pass` leaves them for the guest.
  abbrev pub armed : ℕ → ℕ → (ℕ → ℕ) → ℕ → ℕ
  armed start_off end_off x =
      update (update (update x 1 ((ram_gpa + start_off) % 2 ^ 64)) 2 ((ram_gpa + end_off) % 2 ^ 64))
        3 doorbell_gpa

  pub run_pass-eq-loop :
      (fuel entry start_off end_off : ℕ) (v : Vcpu)
      → run_pass hv fuel entry start_off end_off v
        ≡ pass_loop hv fuel (record v {
          guest = at entry (armed start_off end_off v.guest.x) v.guest.z v.guest.c v.guest.ram;
        })
  unfolding run_pass
  run_pass-eq-loop fuel entry start_off end_off v =
      rw (set_pc_lem, ◌>>=◌)
        (rw (set_x_lem 1 _ _ (omega arith) (omega arith), ◌>>=◌)
          (rw (set_x_lem 2 _ _ (omega arith) (omega arith), ◌>>=◌)
            (rw (set_x_lem 3 _ _ (omega arith) (omega arith), ◌>>=◌))))

  -- A pass whose guest rings returns, with the guest at its doorbell.
  pub run_pass_lem :
      (fuel entry start_off end_off : ℕ) (v : Vcpu) (t : Guest)
      → laws.settles v.calls < v.calls + fuel
      → Rings m limit
          (at entry (armed start_off end_off v.guest.x) v.guest.z v.guest.c v.guest.ram)
          t
      → (w : Vcpu) × (run_pass hv fuel entry start_off end_off v ≡ ok (tt, w)) × (w.guest ≡ t)
  run_pass_lem fuel entry start_off end_off v t enough rings =
      let (calls, _, _, returns) =
        pass_loop_lem hv m limit laws fuel (laws.settles v.calls)
          (record v {
            guest = at entry (armed start_off end_off v.guest.x) v.guest.z v.guest.c v.guest.ram;
          })
          t rings (laws.settled v.calls) (laws.settles_later v.calls) enough in
      (
        record { guest = t; calls = calls },
        run_pass-eq-loop fuel entry start_off end_off v ∙ returns,
        refl,
      )
