-- ===== src/Guest/Correct.antt =====
-- What the passes of crates/hv-reclaim/src/guest.rs do to guest RAM, as their callers see it.
use macos_vm_memory_ratchet.Prelude.{
  ℕ, suc, ◌+◌, ◌*◌, ◌%◌, ◌^◌, ◌≤◌, ◌<◌, ◌≡◌, ◌∙◌, refl, ap, arith, Bool, ◌==◌, ok, ◌>>=◌,
  if◌then◌else◌,
}
use Prim.Native.Nat.add
use macos_vm_memory_ratchet.Guest.Isa.{Guest, Mapping, update}
use macos_vm_memory_ratchet.Guest.Rings.{Rings}
use macos_vm_memory_ratchet.Guest.Loop.{Takes}
use macos_vm_memory_ratchet.Guest.Hammer.{hammer_sweep, bump}
use macos_vm_memory_ratchet.Guest.Programs.{
  ram_gpa, hammer_gpa, code_gpa, read_gpa, fill_gpa, verify_gpa,
}
use macos_vm_memory_ratchet.Guest.Sweep.{sweep, tally_pages, sweep_at}
use macos_vm_memory_ratchet.Guest.Turns.{vm, at}
use macos_vm_memory_ratchet.Guest.Hypervisor.{Hypervisor, IsDocumented}
use macos_vm_memory_ratchet.Guest.Host.{
  Vcpu, run_pass, run_touch_range, run_read_pass, run_sweep_range, run_fill_range, run_verify_range,
}
use macos_vm_memory_ratchet.Guest.Passes.{Passes, touch_pass, read_pass, fill_pass, verify_pass}
use macos_vm_memory_ratchet.Guest.Enter.{
  more_rounds, IsRange, is_first_word, covers-is_first_word, Takes-IsRange, armed, set_x_lem,
  read_x_lem, run_pass_lem,
}

-- `fuel` entries of the vCPU are enough, and so are `limit` instructions.
pub record IsEnough (start_off end_off limit fuel calls settles : ℕ) : Type 0 where
  pub entries : settles < calls + fuel
  pub instructions : suc (more_rounds start_off end_off) * 7 + 3 ≤ limit

-- A sweep in closed form, over the words of a range.
pub sweep-range :
    (visit : ℕ → ℕ → ℕ) (size s e q : ℕ) (ram : ℕ → ℕ)
    → IsRange size s e
    → sweep visit (ram_gpa + s) (suc (more_rounds s e)) ram q
      ≡ (if is_first_word s e q then visit q (ram q) else ram q)
sweep-range visit size s e q ram inside =
    sweep_at visit (suc (more_rounds s e)) (ram_gpa + s) q ram
    ∙ ap (λ (b : Bool). if b then visit q (ram q) else ram q)
        (covers-is_first_word size s e q inside)

pub Rings-mono : {m : Mapping} {c d : ℕ} {g t : Guest} → c ≤ d → Rings m c g t → Rings m d g t
Rings-mono h r = record {
  cost = r.cost;
  cost_le = omega (arith, r.cost_le);
  runs = r.runs;
  faults = r.faults;
}

module _ (code : ℕ → ℕ) (size limit : ℕ) (hv : Hypervisor)
    (laws : IsDocumented (vm code size) limit hv) (fuel s e : ℕ) (inside : IsRange size s e) where
  -- The address that the host computes does not wrap.
  base : (ram_gpa + s) % 2 ^ 64 ≡ ram_gpa + s
  base = omega (arith, inside.no_wrap, inside.in_ram, inside.not_empty)

  takes : (x : ℕ → ℕ) → Takes size (more_rounds s e) (armed hv (vm code size) limit laws s e x)
  takes x = Takes-IsRange size s e _ inside base (omega (arith, inside.no_wrap, inside.in_ram))

  -- A pass that visits the range: it returns, and RAM is as the visits leave it.
  visited :
      (visit tally : ℕ → ℕ → ℕ) (entry : ℕ) (v : Vcpu)
      → IsEnough s e limit fuel v.calls (laws.settles v.calls)
      → Passes (vm code size) (suc (more_rounds s e) * 7) (suc (more_rounds s e)) visit tally (
          at entry
            (armed hv (vm code size) limit laws s e v.guest.x)
            v.guest.z
            v.guest.c
            v.guest.ram)
      → (w : Vcpu) × (run_pass hv fuel entry s e v ≡ ok (tt, w))
        × (w.guest.x 4
            ≡ v.guest.x 4 + tally_pages tally (ram_gpa + s) (suc (more_rounds s e)) v.guest.ram)
        × ((q : ℕ)
            → w.guest.ram q
              ≡ (if is_first_word s e q then visit q (v.guest.ram q) else v.guest.ram q))
  visited visit tally entry v enough p =
      let (w, returns, stops) =
        run_pass_lem hv (vm code size) limit laws fuel entry s e v p.stop enough.entries
          (Rings-mono (omega (arith, enough.instructions)) p.rings) in
      (
        w,
        returns,
        ap (λ g. g.x 4) stops
            ∙ (p.x4
                ∙ ap (λ a. v.guest.x 4 + tally_pages tally a (suc (more_rounds s e)) v.guest.ram)
                    base),
        λ q.
            ap (λ g. g.ram q) stops
            ∙ (ap (λ f. f q) p.ram
                ∙ (ap (λ a. sweep visit a (suc (more_rounds s e)) v.guest.ram q) base
                    ∙ sweep-range visit size s e q v.guest.ram inside)),
      )

module _ (code : ℕ → ℕ) (size limit : ℕ) (hv : Hypervisor)
    (laws : IsDocumented (vm code size) limit hv) (fuel s e : ℕ) (inside : IsRange size s e)
    (v : Vcpu) (enough : IsEnough s e limit fuel v.calls (laws.settles v.calls)) where
  pub run_touch_range_lem :
      (w : Vcpu) × (run_touch_range hv fuel s e v ≡ ok (tt, w))
      × ((q : ℕ) → w.guest.ram q ≡ (if is_first_word s e q then q else v.guest.ram q))
  unfolding run_touch_range
  run_touch_range_lem =
      let (w, returns, _, ram) =
        visited code size limit hv laws fuel s e inside _ _ code_gpa v enough (
          touch_pass code size (more_rounds s e) _ v.guest.z v.guest.c v.guest.ram refl
            (takes code size limit hv laws fuel s e inside v.guest.x)) in
      (w, returns, ram)

  pub run_fill_range_lem :
      (value : ℕ)
      → (w : Vcpu) × (run_fill_range hv fuel s e value v ≡ ok (tt, w))
        × ((q : ℕ) → w.guest.ram q ≡ (if is_first_word s e q then value else v.guest.ram q))
  unfolding run_fill_range
  run_fill_range_lem value =
      let v' : Vcpu = record v { guest = record (v.guest) { x = update v.guest.x 5 value } } in
      let (w, returns, _, ram) =
        visited code size limit hv laws fuel s e inside _ _ fill_gpa v' enough (
          fill_pass code size (more_rounds s e) _ v.guest.z v.guest.c v.guest.ram refl
            (takes code size limit hv laws fuel s e inside (update v.guest.x 5 value)) value
            refl) in
      (
        w,
        rw (set_x_lem hv (vm code size) limit laws 5 value v (omega arith) (omega arith), ◌>>=◌)
            returns,
        ram,
      )

  -- On a range of guest RAM with aligned words that is not empty, with a documented hypervisor and
  -- enough entries and instructions, `run_verify_range` returns the number of pages of the range
  -- whose first word is not `expected`, and leaves RAM as it was.
  pub run_verify_range_lem :
      (expected : ℕ)
      → (w : Vcpu) × (run_verify_range hv fuel s e expected v
          ≡ ok (
            tally_pages
                (λ q word. if word == expected then 0 else 1)
                (ram_gpa + s)
                (suc (more_rounds s e))
                v.guest.ram,
            w,
          ))
        × ((q : ℕ) → w.guest.ram q ≡ v.guest.ram q)
  unfolding run_verify_range
  run_verify_range_lem expected =
      let x : ℕ → ℕ = update (update v.guest.x 4 0) 5 expected in
      let v' : Vcpu = record v { guest = record (v.guest) { x = x } } in
      let (w, returns, x4, ram) =
        visited code size limit hv laws fuel s e inside _ _ verify_gpa v' enough (
          verify_pass code size (more_rounds s e) _ v.guest.z v.guest.c v.guest.ram refl
            (takes code size limit hv laws fuel s e inside x) expected refl
            (omega (arith, inside.no_wrap, inside.in_ram))) in
      (
        w,
        rw (set_x_lem hv (vm code size) limit laws 4 0 v (omega arith) (omega arith), ◌>>=◌)
            (rw
              (
                set_x_lem hv (vm code size) limit laws 5 expected _ (omega arith) (omega arith),
                ◌>>=◌,
              )
              (rw (returns, ◌>>=◌)
                (rw (read_x_lem hv (vm code size) limit laws 4 w (omega arith) (omega arith))
                  (rw x4 (rw add.zero))))),
        λ q. ram q ∙ ground arith,
      )

  pub run_sweep_range_lem :
      (w : Vcpu) × (run_sweep_range hv fuel s e v ≡ ok (tt, w))
      × ((q : ℕ)
          → w.guest.ram q
            ≡ (if is_first_word s e q then (v.guest.ram q + 1) % 2 ^ 64 else v.guest.ram q))
  unfolding run_sweep_range
  run_sweep_range_lem =
      let x : ℕ → ℕ = update v.guest.x 6 ((ram_gpa + s) % 2 ^ 64) in
      let v' : Vcpu = record v { guest = record (v.guest) { x = x } } in
      let swept =
        hammer_sweep code size (more_rounds s e) (armed hv (vm code size) limit laws s e x)
          v.guest.z v.guest.c v.guest.ram refl
          (Takes-IsRange size s e _ inside (base code size limit hv laws fuel s e inside)
            (omega (arith, inside.no_wrap, inside.in_ram))) in
      let (w, returns, stops) =
        run_pass_lem hv (vm code size) limit laws fuel hammer_gpa s e v' swept.stop enough.entries
          (Rings-mono (omega (arith, enough.instructions)) swept.rings) in
      (
        w,
        rw (set_x_lem hv (vm code size) limit laws 6 _ v (omega arith) (omega arith), ◌>>=◌)
            returns,
        λ q.
            ap (λ g. g.ram q) stops
            ∙ (ap (λ f. f q) swept.ram
                ∙ (ap (λ a. sweep bump a (suc (more_rounds s e)) v.guest.ram q)
                      (base code size limit hv laws fuel s e inside)
                    ∙ sweep-range bump size s e q v.guest.ram inside)),
      )

  -- On guest RAM with aligned words from its start, not empty, with a documented hypervisor and
  -- enough entries and instructions, `run_read_pass` returns and leaves RAM as it was.
  pub run_read_pass_lem :
      s ≡ 0
      → (w : Vcpu) × (run_read_pass hv fuel e v ≡ ok (tt, w))
        × ((q : ℕ) → w.guest.ram q ≡ v.guest.ram q)
  unfolding run_read_pass
  run_read_pass_lem zero_start =
      let (w, returns, _, ram) =
        visited code size limit hv laws fuel s e inside _ _ read_gpa v enough (
          read_pass code size (more_rounds s e) _ v.guest.z v.guest.c v.guest.ram refl
            (takes code size limit hv laws fuel s e inside v.guest.x)) in
      (w, rw (← zero_start) returns, λ q. ram q ∙ ground arith)

  -- On a range of guest RAM with aligned words that is not empty, a documented hypervisor and
  -- enough entries and instructions: `run_touch_range`, `run_fill_range` and `run_sweep_range`
  -- return, and have written into the first word of every page of the range its own guest-physical
  -- address, `value`, and what it was plus one modulo 2^64, and nothing else.
  pub run_ranges_lem :
      (value : ℕ)
      → ((w : Vcpu) × (run_touch_range hv fuel s e v ≡ ok (tt, w))
          × ((q : ℕ) → w.guest.ram q ≡ (if is_first_word s e q then q else v.guest.ram q)))
        × ((w : Vcpu) × (run_fill_range hv fuel s e value v ≡ ok (tt, w))
            × ((q : ℕ) → w.guest.ram q ≡ (if is_first_word s e q then value else v.guest.ram q)))
        × ((w : Vcpu) × (run_sweep_range hv fuel s e v ≡ ok (tt, w))
            × ((q : ℕ)
                → w.guest.ram q
                  ≡ (if is_first_word s e q then (v.guest.ram q + 1) % 2 ^ 64 else v.guest.ram q)))
  run_ranges_lem value = (run_touch_range_lem, run_fill_range_lem value, run_sweep_range_lem)
