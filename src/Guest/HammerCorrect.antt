-- ===== src/Guest/HammerCorrect.antt =====
-- What `run_hammer` of crates/hv-reclaim/src/guest.rs does: sweep after sweep, until the callback
-- says stop.
use macos_vm_memory_ratchet.Prelude.{
  ℕ, zero, suc, ◌+◌, ◌*◌, ◌%◌, ◌^◌, ◌≤◌, ◌<◌, ◌≡◌, ◌≢◌, ◌∙◌, refl, ap, arith, Bool, true, false, ok,
  ◌>>=◌, inl, inr, if◌then◌else◌,
}
use macos_vm_memory_ratchet.Guest.Isa.{Guest, Mapping, update}
use macos_vm_memory_ratchet.Guest.Programs.{ram_gpa, doorbell_gpa, hammer_gpa}
use macos_vm_memory_ratchet.Guest.Sweep.{sweep}
use macos_vm_memory_ratchet.Guest.Turns.{vm, at}
use macos_vm_memory_ratchet.Guest.Hypervisor.{Hypervisor, IsDocumented, hv_exit_reason_canceled}
use macos_vm_memory_ratchet.Guest.Host
use macos_vm_memory_ratchet.Guest.Host.{Vcpu, hammer_loop, after_sweep, run_hammer}
use macos_vm_memory_ratchet.Guest.Rings.{Rings, run_to_doorbell_lem}
use macos_vm_memory_ratchet.Guest.Hammer.{Sweeps, hammer_sweep, hammer_resweep, bump}
use macos_vm_memory_ratchet.Guest.Loop.{Takes}
use macos_vm_memory_ratchet.Guest.Enter.{
  more_rounds, IsRange, is_first_word, Takes-IsRange, set_x_lem, set_pc_lem, read_x_lem,
  read_pc_lem,
}
use macos_vm_memory_ratchet.Guest.Correct.{sweep-range, Rings-mono}

module _ {ℓ} {S : Type ℓ} (keep_going : ℕ → S → Bool × S) where
  -- From the completed sweep `n` on, the callback asks for `j` more and then stops, leaving its state
  -- as `t`.
  abbrev pub Asks : ℕ → ℕ → S → S → Type ℓ
  Asks zero n s t = ((keep_going n s).0 ≡ false) × ((keep_going n s).1 ≡ t)
  Asks (suc j) n s t = ((keep_going n s).0 ≡ true) × Asks j (n + 1) (keep_going n s).1 t

  module _ (hv : Hypervisor) (m : Mapping) (limit : ℕ) (laws : IsDocumented m limit hv) where
    -- Past canceled runs to the end of the sweep.
    hammer_loop-after_sweep :
        (fuel late : ℕ) (s : S) (v : Vcpu) (t : Guest)
        → Rings m limit v.guest t
        → ((g : Guest) → (hv.hv_vcpu_run late g).1.reason ≢ hv_exit_reason_canceled)
        → v.calls ≤ late
        → late < v.calls + fuel
        → (calls left : ℕ) × (v.calls + fuel ≡ calls + left)
          × (calls ≤ late + 1)
          × (hammer_loop hv keep_going fuel s v
              ≡ after_sweep hv keep_going
                  (hammer_loop hv keep_going left)
                  s
                  (record { guest = t; calls = calls }))
    unfolding hammer_loop
    hammer_loop-after_sweep zero late s v t rings settled le lt = absurd (omega arith)
    hammer_loop-after_sweep (suc fuel) late s v t rings settled le lt =
        elim (run_to_doorbell_lem hv m limit laws v t rings) [
          | inl rang ↦ (v.calls + 1, fuel, omega arith, omega arith, rw (rang, Host.hammer_loop))
          | inr (u, rest, e, why) ↦
              let early : v.calls ≢ late = λ same. settled v.guest (rw (← same) why) in
              let (calls, left, sum, above, returns) =
                hammer_loop-after_sweep fuel late s (record { guest = u; calls = v.calls + 1 }) t
                  rest settled (omega (arith, early)) (omega arith) in
              (calls, left, omega (arith, sum), above, rw (e, Host.hammer_loop) returns)
        ]

    -- The callback's answer: stop, or step past the doorbell store and go on.
    after_sweep_stop :
        (again : S → Host.Vcpu → _) (n : ℕ) (s t : S) (v : Vcpu)
        → v.guest.x 4 ≡ n
        → Asks 0 n s t
        → after_sweep hv keep_going again s v ≡ ok ((n, t), v)
    unfolding after_sweep
    after_sweep_stop again n s t v e (no_more, last) =
        rw (read_x_lem hv m limit laws 4 v (omega arith) (omega arith), ◌>>=◌)
          (rw e (rw no_more (rw last)))

    after_sweep_again :
        (again : S → Host.Vcpu → _) (n : ℕ) (s : S) (v : Vcpu)
        → v.guest.x 4 ≡ n
        → (keep_going n s).0 ≡ true
        → after_sweep hv keep_going again s v
          ≡ again
              (keep_going n s).1
              (record v { guest = record (v.guest) { pc = (v.guest.pc + 4) % 2 ^ 64 } })
    unfolding after_sweep
    after_sweep_again again n s v e more =
        rw (read_x_lem hv m limit laws 4 v (omega arith) (omega arith), ◌>>=◌)
          (rw e (
            rw more (
              rw (read_pc_lem hv m limit laws v, ◌>>=◌)
                (rw (set_pc_lem hv m limit laws _ v, ◌>>=◌)))))

module _ {ℓ} {S : Type ℓ} (keep_going : ℕ → S → Bool × S) (code : ℕ → ℕ) (size limit : ℕ)
    (hv : Hypervisor) (laws : IsDocumented (vm code size) limit hv) (inside : IsRange size 0 size)
    (short : suc (more_rounds 0 size) * 7 + 3 ≤ limit) (patience : ℕ)
    (patient : (i : ℕ) → laws.settles i ≤ i + patience) where
  -- The registers that a sweep finds: the end of RAM, the doorbell and the base.
  record IsArmed (x : ℕ → ℕ) : Type 0 where
    end : x 2 ≡ ram_gpa + size
    bell : x 3 ≡ doorbell_gpa
    base : x 6 ≡ ram_gpa

  whole : (x : ℕ → ℕ) → IsArmed x → Takes size (more_rounds 0 size) (update x 1 (x 6))
  whole x a = Takes-IsRange size 0 size _ inside (omega (arith, a.base)) (omega (arith, a.end))

  abbrev rounds_of : ℕ
  rounds_of = suc (more_rounds 0 size)

  -- The words of RAM after `k` more sweeps.
  abbrev swept_times : ℕ → (ℕ → ℕ) → ℕ → ℕ
  swept_times k ram q = if is_first_word 0 size q then (ram q + k) % 2 ^ 64 else ram q

  once :
      (x ram after : ℕ → ℕ) (q : ℕ)
      → IsArmed x
      → after ≡ sweep bump (x 6) rounds_of ram
      → after q ≡ swept_times 1 ram q
  once x ram after q a e =
      ap (λ f. f q) e
      ∙ (ap (λ b. sweep bump b rounds_of ram q) (a.base ∙ omega arith)
          ∙ sweep-range bump size 0 size q ram inside)

  -- From a guest that is about to sweep for the `n`-th time.
  sweeping :
      (j n fuel : ℕ) (s t : S) (v : Vcpu)
      → Asks keep_going j n s t
      → Sweeps (vm code size) limit rounds_of v.guest
      → IsArmed v.guest.x
      → v.guest.x 4 + 1 ≡ n
      → n + j < 2 ^ 64
      → suc j * (patience + 1) ≤ fuel
      → (w : Vcpu) × (hammer_loop hv keep_going fuel s v ≡ ok ((n + j, t), w))
        × ((q : ℕ) → w.guest.ram q ≡ swept_times (suc j) v.guest.ram q)
  sweeping zero n fuel s t v asks sw armed e4 small enough =
      let (calls, left, sum, above, returns) =
        hammer_loop-after_sweep keep_going hv (vm code size) limit laws fuel (laws.settles v.calls)
          s v sw.stop sw.rings (laws.settled v.calls) (laws.settles_later v.calls)
          (omega (arith, patient v.calls)) in
      (
        record { guest = sw.stop; calls = calls },
        returns
            ∙ (after_sweep_stop keep_going hv (vm code size) limit laws _ n s t _
                  (omega (arith, sw.x4)) asks
                ∙ ap (λ (f : ℕ). ok ((f, t), record { guest = sw.stop; calls = calls }))
                    (omega arith)),
        λ q. once v.guest.x v.guest.ram sw.stop.ram q armed sw.ram,
      )
  sweeping (suc j) n fuel s t v (more, rest) sw armed e4 small enough =
      let (calls, left, sum, above, returns) =
        hammer_loop-after_sweep keep_going hv (vm code size) limit laws fuel (laws.settles v.calls)
          s v sw.stop sw.rings (laws.settled v.calls) (laws.settles_later v.calls)
          (omega (arith, patient v.calls)) in
      let g : Guest = at (hammer_gpa + 36) sw.stop.x sw.stop.z sw.stop.c sw.stop.ram in
      let armed' : IsArmed sw.stop.x = record {
        end = sw.x2 ∙ armed.end;
        bell = sw.x3 ∙ armed.bell;
        base = sw.x6 ∙ armed.base;
      } in
      let again =
        hammer_resweep code size (more_rounds 0 size) sw.stop.x sw.stop.z sw.stop.c sw.stop.ram
          armed'.bell (whole sw.stop.x armed') in
      let (w, ends, ram) =
        sweeping j (n + 1) left (keep_going n s).1 t (record { guest = g; calls = calls }) rest
          (record {
            stop = again.stop;
            rings = Rings-mono short again.rings;
            pc_lem = again.pc_lem;
            x2 = again.x2;
            x3 = again.x3;
            x4 = again.x4;
            x6 = again.x6;
            ram = again.ram;
          })
          armed' (omega (arith, sw.x4)) (omega arith) (omega (arith, patient v.calls)) in
      (
        w,
        returns
            ∙ (after_sweep_again keep_going hv (vm code size) limit laws _ n s _
                  (omega (arith, sw.x4)) more
                ∙ (ap
                      (λ (p : ℕ). hammer_loop hv keep_going left (keep_going n s).1 (record {
                        guest = at p sw.stop.x sw.stop.z sw.stop.c sw.stop.ram;
                        calls = calls;
                      }))
                      (omega (arith, sw.pc_lem))
                    ∙ (ends ∙ ap (λ (f : ℕ). ok ((f, t), w)) (omega arith)))),
        λ q. ram q ∙ twice q (once v.guest.x v.guest.ram sw.stop.ram q armed sw.ram),
      )
    where
      twice :
          (q : ℕ)
          → sw.stop.ram q ≡ swept_times 1 v.guest.ram q
          → swept_times (suc j) sw.stop.ram q ≡ swept_times (suc (suc j)) v.guest.ram q
      twice q e = ground arith

  -- On a documented hypervisor that is never canceled more than `patience` times in a row, with RAM
  -- not empty and enough entries and instructions: if the callback asks for another sweep after
  -- each of the first `j` and stops at the next, then `run_hammer` returns `j + 1`, and the first
  -- word of every page of RAM has gone up by just that, modulo 2^64, and nothing else has changed.
  pub run_hammer_lem :
      (j fuel : ℕ) (s t : S) (v : Vcpu)
      → Asks keep_going j 1 s t
      → 1 + j < 2 ^ 64
      → suc j * (patience + 1) ≤ fuel
      → (w : Vcpu) × (run_hammer hv keep_going fuel size s v ≡ ok ((1 + j, t), w))
        × ((q : ℕ)
            → w.guest.ram q ≡ (
                if is_first_word 0 size q then (v.guest.ram q + suc j) % 2 ^ 64 else v.guest.ram q))
  unfolding run_hammer
  run_hammer_lem j fuel s t v asks small enough =
      let x : ℕ → ℕ =
        update (update (update (update v.guest.x 2 ((ram_gpa + size) % 2 ^ 64)) 3 doorbell_gpa) 4 0)
          6 ram_gpa in
      let armed : IsArmed x = record {
        end = omega (arith, inside.no_wrap);
        bell = refl;
        base = refl;
      } in
      let first =
        hammer_sweep code size (more_rounds 0 size) x v.guest.z v.guest.c v.guest.ram refl
          (whole x armed) in
      let (w, ends, ram) =
        sweeping j 1 fuel s t (record v { guest = at hammer_gpa x v.guest.z v.guest.c v.guest.ram })
          asks
          (record {
            stop = first.stop;
            rings = Rings-mono (omega (arith, short)) first.rings;
            pc_lem = first.pc_lem;
            x2 = first.x2;
            x3 = first.x3;
            x4 = first.x4;
            x6 = first.x6;
            ram = first.ram;
          })
          armed refl small enough in
      (
        w,
        rw (set_pc_lem hv (vm code size) limit laws, ◌>>=◌)
            (rw (set_x_lem hv (vm code size) limit laws 2 _ _ (omega arith) (omega arith), ◌>>=◌)
              (rw (set_x_lem hv (vm code size) limit laws 3 _ _ (omega arith) (omega arith), ◌>>=◌)
                (rw
                  (set_x_lem hv (vm code size) limit laws 4 _ _ (omega arith) (omega arith), ◌>>=◌)
                  (rw
                    (
                      set_x_lem hv (vm code size) limit laws 6 _ _ (omega arith) (omega arith),
                      ◌>>=◌,
                    )
                    ends)))),
        ram,
      )
