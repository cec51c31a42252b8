-- ===== src/Session/Whole.antt =====
-- A whole run of hv-reclaim (`main` of crates/hv-reclaim/src/main.rs), from the first mapping to the
-- last release.
use macos_vm_memory_ratchet.Prelude.{
  ℕ, zero, suc, ◌≡◌, refl, arith, Bool, true, false, [], ◌∷◌, none, if◌then◌else◌, pure, ok,
  Returns, Returns->>=, Returns-ok,
}
use macos_vm_memory_ratchet.Ledger.Pages.{page}
use macos_vm_memory_ratchet.Guest.Programs.{code_gpa, ram_gpa}
use macos_vm_memory_ratchet.Reclaim.Stage2.{within}
use macos_vm_memory_ratchet.Options.{Options}
use macos_vm_memory_ratchet.Session.{
  mmap, munmap, write_code_page, hv_vm_create, hv_vm_destroy, hv_vcpu_create, hv_vcpu_set_cpsr,
  hv_vcpu_destroy, hv_vm_map, read_exec, read_write, soaked, matrix, pressure_on, pressure_off,
  History, World, note, demand, press_soak, soak, on_vcpu, with_vcpu, with_vm, main, ram_size_of,
}
use macos_vm_memory_ratchet.Session.Rules.{
  absent, idle, running, stage, held, view, pressed, IsSound, IsGranting,
}
use macos_vm_memory_ratchet.Session.Bring.{
  IsUp, check->>, note->>, mmap_anon->>=, whole-IsBacked, code-IsBacked,
}
use macos_vm_memory_ratchet.Session.Modes.{IsReady, on_vcpu-Returns}

-- Nothing is left of a run, and all of it was allowed.
pub record IsOver (es : History) : Type 0 where
  pub gone : stage es ≡ absent
  pub released : (q : ℕ) → held es q ≡ false
  pub calm : pressed es ≡ false
  pub sound : IsSound es

-- The memory that is to be guest RAM is there, and nothing else.
pub record IsAlone (ram size : ℕ) (es : History) : Type 0 where
  pub no_vm : stage es ≡ absent
  pub unseen : (q : ℕ) → view es q ≡ none
  pub only : (q : ℕ) → held es q ≡ within ram size q
  pub calm : pressed es ≡ false
  pub fair : IsSound es

module _ (code size ram : ℕ) where
  -- The events that bring the VM up, and those that take it down.
  abbrev pub brought : History → History
  brought es =
      hv_vm_map ram ram_gpa size read_write
      ∷ hv_vm_map code code_gpa page read_exec
      ∷ hv_vm_create
      ∷ write_code_page code
      ∷ mmap code page
      ∷ es

  pub brought-IsUp :
      (es : History)
      → IsAlone ram size es
      → ((q : ℕ) → within code page q ≡ true → held es q ≡ false)
      → IsUp code size idle ram (brought es)
  brought-IsUp es alone fresh = record {
    apart = λ q h. ground (arith, fresh q, alone.only q);
    stands = refl;
    seen = λ q. ground arith;
    kept = λ q. ground (arith, alone.only q);
    calm = alone.calm;
    sound = (
      (λ e. cc, λ q h. ground (arith, alone.only q), λ q h. ground arith),
      (
        (λ e. cc, λ q h. ground arith, λ q h. refl),
        (alone.no_vm, (λ q h. ground arith, (tt, alone.fair))),
      ),
    );
  }

  abbrev gone : History → History
  gone es = munmap code page ∷ munmap ram size ∷ hv_vm_destroy ∷ es

  gone-IsOver : (es : History) → IsUp code size idle ram es → IsOver (gone es)
  gone-IsOver es up = record {
    gone = refl;
    released = λ q. ground (arith, up.kept q);
    calm = up.calm;
    sound = (
      (λ q h. ground (arith, up.kept q, up.apart q), λ q h e. cc),
      ((λ q h. ground (arith, up.kept q), λ q h e. cc), (up.stands, up.sound)),
    );
  }

  pub stage-IsUp :
      (es : History)
      → IsUp code size idle ram es
      → IsUp code size running ram (hv_vcpu_set_cpsr ∷ hv_vcpu_create ∷ es)
  stage-IsUp es up = record {
    apart = up.apart;
    stands = refl;
    seen = up.seen;
    kept = up.kept;
    calm = up.calm;
    sound = (refl, (up.stands, up.sound));
  }

  pub destroyed-IsUp :
      (es : History)
      → IsUp code size running ram es
      → IsUp code size idle ram (hv_vcpu_destroy ∷ es)
  destroyed-IsUp es up = record {
    apart = up.apart;
    stands = refl;
    seen = up.seen;
    kept = up.kept;
    calm = up.calm;
    sound = (up.stands, up.sound);
  }

  soaked-IsUp :
      (es : History) → IsUp code size idle ram es → IsUp code size idle ram (soaked ram size ∷ es)
  soaked-IsUp es up = record {
    apart = up.apart;
    stands = up.stands;
    seen = up.seen;
    kept = up.kept;
    calm = up.calm;
    sound = (
      (up.stands, code-IsBacked code size ram es idle up, whole-IsBacked code size ram es idle up),
      up.sound,
    );
  }

module _ (w : World) (grants : IsGranting w) (code size ram : ℕ) where
  -- The pressure beside a soak leaves the VM as it is, and no child.
  press_soak-IsUp :
      (gb left : ℕ) (es : History)
      → IsUp code size idle ram es
      → Returns (λ _. IsUp code size idle ram) (press_soak w gb left es)
  unfolding press_soak
  press_soak-IsUp gb zero es up = up
  press_soak-IsUp gb (suc left) es up = rw (grants.answers es (pressure_on gb)) (
      press_soak-IsUp gb left (pressure_off ∷ pressure_on gb ∷ es) (record {
        apart = up.apart;
        stands = up.stands;
        seen = up.seen;
        kept = up.kept;
        calm = refl;
        sound = (refl, (up.calm, up.sound));
      }))

module _ (w : World) (grants : IsGranting w) (o : Options) (ready : IsReady o) where
  abbrev size : ℕ
  size = ram_size_of o.size_gb

  soak-Returns :
      (code ram : ℕ) (es : History)
      → o.soak ≡ true
      → IsUp code size idle ram es
      → Returns (IsUp code size idle) (soak w o size ram es)
  unfolding soak note demand
  soak-Returns code ram es is up =
      let (slot, accepted) = ready.split is in
      let run = soaked ram size ∷ es in
      rw accepted (
        Returns->>= (λ t. press_soak w o.pressure_gb (w.bursts t) t) (λ _. pure ram)
          (λ _. IsUp code size idle ram) (IsUp code size idle) run
          (press_soak-IsUp w grants code size ram o.pressure_gb (w.bursts run) run
            (soaked-IsUp code size ram es up))
          (λ _ t up'. up'))

  with_vcpu-Returns :
      (code ram : ℕ) (es : History)
      → IsUp code size idle ram es
      → Returns (IsUp code size idle) (with_vcpu w o size ram es)
  unfolding with_vcpu
  with_vcpu-Returns code ram es up =
      let made = hv_vcpu_set_cpsr ∷ hv_vcpu_create ∷ es in
      rw (check->> w grants hv_vcpu_create) (
        rw (check->> w grants hv_vcpu_set_cpsr) (
          Returns->>= (on_vcpu w o size ram) _ (IsUp code size running) (IsUp code size idle) made
            (on_vcpu-Returns w grants code o ready ram made (stage-IsUp code size ram es up))
            (λ ram' t up'.
              rw (check->> w grants hv_vcpu_destroy) (destroyed-IsUp code size ram' t up'))))

  with_vm-Returns : Returns (λ _. IsOver) (with_vm w o size [])
  unfolding with_vm note
  with_vm-Returns =
      let ram = w.placed [] size in
      let one = mmap ram size ∷ [] in
      let code = w.placed one page in
      let alone : IsAlone ram size one = record {
        no_vm = refl;
        unseen = λ q. refl;
        only = λ q. ground arith;
        calm = refl;
        fair = (tt, tt);
      } in
      let up = brought-IsUp code size ram one alone (grants.fresh one page) in
      rw (mmap_anon->>= w grants size) (
        rw (mmap_anon->>= w grants page) (
          rw (note->> w grants (write_code_page code)) (
            rw (check->> w grants hv_vm_create) (
              rw (check->> w grants (hv_vm_map code code_gpa page read_exec)) (
                rw (check->> w grants (hv_vm_map ram ram_gpa size read_write)) (
                  Returns->>= (if o.soak then soak w o size ram else with_vcpu w o size ram) _
                    (IsUp code size idle) (λ _. IsOver) (brought code size ram one)
                    (inside code ram (brought code size ram one) up o.soak refl)
                    (λ ram' t up'.
                      rw (check->> w grants hv_vm_destroy) (gone-IsOver code size ram' t up'))))))))
    where
      inside :
          (code ram : ℕ) (es : History)
          → IsUp code size idle ram es
          → (b : Bool) → o.soak ≡ b
          → Returns
              (IsUp code size idle)
              ((if b then soak w o size ram else with_vcpu w o size ram) es)
      inside code ram es up true is = soak-Returns code ram es is up
      inside code ram es up false is = with_vcpu-Returns code ram es up

  -- On a system that grants every call, a run of hv-reclaim with any options but the trap's, of
  -- which an `--extent-kb` in use divides the RAM, a fleet in use fits in it without overflow and a
  -- soak in use has no more vCPUs than the RAM can be split between, returns with no VM, no host
  -- memory and no pressure child left. On the way each pass of the guest, and the soak, found the
  -- VM up with its code and every page it goes over on memory that the process held, nothing was
  -- unmapped, read or written by the host that was not there, and no host memory was handed to the
  -- kernel while a guest address led to it.
  pub main_lem : (after : History) × (main w o [] ≡ ok (tt, after)) × IsOver after
  unfolding main note
  main_lem = (Returns-ok (λ _. IsOver) (main w o []) (both o.alloc_shape)).1
    where
      both :
          (b : Bool)
          → Returns (λ _. IsOver) ((if b then note w (matrix o.size_gb) else with_vm w o size) [])
      both true = record { gone = refl; released = λ q. refl; calm = refl; sound = (refl, tt) }
      both false = with_vm-Returns
