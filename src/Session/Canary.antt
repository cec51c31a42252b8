-- ===== src/Session/Canary.antt =====
-- The probes of a run of hv-reclaim, `parked_pressure_check` and `hammer_check` of
-- crates/hv-reclaim/src/main.rs, with their canary: the VM stays up, and the canary's memory goes.
use macos_vm_memory_ratchet.Prelude.{
  ℕ, ◌+◌, ◌≡◌, refl, arith, true, false, ◌∷◌, Run, ◌>>=◌, >>=-ok, Returns,
}
use macos_vm_memory_ratchet.Ledger.Pages.{page}
use macos_vm_memory_ratchet.Guest.Programs.{code_gpa, ram_gpa}
use macos_vm_memory_ratchet.Reclaim.Stage2.{within, IsUnmapped}
use macos_vm_memory_ratchet.Session.{
  mmap, munmap, madvise_free, pressure_on, pressure_off, guest, hammer, host_write, host_read,
  History, World, note, arm, parked_pressure_check, hammer_check, canary_size,
}
use macos_vm_memory_ratchet.Session.Rules.{running, held, view, IsHeld, IsBacked, IsGranting}
use macos_vm_memory_ratchet.Session.Bring.{
  IsUp, check->>, note->>, mmap_anon->>=, code-IsBacked, ram-IsBacked, ram-IsHeld,
}

module _ (code size ram c : ℕ) (es : History) (up : IsUp code size running ram es)
    (fresh : (q : ℕ) → within c canary_size q ≡ true → held es q ≡ false) where
  -- The history of an armed canary.
  abbrev pub armed : History
  armed = madvise_free c canary_size ∷ host_write c canary_size ∷ mmap c canary_size ∷ es

  canary-IsHeld : IsHeld (mmap c canary_size ∷ es) c canary_size
  canary-IsHeld q h = ground arith

  canary-IsUnmapped : IsUnmapped (view es) c canary_size
  canary-IsUnmapped q h e = ground (arith, up.seen q, up.kept h, fresh h)

  still-IsHeld : (host len : ℕ) → IsHeld es host len → IsHeld (mmap c canary_size ∷ es) host len
  still-IsHeld host len is q h = ground (arith, is q h)

  still-IsBacked : (gpa len : ℕ) → IsBacked es gpa len → IsBacked (mmap c canary_size ∷ es) gpa len
  still-IsBacked gpa len is q h = let (a, seen, has) = is q h in (a, seen, ground (arith, has))

  pub parked-IsUp :
      (gb : ℕ)
      → IsUp code size running ram (
          munmap c canary_size
          ∷ host_read ram size
          ∷ host_read c canary_size
          ∷ pressure_off
          ∷ pressure_on gb
          ∷ armed)
  parked-IsUp gb = record {
    apart = up.apart;
    stands = up.stands;
    seen = up.seen;
    kept = λ q. ground (arith, up.kept q, fresh q);
    calm = refl;
    sound = (
      (canary-IsHeld, canary-IsUnmapped),
      (
        still-IsHeld ram size (ram-IsHeld code size ram es running up),
        (
          canary-IsHeld,
          (refl, (up.calm, ((canary-IsHeld, canary-IsUnmapped), (canary-IsHeld, (tt, up.sound))))),
        ),
      ),
    );
  }

  pub hammered-IsUp :
      (gb : ℕ)
      → IsUp code size running ram (
          munmap c canary_size
          ∷ host_read ram size
          ∷ host_read c canary_size
          ∷ pressure_off
          ∷ guest hammer 0 size
          ∷ pressure_on gb
          ∷ armed)
  hammered-IsUp gb = record {
    apart = up.apart;
    stands = up.stands;
    seen = up.seen;
    kept = λ q. ground (arith, up.kept q, fresh q);
    calm = refl;
    sound = (
      (canary-IsHeld, canary-IsUnmapped),
      (
        still-IsHeld ram size (ram-IsHeld code size ram es running up),
        (
          canary-IsHeld,
          (
            refl,
            (
              (
                up.stands,
                still-IsBacked code_gpa page (code-IsBacked code size ram es running up),
                still-IsBacked (ram_gpa + 0) size
                    (ram-IsBacked code size ram es running 0 size (omega arith) up),
              ),
              (up.calm, ((canary-IsHeld, canary-IsUnmapped), (canary-IsHeld, (tt, up.sound)))),
            ),
          ),
        ),
      ),
    );
  }

module _ (w : World) (grants : IsGranting w) where
  arm->>= {ℓ} :
      {B : Type ℓ} (n : ℕ) (f : ℕ → Run History B) (es : History)
      → (arm w n >>= f) es
        ≡ f (w.placed es n) (
            madvise_free (w.placed es n) n
            ∷ host_write (w.placed es n) n
            ∷ mmap (w.placed es n) n
            ∷ es)
  unfolding arm note
  arm->>= n f es =
      let p = w.placed es n in
      >>=-ok (arm w n) f es _ p (
        rw (mmap_anon->>= w grants n)
          (rw (note->> w grants (host_write p n)) (rw (check->> w grants (madvise_free p n)) refl)))

  module _ (code size ram : ℕ) (es : History) (up : IsUp code size running ram es) where
    abbrev placed : ℕ
    placed = w.placed es canary_size

    pub parked-Returns :
        (gb : ℕ)
        → Returns (λ _. IsUp code size running ram) (parked_pressure_check w gb size ram es)
    unfolding parked_pressure_check note
    parked-Returns gb = rw (arm->>= canary_size) (
        rw (check->> w grants (pressure_on gb))
          (parked-IsUp code size ram placed es up (grants.fresh es canary_size) gb))

    pub hammer-Returns :
        (gb : ℕ) → Returns (λ _. IsUp code size running ram) (hammer_check w gb size ram es)
    unfolding hammer_check note
    hammer-Returns gb = rw (arm->>= canary_size) (
        rw (check->> w grants (pressure_on gb)) (
          rw (check->> w grants (guest hammer 0 size))
            (hammered-IsUp code size ram placed es up (grants.fresh es canary_size) gb)))
