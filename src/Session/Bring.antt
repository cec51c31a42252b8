-- ===== src/Session/Bring.antt =====
-- What holds while hv-reclaim's VM is up (crates/hv-reclaim/src/main.rs), and that the calls of
-- `main` outside the reclaim sequences keep it.
use macos_vm_memory_ratchet.Prelude.{
  ℕ, ◌+◌, ◌-◌, ◌≤◌, ◌≡◌, refl, inl, inr, arith, true, false, ◌||◌, ◌∷◌, ◌==◌, Option, none, some,
  if◌then◌else◌, ok, Run, ◌>>=◌, ◌>>◌, Bool-cases, >>=-ok, Returns,
}
use macos_vm_memory_ratchet.Ledger.Pages.{page}
use macos_vm_memory_ratchet.Guest.Programs.{code_gpa, ram_gpa}
use macos_vm_memory_ratchet.Reclaim.Stage2.{within, IsUnmapped, IsLinear}
use macos_vm_memory_ratchet.Session.{
  Event, mmap, munmap, hv_vm_map, hv_vm_unmap, guest, host_write, host_read, Pass, read_write,
  History, World, note, check, mmap_anon, reset,
}
use macos_vm_memory_ratchet.Session.Rules.{
  Stage, running, stage, held, view, pressed, IsHeld, IsBacked, IsSound, IsGranting,
}

-- The guest's memory as `main` lays it out.
abbrev pub layout : ℕ → ℕ → ℕ → ℕ → Option ℕ
layout code ram size q =
    if within ram_gpa size q
    then some (ram + (q - ram_gpa))
    else if within code_gpa page q
    then some (code + (q - code_gpa))
    else none

-- The VM is up at the given stage, with guest RAM on the `size` bytes at `ram`, its code on the page
-- at `code`, no other memory of the process and no pressure, and all that has happened was allowed.
pub record IsUp (code size : ℕ) (at : Stage) (ram : ℕ) (es : History) : Type 0 where
  pub apart : (q : ℕ) → within ram size q ≡ true → within code page q ≡ false
  pub stands : stage es ≡ at
  pub seen : (q : ℕ) → view es q ≡ layout code ram size q
  pub kept : (q : ℕ) → held es q ≡ (within ram size q || within code page q)
  pub calm : pressed es ≡ false
  pub sound : IsSound es

module _ (w : World) (grants : IsGranting w) where
  pub check_lem : (e : Event) (es : History) → check w e es ≡ ok (tt, e ∷ es)
  unfolding check
  check_lem e es = rw (grants.answers es e)

  mmap_anon_lem :
      (size : ℕ) (es : History)
      → mmap_anon w size es ≡ ok (w.placed es size, mmap (w.placed es size) size ∷ es)
  unfolding mmap_anon
  mmap_anon_lem size es = elim (Bool-cases (w.placed es size == w.map_failed)) [
    | inl failed ↦ absurd (grants.placed es size (ground arith))
    | inr placed ↦ rw placed
  ]

  pub note->> {ℓ} :
      {B : Type ℓ} (e : Event) (f : Run History B) (es : History) → (note w e >> f) es ≡ f (e ∷ es)
  unfolding note
  note->> e f es = refl

  -- A granted call goes on.
  pub check->> {ℓ} :
      {B : Type ℓ} (e : Event) (f : Run History B) (es : History) → (check w e >> f) es ≡ f (e ∷ es)
  check->> e f es = >>=-ok (check w e) (λ _. f) es (e ∷ es) tt (check_lem e es)

  pub mmap_anon->>= {ℓ} :
      {B : Type ℓ} (size : ℕ) (f : ℕ → Run History B) (es : History)
      → (mmap_anon w size >>= f) es ≡ f (w.placed es size) (mmap (w.placed es size) size ∷ es)
  mmap_anon->>= size f es = >>=-ok (mmap_anon w size) f es _ _ (mmap_anon_lem size es)

module _ (code size ram : ℕ) (es : History) where
  pub IsUp-IsLinear : (at : Stage) → IsUp code size at ram es → IsLinear ram size (view es)
  IsUp-IsLinear at up = record {
    inside = λ q lo hi. ground (arith, up.seen q);
    outside = λ q h e. ground (arith, up.seen q, up.apart h);
  }

  pub ram-IsHeld : (at : Stage) → IsUp code size at ram es → IsHeld es ram size
  ram-IsHeld at up q h = ground (arith, up.kept q)

  pub ram-IsBacked :
      (at : Stage) (from len : ℕ)
      → from + len ≤ size
      → IsUp code size at ram es
      → IsBacked es (ram_gpa + from) len
  ram-IsBacked at from len fits up q h = (
    ram + (q - ram_gpa),
    ground (arith, up.seen q),
    ground (arith, up.kept (ram + (q - ram_gpa))),
  )

  pub whole-IsBacked : (at : Stage) → IsUp code size at ram es → IsBacked es ram_gpa size
  whole-IsBacked at up q h = (
    ram + (q - ram_gpa),
    ground (arith, up.seen q),
    ground (arith, up.kept (ram + (q - ram_gpa))),
  )

  pub code-IsBacked : (at : Stage) → IsUp code size at ram es → IsBacked es code_gpa page
  code-IsBacked at up q h = (
    code + (q - code_gpa),
    ground (arith, up.seen q),
    ground (arith, up.kept (code + (q - code_gpa))),
  )

  pub guest-IsUp :
      (pass : Pass) (from len : ℕ)
      → from + len ≤ size
      → IsUp code size running ram es
      → IsUp code size running ram (guest pass from len ∷ es)
  guest-IsUp pass from len fits up = record {
    apart = up.apart;
    stands = up.stands;
    seen = up.seen;
    kept = up.kept;
    calm = up.calm;
    sound =
        ((up.stands, code-IsBacked running up, ram-IsBacked running from len fits up), up.sound);
  }

  pub host_write-IsUp :
      IsUp code size running ram es → IsUp code size running ram (host_write ram size ∷ es)
  host_write-IsUp up = record {
    apart = up.apart;
    stands = up.stands;
    seen = up.seen;
    kept = up.kept;
    calm = up.calm;
    sound = (ram-IsHeld running up, up.sound);
  }

  pub host_read-IsUp :
      IsUp code size running ram es → IsUp code size running ram (host_read ram size ∷ es)
  host_read-IsUp up = record {
    apart = up.apart;
    stands = up.stands;
    seen = up.seen;
    kept = up.kept;
    calm = up.calm;
    sound = (ram-IsHeld running up, up.sound);
  }

  -- The history of a reset that got the memory at `p`.
  abbrev resets : ℕ → History
  resets p =
      hv_vm_map p ram_gpa size read_write
      ∷ mmap p size
      ∷ munmap ram size
      ∷ hv_vm_unmap ram_gpa size
      ∷ es

  reset-IsUp :
      (p : ℕ)
      → ((q : ℕ)
          → within p size q ≡ true
          → held (munmap ram size ∷ hv_vm_unmap ram_gpa size ∷ es) q ≡ false)
      → IsUp code size running ram es
      → IsUp code size running p (resets p)
  reset-IsUp p fresh up = record {
    apart = λ q h. ground (arith, fresh q, up.kept q, up.apart q);
    stands = up.stands;
    seen = λ q. ground (arith, up.seen q);
    kept = λ q. ground (arith, up.kept q, up.apart q);
    calm = up.calm;
    sound = (
      (λ e. cc (up.stands), λ q h. ground arith, λ q h. ground arith),
      (
        tt,
        (
          (λ q h. ram-IsHeld running up q h, unreachable),
          ((λ e. cc (up.stands), whole-IsBacked running up), up.sound),
        ),
      ),
    );
  }
    where
      unreachable : IsUnmapped (view (hv_vm_unmap ram_gpa size ∷ es)) ram size
      unreachable q h e = ground (arith, up.seen q, up.apart h)

module _ (w : World) (grants : IsGranting w) (code size : ℕ) where
  pub reset-Returns :
      (ram : ℕ) (es : History)
      → IsUp code size running ram es
      → Returns (IsUp code size running) (reset w size ram es)
  unfolding reset note
  reset-Returns ram es up =
      let a = munmap ram size ∷ hv_vm_unmap ram_gpa size ∷ es in
      let p = w.placed a size in
      rw (check->> w grants (hv_vm_unmap ram_gpa size)) (
        rw (mmap_anon->>= w grants size) (
          rw (check->> w grants (hv_vm_map p ram_gpa size read_write))
            (reset-IsUp code size ram es p (grants.fresh a size) up)))
