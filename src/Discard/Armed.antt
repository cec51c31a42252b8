-- ===== src/Discard/Armed.antt =====
-- The buffers of crates/pressure-discard/src/main.rs from the first call to the end of the
-- pressure, on a system that grants every call.
use macos_vm_memory_ratchet.Prelude.{
  ℕ, ◌+◌, ◌<◌, ◌^◌, ◌≡◌, refl, ap, ◌∙◌, inl, inr, arith, true, false, List, [], ◌∷◌, ◌++◌, fun_ext,
  bit_xor, if◌then◌else◌, Bool-cases, ok, >>=-ok,
}
use macos_vm_memory_ratchet.Ledger.Pages.{contains, write_each_at}
use macos_vm_memory_ratchet.Ledger.Canary.{pattern}
use macos_vm_memory_ratchet.Ledger.Pressure.{
  Step, spawned, killed, reaped, apply_lem, guard, apply, drop,
}
use macos_vm_memory_ratchet.Options.{madv_free}
use macos_vm_memory_ratchet.Discard.{size, fill}
use macos_vm_memory_ratchet.Discard.Counting.{offs, Marked, Thinned, contains-size}
use macos_vm_memory_ratchet.Discard.Host.{
  Call, mapped, advised, Host, System, within, started, buffer_at, put, mmap_anon, madvise,
  write_buffer, sleep,
}
use macos_vm_memory_ratchet.Discard.Laws.{
  IsGranting, mmap_anon-ok, madvise-ok, put-inside, put-outside,
}
use macos_vm_memory_ratchet.Discard.Control.{
  expect, start_pressure, drop_guard, marked_buffers, press,
}

module _ (sys : System) (grants : IsGranting sys) where
  -- The two buffers.
  abbrev pub buffer_a : ℕ
  buffer_a = sys.mmap [] size

  abbrev pub buffer_b : ℕ
  buffer_b = sys.mmap (mapped buffer_a size ∷ []) size

  abbrev pub both : List Call
  both = mapped buffer_b size ∷ mapped buffer_a size ∷ []

  abbrev pub marked_free : List Call
  marked_free = advised buffer_a size madv_free ∷ both

  fill-at :
      (words : ℕ → ℕ) (off : ℕ)
      → contains offs off ≡ true
      → fill words size off ≡ bit_xor pattern off
  unfolding fill
  fill-at words off e =
      write_each_at (bit_xor pattern) offs words off ∙ (rw (e, if◌then◌else◌) refl)

  -- The ranges lie apart.
  pub b_apart : (off : ℕ) → off < size → within buffer_a size (buffer_b + off) ≡ false
  b_apart off lt = elim (Bool-cases (within buffer_a size (buffer_b + off))) [
    | inl e ↦
        absurd (ground (arith, grants.apart (mapped buffer_a size ∷ []) size (buffer_b + off), e))
    | inr e ↦ e
  ]

  pub a_apart : (off : ℕ) → off < size → within buffer_b size (buffer_a + off) ≡ false
  a_apart off lt = ground (arith, grants.apart (mapped buffer_a size ∷ []) size (buffer_a + off))

  -- The first buffer marked, the second dirty, and what has become of the child.
  pub record IsArmed (steps : List Step) (h : Host) : Type 0 where
    pub calls_lem : h.calls ≡ marked_free
    pub child_lem : h.child ≡ steps
    pub thinned : Thinned h.words buffer_a
    pub marked : Marked h.words buffer_b

  sleep-IsArmed :
      (steps : List Step) (ms : ℕ) (h : Host)
      → IsArmed steps h
      → IsArmed steps (record h { words = sys.later h ms })
  sleep-IsArmed steps ms h armed = record {
    calls_lem = armed.calls_lem;
    child_lem = armed.child_lem;
    thinned = λ off e. ground (arith, armed.thinned off e, grants.frees h ms (buffer_a + off));
    marked = λ off e.
        grants.keeps h ms (buffer_b + off)
          (rw (armed.calls_lem) (ground (arith, b_apart off (contains-size off e))))
        ∙ armed.marked off e;
  }

  child-IsArmed :
      (steps after : List Step) (h : Host)
      → IsArmed steps h
      → IsArmed after (record h { child = after })
  child-IsArmed steps after h armed = record {
    calls_lem = armed.calls_lem;
    child_lem = refl;
    thinned = armed.thinned;
    marked = armed.marked;
  }

  module _ (words : ℕ → ℕ) where
    fresh_a : ℕ → ℕ
    fresh_a = put words buffer_a size (λ _. 0)

    fresh_b : ℕ → ℕ
    fresh_b = put fresh_a buffer_b size (λ _. 0)

    full_a : ℕ → ℕ
    full_a = put fresh_b buffer_a size (fill (buffer_at fresh_b buffer_a) size)

    pub full_b : ℕ → ℕ
    full_b = put full_a buffer_b size (fill (buffer_at full_a buffer_b) size)

    -- The process with the buffers marked.
    abbrev pub armed : Host
    armed = record { words = full_b; calls = marked_free; child = [] }

    pub marked_buffers-armed : marked_buffers sys (started words) ≡ ok ((buffer_a, buffer_b), armed)
    unfolding marked_buffers write_buffer full_b full_a fresh_b fresh_a
    marked_buffers-armed =
        >>=-ok (mmap_anon sys size) _ (started words) _ buffer_a
          (mmap_anon-ok sys grants size (started words))
        ∙ >>=-ok (mmap_anon sys size) _ _ _ buffer_b (
            mmap_anon-ok sys grants size
              (record { words = fresh_a; calls = mapped buffer_a size ∷ []; child = [] }))
        ∙ >>=-ok (madvise sys "madvise(MADV_FREE) failed" buffer_a size madv_free) _ _ armed tt (
            madvise-ok sys grants "madvise(MADV_FREE) failed" buffer_a size madv_free
              (record { words = full_b; calls = both; child = [] }))

    pub armed-IsArmed : IsArmed [] armed
    unfolding full_b full_a
    armed-IsArmed = record {
      calls_lem = refl;
      child_lem = refl;
      thinned = λ off e. inl (
          let lt = contains-size off e in
          put-outside full_a buffer_b size (fill (buffer_at full_a buffer_b) size) (buffer_a + off)
            (a_apart off lt)
          ∙ put-inside fresh_b buffer_a size (fill (buffer_at fresh_b buffer_a) size) off lt
          ∙ fill-at (buffer_at fresh_b buffer_a) off e);
      marked = λ off e.
          put-inside full_a buffer_b size (fill (buffer_at full_a buffer_b) size) off
            (contains-size off e)
          ∙ fill-at (buffer_at full_a buffer_b) off e;
    }

  start_pressure-ok :
      (gb : ℕ) (h : Host)
      → gb < 2 ^ 64
      → start_pressure sys gb h ≡ ok (tt, record h { child = h.child ++ spawned ∷ [] })
  unfolding start_pressure
  start_pressure-ok gb h lt =
      let e : apply sys.exe sys.spawn gb ≡ (guard, spawned ∷ []) =
        rw (grants.exe_lem, fun_ext grants.spawns) (apply_lem sys.chunk gb lt).0 in
      ap (λ r. expect r h) e

  abbrev pub pressed_child : List Step
  pressed_child = spawned ∷ killed ∷ reaped ∷ []

  pub press-ok :
      (gb : ℕ) (words : ℕ → ℕ)
      → gb < 2 ^ 64
      → IsArmed [] (armed words)
      → (t : Host) × (press sys gb (armed words) ≡ ok (tt, t))
        × (t.calls ≡ marked_free)
        × IsArmed pressed_child t
  unfolding press drop_guard sleep drop
  press-ok gb words lt is =
      let h1 = record (armed words) { child = spawned ∷ [] } in
      let h2 = record h1 { words = sys.later h1 8000 } in
      let h3 = record h2 { child = pressed_child } in
      (
        record h3 { words = sys.later h3 2000 },
        >>=-ok (start_pressure sys gb) _ (armed words) h1 tt
            (start_pressure-ok gb (armed words) lt),
        refl,
        sleep-IsArmed pressed_child 2000 h3 (
            child-IsArmed (spawned ∷ []) pressed_child h2 (
              sleep-IsArmed (spawned ∷ []) 8000 h1
                (child-IsArmed [] (spawned ∷ []) (armed words) is))),
      )
