-- ===== src/Discard/Discarded.antt =====
-- What pressure-discard reports on a system that grants every call (`main` of
-- crates/pressure-discard/src/main.rs).
use macos_vm_memory_ratchet.Prelude.{
  ℕ, ◌+◌, ◌/◌, ◌<◌, ◌^◌, ◌≡◌, refl, ap, ◌∙◌, arith, List, [], ◌∷◌, none, ◌==◌, ok, >>=-ok,
}
use Prim.Native.String.{String}
use macos_vm_memory_ratchet.Ledger.Pages.{page, step_by, count}
use macos_vm_memory_ratchet.Ledger.Pressure.{maybe_run_generator, spawned, killed, reaped}
use macos_vm_memory_ratchet.Options.{madv_free}
use macos_vm_memory_ratchet.Ledger.Reading.{assert_host_page_size}
use macos_vm_memory_ratchet.Discard.{size, survey}
use macos_vm_memory_ratchet.Discard.Counting.{
  offs, is_zero, count_not, survey-Thinned, survey-Marked, pages_lem,
}
use macos_vm_memory_ratchet.Discard.Host.{
  mapped, advised, unmapped, Host, System, held, started, buffer_at, read_ledger,
}
use macos_vm_memory_ratchet.Discard.Laws.{IsGranting, read_ledger-ok}
use macos_vm_memory_ratchet.Discard.Armed
use macos_vm_memory_ratchet.Discard.Armed.{IsArmed, armed-IsArmed, marked_buffers-armed, press-ok}
use macos_vm_memory_ratchet.Discard.Control.{
  Report, surveyed, pressure_gb_of, survey_buffer, munmap, lift, marked_buffers, press, report,
  control, main,
}

held_none :
    (p q : ℕ)
    → held (
        unmapped q size
        ∷ unmapped p size
        ∷ advised p size madv_free
        ∷ mapped q size
        ∷ mapped p size
        ∷ [])
      ≡ []
held_none p q = ground arith

module _ (sys : System) (grants : IsGranting sys) where
  abbrev a : ℕ
  a = Armed.buffer_a sys grants

  abbrev b : ℕ
  b = Armed.buffer_b sys grants

  munmap-ok :
      (at : ℕ) (h : Host)
      → munmap sys at h ≡ ok (tt, record h { calls = unmapped at size ∷ h.calls })
  unfolding munmap
  munmap-ok at h = rw (grants.unmaps h.calls at size) refl

  abbrev counted : (ℕ → ℕ) → Report
  counted words = record {
    a = survey (buffer_at words a) size;
    b = survey (buffer_at words b) size;
    pages = size / page;
  }

  abbrev left : Host → Host
  left t = record t { calls = unmapped b size ∷ unmapped a size ∷ t.calls }

  report-ok : (t : Host) → report sys a b t ≡ ok (counted t.words, left t)
  unfolding report survey_buffer
  report-ok t =
      let t1 = record t { calls = unmapped a size ∷ t.calls } in
      >>=-ok (munmap sys a) _ t t1 tt (munmap-ok a t)
      ∙ >>=-ok (munmap sys b) _ t1 (left t) tt (munmap-ok b t1)

  control-ok :
      (gb : ℕ) (words : ℕ → ℕ)
      → gb < 2 ^ 64
      → (t : Host) × (control sys gb (started words) ≡ ok (counted t.words, left t))
        × (t.calls ≡ Armed.marked_free sys grants)
        × IsArmed sys grants (Armed.pressed_child sys grants) t
  unfolding control
  control-ok gb words lt =
      let (t, pressed, calls, is) =
        press-ok sys grants gb words lt (armed-IsArmed sys grants words) in
      let (l, _, reading) = read_ledger-ok sys grants (Armed.armed sys grants words) in
      let (m, _, again) = read_ledger-ok sys grants t in
      (
        t,
        >>=-ok (marked_buffers sys) _ (started words) (Armed.armed sys grants words) (a, b)
              (marked_buffers-armed sys grants words)
            ∙ >>=-ok (read_ledger sys) _ (Armed.armed sys grants words)
                (Armed.armed sys grants words) l reading
            ∙ >>=-ok (press sys gb) _ (Armed.armed sys grants words) t tt pressed
            ∙ >>=-ok (read_ledger sys) _ t t m again
            ∙ report-ok t,
        calls,
        is,
      )

  -- On a system that grants every call, with a number of GiB that the arguments give and a usize
  -- holds: the program ends with its report and no buffer mapped, and its pressure child has been
  -- killed and reaped. The report finds all 65536 pages of the plain dirty buffer intact; of the
  -- buffer that was advised MADV_FREE it counts every page as intact or as discarded, and as
  -- discarded just those that read zero at the end. Memory in no range that was advised MADV_FREE
  -- keeps its words, a word that is in one may become zero while the program sleeps.
  pub main_discards :
      (words : ℕ → ℕ) (args : List String) (gb : ℕ)
      → pressure_gb_of args ≡ ok gb
      → gb < 2 ^ 64
      → (r : Report) × (h : Host) × (main sys none args (started words) ≡ ok (surveyed r, h))
        × (r.pages ≡ 65536)
        × (r.b.intact ≡ r.pages)
        × (r.b.zeroed ≡ 0)
        × (r.a.intact + r.a.zeroed ≡ r.pages)
        × (r.a.zeroed ≡ count (λ off. h.words (sys.mmap [] size + off) == 0) (step_by 0 size page))
        × (held h.calls ≡ [])
        × (h.child ≡ spawned ∷ killed ∷ reaped ∷ [])
  unfolding main maybe_run_generator assert_host_page_size
  main_discards words args gb asked lt =
      let (t, ran, calls, is) = control-ok gb words lt in
      let thin = survey-Thinned t.words a is.thinned in
      let whole = survey-Marked t.words b is.marked in
      (
        counted t.words,
        left t,
        (>>=-ok (lift (assert_host_page_size sys.page_size)) _ (started words) (started words) tt
              (ap (λ n. lift (assert_host_page_size n) (started words)) grants.page_lem)
            ∙ >>=-ok (lift (pressure_gb_of args)) _ (started words) (started words) gb
                (ap (λ r. lift r (started words)) asked)
            ∙ >>=-ok (control sys gb) _ (started words) (left t) (counted t.words) ran),
        omega arith,
        omega (arith, whole, pages_lem),
        whole.0,
        omega (arith, thin, count_not (is_zero t.words a) offs, pages_lem),
        thin.0,
        ap (λ c. held (unmapped b size ∷ unmapped a size ∷ c)) calls ∙ held_none a b,
        is.child_lem,
      )
