-- ===== src/Discard/Measured.antt =====
-- What the summary of crates/calibrate-madvise/src/main.rs is made of, on a system that grants every
-- call.
use macos_vm_memory_ratchet.Prelude.{
  ℕ, ◌+◌, ◌≡◌, refl, ap, ◌∙◌, arith, true, List, [], ◌∷◌, bit_xor, if◌then◌else◌, >>=-ok, ok,
}
use Prim.Native.String.{String}
use mathlib.Core.Path.{subst}
use macos_vm_memory_ratchet.Options.{Advice}
use macos_vm_memory_ratchet.Ledger.Pages.{contains, write_each_at}
use macos_vm_memory_ratchet.Ledger.Reading.{Ledger, read, assert_host_page_size}
use macos_vm_memory_ratchet.Discard.{size, touch}
use macos_vm_memory_ratchet.Discard.Host.{
  Call, mapped, advised, unmapped, Host, System, held, started, put, buffer_at, mmap_anon, madvise,
  write_buffer, sleep, read_ledger,
}
use macos_vm_memory_ratchet.Discard.Laws.{
  IsGranting, mmap_anon-ok, madvise-ok, read_ledger-ok, put-inside,
}
use macos_vm_memory_ratchet.Discard.Counting.{offs, contains-size}
use macos_vm_memory_ratchet.Discard.Control.{lift}
use macos_vm_memory_ratchet.Discard.Calibrate.{
  advices, Row, row_of, checked_munmap, try_advice, try_all, main,
}

module _ (sys : System) where
  -- A line of the summary: the readings were taken in front of the mapping, with the buffer dirty,
  -- and with the buffer advised.
  pub record IsMeasured (calls : List Call) (advice : Advice) (row : Row) : Type 0 where
    pub before : Host
    pub touched : Host
    pub behind : Host
    pub before_calls : before.calls ≡ calls
    pub touched_calls : touched.calls ≡ mapped (sys.mmap calls size) size ∷ calls
    pub behind_calls :
        behind.calls
        ≡ advised (sys.mmap calls size) size advice ∷ mapped (sys.mmap calls size) size ∷ calls
    pub dirty :
        (off : ℕ)
        → contains offs off ≡ true
        → touched.words (sys.mmap calls size + off) ≡ bit_xor off 0xA5A5_A5A5_A5A5_A5A5
    pub readings :
        (l1 l2 l3 : Ledger) × (read (sys.task_info before) ≡ ok l1)
        × (read (sys.task_info touched) ≡ ok l2)
        × (read (sys.task_info behind) ≡ ok l3)
        × (row ≡ row_of advice l1 l2 l3)

  -- The calls behind a measurement.
  abbrev pub calls_after : List Call → Advice → List Call
  calls_after calls advice =
      let at = sys.mmap calls size in
      unmapped at size ∷ advised at size advice ∷ mapped at size ∷ calls

  -- A line for each advice in turn.
  abbrev pub AllMeasured : List Call → List (Advice × String) → List Row → Type 0
  AllMeasured calls [] rows = rows ≡ []
  AllMeasured calls (a ∷ rest) [] = ⊥
  AllMeasured calls (a ∷ rest) (row ∷ rows) =
      IsMeasured calls a.0 row × AllMeasured (calls_after calls a.0) rest rows

module _ (sys : System) (grants : IsGranting sys) where
  touch-at :
      (words : ℕ → ℕ) (off : ℕ)
      → contains offs off ≡ true
      → touch words size off ≡ bit_xor off 0xA5A5_A5A5_A5A5_A5A5
  unfolding touch
  touch-at words off e =
      write_each_at (λ q. bit_xor q 0xA5A5_A5A5_A5A5_A5A5) offs words off
      ∙ (rw (e, if◌then◌else◌) refl)

  checked_munmap-ok :
      (at : ℕ) (h : Host)
      → checked_munmap sys at h ≡ ok (tt, record h { calls = unmapped at size ∷ h.calls })
  unfolding checked_munmap
  checked_munmap-ok at h = rw (grants.unmaps h.calls at size) refl

  try_advice-ok :
      (advice : Advice) (what : String) (h : Host)
      → (row : Row) × (t : Host) × (try_advice sys advice what h ≡ ok (row, t))
        × IsMeasured sys h.calls advice row
        × (t.calls ≡ calls_after sys h.calls advice)
  unfolding try_advice write_buffer sleep
  try_advice-ok advice what h =
      let ptr = sys.mmap h.calls size in
      let words = put h.words ptr size (λ _. 0) in
      let h1 = record h { words = words; calls = mapped ptr size ∷ h.calls } in
      let h2 = record h1 { words = put words ptr size (touch (buffer_at words ptr) size) } in
      let h3 = record h2 { calls = advised ptr size advice ∷ h2.calls } in
      let h4 = record h3 { words = sys.later h3 200 } in
      let h5 = record h4 { calls = unmapped ptr size ∷ h4.calls } in
      let (l1, e1, r1) = read_ledger-ok sys grants h in
      let (l2, e2, r2) = read_ledger-ok sys grants h2 in
      let (l3, e3, r3) = read_ledger-ok sys grants h4 in
      (
        row_of advice l1 l2 l3,
        h5,
        >>=-ok (read_ledger sys) _ h h l1 r1
            ∙ >>=-ok (mmap_anon sys size) _ h h1 ptr (mmap_anon-ok sys grants size h)
            ∙ >>=-ok (read_ledger sys) _ h2 h2 l2 r2
            ∙ >>=-ok (madvise sys what ptr size advice) _ h2 h3 tt
                (madvise-ok sys grants what ptr size advice h2)
            ∙ >>=-ok (read_ledger sys) _ h4 h4 l3 r3
            ∙ >>=-ok (checked_munmap sys ptr) _ h4 h5 tt (checked_munmap-ok ptr h4),
        record {
          before = h;
          touched = h2;
          behind = h4;
          before_calls = refl;
          touched_calls = refl;
          behind_calls = refl;
          dirty = λ off e.
              put-inside words ptr size (touch (buffer_at words ptr) size) off (contains-size off e)
              ∙ touch-at (buffer_at words ptr) off e;
          readings = (l1, l2, l3, e1, e2, e3, refl);
        },
        refl,
      )

  try_all-ok :
      (all : List (Advice × String)) (h : Host)
      → (rows : List Row) × (t : Host) × (try_all sys all h ≡ ok (rows, t))
        × AllMeasured sys h.calls all rows
        × (held t.calls ≡ held h.calls)
  unfolding try_all
  try_all-ok [] h = ([], h, refl, refl, refl)
  try_all-ok ((advice, what) ∷ rest) h =
      let (row, t, ran, is, calls) = try_advice-ok advice what h in
      let (rows, u, others, are, same) = try_all-ok rest t in
      (
        row ∷ rows,
        u,
        >>=-ok (try_advice sys advice what) _ h t row ran
            ∙ >>=-ok (try_all sys rest) _ t u rows others,
        (is, subst (λ c. AllMeasured sys c rest rows) calls are),
        same ∙ ap held calls ∙ held_after h.calls advice,
      )
    where
      held_after : (c : List Call) (advice : Advice) → held (calls_after sys c advice) ≡ held c
      held_after c advice = ground arith

  -- On a system that grants every call, the program ends with a line of its summary for each advice
  -- in the order of ADVICES and with no buffer mapped. Each line compares the ledger in front of
  -- the mapping with that once every page has been dirtied, and that with the ledger behind the one
  -- advice.
  pub main_measures :
      (words : ℕ → ℕ)
      → (rows : List Row) × (h : Host) × (main sys (started words) ≡ ok (rows, h))
        × AllMeasured sys [] advices rows
        × (held h.calls ≡ [])
  unfolding main assert_host_page_size
  main_measures words =
      let (rows, h, ran, are, none_held) = try_all-ok advices (started words) in
      (
        rows,
        h,
        >>=-ok (lift (assert_host_page_size sys.page_size)) _ (started words) (started words) tt
              (ap (λ n. lift (assert_host_page_size n) (started words)) grants.page_lem)
            ∙ ran,
        are,
        none_held,
      )
