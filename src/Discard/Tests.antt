-- ===== src/Discard/Tests.antt =====
-- The two controls on a system that grants every call: it maps above all that it mapped before, and
-- discards every word of memory advised MADV_FREE that has an odd page number.
use macos_vm_memory_ratchet.Prelude.{
  ℕ, ◌+◌, ◌/◌, ◌%◌, ◌^◌, ◌<◌, ◌≡◌, refl, inl, inr, arith, Bool, true, ◌&&◌, List, [], ◌∷◌, none,
  ◌==◌, if◌then◌else◌, Bool-cases, ok,
}
use macos_vm_memory_ratchet.Ledger.Pages.{page, step_by, count}
use macos_vm_memory_ratchet.Ledger.Pressure.{spawned, killed, reaped, child}
use macos_vm_memory_ratchet.Ledger.Reading.{read}
use macos_vm_memory_ratchet.Options.Numbers.{parse_usize, parse_unsigned, parse_digits}
use macos_vm_memory_ratchet.Discard.{size}
use macos_vm_memory_ratchet.Discard.Host.{
  Call, mapped, advised, unmapped, Host, System, drop_range, held, freeable, started,
}
use macos_vm_memory_ratchet.Discard.Laws.{IsGranting, in_any}
use macos_vm_memory_ratchet.Discard.Control.{Report, surveyed}
use macos_vm_memory_ratchet.Discard.Control
use macos_vm_memory_ratchet.Discard.Discarded.{main_discards}
use macos_vm_memory_ratchet.Discard.Calibrate
use macos_vm_memory_ratchet.Discard.Calibrate.{Row, advices}
use macos_vm_memory_ratchet.Discard.Measured.{AllMeasured, main_measures}

abbrev top : List Call → ℕ
top [] = 1
top (mapped at len ∷ calls) = at + len + top calls
top (advised at len advice ∷ calls) = top calls
top (unmapped at len ∷ calls) = top calls

abbrev odd_page : ℕ → Bool
odd_page q = q / page % 2 == 1

abbrev generous : System
generous = record {
  page_size = page;
  mmap = λ calls len. top calls;
  map_failed = 0;
  madvise = λ calls at len advice. 0;
  munmap = λ calls at len. 0;
  later = λ h ms q. if freeable h.calls q && odd_page q then 0 else h.words q;
  task_info = λ h. record { kr = 0; count = 38; words = λ i. 1 };
  chunk = λ i. none;
  exe = true;
  spawn = child (λ i. none);
}

top_pos : (calls : List Call) → 0 < top calls
top_pos [] = omega arith
top_pos (mapped at len ∷ calls) = omega (arith, top_pos calls)
top_pos (advised at len advice ∷ calls) = top_pos calls
top_pos (unmapped at len ∷ calls) = top_pos calls

in_any-drop_range :
    (at len : ℕ) (rs : List (ℕ × ℕ)) (q : ℕ)
    → in_any (drop_range at len rs) q ≡ true
    → in_any rs q ≡ true
in_any-drop_range at len [] q h = h
in_any-drop_range at len (r ∷ rest) q h = ground (arith, in_any-drop_range at len rest q)

below_top : (calls : List Call) (q : ℕ) → in_any (held calls) q ≡ true → q < top calls
below_top [] q h = absurd (ground arith)
below_top (mapped at len ∷ calls) q h = ground (arith, below_top calls q)
below_top (advised at len advice ∷ calls) q h = below_top calls q h
below_top (unmapped at len ∷ calls) q h =
    below_top calls q (in_any-drop_range at len (held calls) q h)

generous-IsGranting : IsGranting generous
unfolding read
generous-IsGranting = record {
  page_lem = refl;
  maps = λ calls len e. omega (arith, top_pos calls);
  apart = λ calls len q h. ground (arith, below_top calls q h);
  advises = λ calls at len advice. refl;
  unmaps = λ calls at len. refl;
  keeps = λ h ms q e. rw (e, if◌then◌else◌) refl;
  frees = λ h ms q. elim (Bool-cases (freeable h.calls q && odd_page q)) [
    | inl e ↦ inr (rw (e, if◌then◌else◌) refl)
    | inr e ↦ inl (rw (e, if◌then◌else◌) refl)
  ];
  reads = λ h. (
    record {
      phys_footprint = 1 + 2 ^ 32;
      resident = 1 + 2 ^ 32;
      reusable = 1 + 2 ^ 32;
      compressed = 1 + 2 ^ 32;
      regions = 1;
    },
    refl,
  );
  exe_lem = refl;
  spawns = λ value. refl;
}

main_discards_example :
    (r : Report) × (h : Host) × (Control.main generous none
        ("pressure-discard" ∷ "--pressure-gb" ∷ "4" ∷ [])
        (started (λ _. 0))
      ≡ ok (surveyed r, h))
    × (r.pages ≡ 65536)
    × (r.b.intact ≡ r.pages)
    × (r.b.zeroed ≡ 0)
    × (r.a.intact + r.a.zeroed ≡ r.pages)
    × (r.a.zeroed ≡ count (λ off. h.words (1 + off) == 0) (step_by 0 size page))
    × (held h.calls ≡ [])
    × (h.child ≡ spawned ∷ killed ∷ reaped ∷ [])
unfolding parse_usize parse_unsigned parse_digits
main_discards_example =
    main_discards generous generous-IsGranting (λ _. 0)
      ("pressure-discard" ∷ "--pressure-gb" ∷ "4" ∷ []) 4 refl (omega arith)

main_measures_example :
    (rows : List Row) × (h : Host) × (Calibrate.main generous (started (λ _. 0)) ≡ ok (rows, h))
    × AllMeasured generous [] advices rows
    × (held h.calls ≡ [])
main_measures_example = main_measures generous generous-IsGranting (λ _. 0)
