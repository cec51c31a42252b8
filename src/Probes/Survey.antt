-- ===== src/Probes/Survey.antt =====
-- The surveys of guest data in crates/hv-reclaim/src/main.rs, read through the host mapping: the
-- word at offset `off` of the buffer is the guest's word at RAM_GPA + off.
use macos_vm_memory_ratchet.Prelude.{
  ℕ, ◌+◌, ◌%◌, ◌^◌, ◌≤◌, ◌<◌, ◌≡◌, arith, Bool, true, false, not, List, [], ◌∷◌, ◌++◌, ltb, ◌==◌,
  length, length-append, if◌then◌else◌,
}
use macos_vm_memory_ratchet.Ledger.Pages.{
  page, step_by, contains, contains-step_by, count, All-mono, All-contains, count_congr,
}
use macos_vm_memory_ratchet.Guest.Programs.{ram_gpa}

-- Counters, and up to three lost pages with what they read.
pub record Findings : Type 0 where
  pub intact : ℕ
  pub lost : ℕ
  pub examples : List (ℕ × ℕ)

abbrev none_yet : Findings
none_yet = record { intact = 0; lost = 0; examples = [] }

-- The body of the loop of `parked_pressure_check`.
parked_page : (ℕ → ℕ) → ℕ → Findings → Findings
parked_page words off f =
    if words off == (ram_gpa + off) % 2 ^ 64
    then record f { intact = f.intact + 1 }
    else record f { lost = f.lost + 1 }

-- The body of the loop of `hammer_check`.
hammered_page : ℕ → (ℕ → ℕ) → ℕ → Findings → Findings
hammered_page sweeps words off f =
    if words off == (ram_gpa + off + sweeps) % 2 ^ 64
    then record f { intact = f.intact + 1 }
    else record f {
      lost = f.lost + 1;
      examples =
          if ltb (length f.examples) 3 then f.examples ++ (off, words off) ∷ [] else f.examples;
    }

survey_loop : (ℕ → Findings → Findings) → List ℕ → Findings → Findings
survey_loop body [] f = f
survey_loop body (off ∷ rest) f = survey_loop body rest (body off f)

pub parked_survey : (ℕ → ℕ) → ℕ → Findings
parked_survey words ram_size = survey_loop (parked_page words) (step_by 0 ram_size page) none_yet

pub hammered_survey : ℕ → (ℕ → ℕ) → ℕ → Findings
hammered_survey sweeps words ram_size =
    survey_loop (hammered_page sweeps words) (step_by 0 ram_size page) none_yet

hammered_loop-counts :
    (sweeps : ℕ) (words : ℕ → ℕ) (offs : List ℕ) (f : Findings)
    → let r = survey_loop (hammered_page sweeps words) offs f in
      (r.intact ≡ f.intact + count (λ off. words off == (ram_gpa + off + sweeps) % 2 ^ 64) offs)
      × (r.lost ≡ f.lost + count (λ off. not (words off == (ram_gpa + off + sweeps) % 2 ^ 64)) offs)
      × (length f.examples ≤ 3 → length r.examples ≤ 3)
unfolding survey_loop hammered_page
hammered_loop-counts sweeps words [] f = (omega arith, omega arith, λ h. h)
hammered_loop-counts sweeps words (off ∷ rest) f = ground (
  arith,
  hammered_loop-counts sweeps words rest (hammered_page sweeps words off f),
  length-append f.examples ((off, words off) ∷ []),
)

parked_loop-counts :
    (words : ℕ → ℕ) (offs : List ℕ) (f : Findings)
    → let r = survey_loop (parked_page words) offs f in
      (r.intact ≡ f.intact + count (λ off. words off == (ram_gpa + off) % 2 ^ 64) offs)
      × (r.lost ≡ f.lost + count (λ off. not (words off == (ram_gpa + off) % 2 ^ 64)) offs)
unfolding survey_loop parked_page
parked_loop-counts words [] f = omega arith
parked_loop-counts words (off ∷ rest) f =
    ground (arith, parked_loop-counts words rest (parked_page words off f))

module _ (words : ℕ → ℕ) (ram_size : ℕ) (gone : ℕ → Bool) where
  offs : List ℕ
  offs = step_by 0 ram_size page

  fits :
      (sweeps : ℕ)
      → ram_gpa + ram_size + sweeps < 2 ^ 64
      → (off : ℕ) → contains (step_by 0 ram_size page) off ≡ true
      → (ram_gpa + off + sweeps) % 2 ^ 64 ≡ ram_gpa + off + sweeps
  fits sweeps small off c =
      let lt : off < ram_size = ground (arith, contains-step_by 0 ram_size off, c) in
      omega (arith, small, lt)

  parked_survey_lem :
      ram_gpa + ram_size < 2 ^ 64
      → ((off : ℕ)
          → contains (step_by 0 ram_size page) off ≡ true
          → (gone off ≡ false → words off ≡ ram_gpa + off) × (gone off ≡ true → words off ≡ 0))
      → ((parked_survey words ram_size).intact
          ≡ count (λ off. not (gone off)) (step_by 0 ram_size page))
        × ((parked_survey words ram_size).lost ≡ count gone (step_by 0 ram_size page))
  unfolding parked_survey
  parked_survey_lem small h = omega (
    arith,
    parked_loop-counts words (step_by 0 ram_size page) none_yet,
    count_congr (λ off. words off == (ram_gpa + off) % 2 ^ 64) (λ off. not (gone off))
        (step_by 0 ram_size page)
        (All-mono _ _ (step_by 0 ram_size page)
          (λ q c. ground (arith, h q c, fits 0 (omega (arith, small)) q c))
          (All-contains (step_by 0 ram_size page))),
    count_congr (λ off. not (words off == (ram_gpa + off) % 2 ^ 64)) gone (step_by 0 ram_size page)
        (All-mono _ _ (step_by 0 ram_size page)
          (λ q c. ground (arith, h q c, fits 0 (omega (arith, small)) q c))
          (All-contains (step_by 0 ram_size page))),
  )

  pub hammered_survey_lem :
      (sweeps : ℕ)
      → ram_gpa + ram_size + sweeps < 2 ^ 64
      → ((off : ℕ)
          → contains (step_by 0 ram_size page) off ≡ true
          → (gone off ≡ false → words off ≡ ram_gpa + off + sweeps)
            × (gone off ≡ true → words off ≤ sweeps))
      → ((hammered_survey sweeps words ram_size).intact
          ≡ count (λ off. not (gone off)) (step_by 0 ram_size page))
        × ((hammered_survey sweeps words ram_size).lost ≡ count gone (step_by 0 ram_size page))
        × (length (hammered_survey sweeps words ram_size).examples ≤ 3)
  unfolding hammered_survey
  hammered_survey_lem sweeps small h =
      let loop = hammered_loop-counts sweeps words (step_by 0 ram_size page) none_yet in
      let kept =
        count_congr (λ off. words off == (ram_gpa + off + sweeps) % 2 ^ 64) (λ off. not (gone off))
          (step_by 0 ram_size page)
          (All-mono _ _ (step_by 0 ram_size page)
            (λ q c. ground (arith, h q c, fits sweeps small q c))
            (All-contains (step_by 0 ram_size page))) in
      let lost =
        count_congr (λ off. not (words off == (ram_gpa + off + sweeps) % 2 ^ 64)) gone
          (step_by 0 ram_size page)
          (All-mono _ _ (step_by 0 ram_size page)
            (λ q c. ground (arith, h q c, fits sweeps small q c))
            (All-contains (step_by 0 ram_size page))) in
      (omega (arith, loop.0, kept), omega (arith, loop.1, lost), loop.2 (omega arith))

-- With the address space large enough for RAM and the number of sweeps, so that no sum wraps around:
-- if each page of RAM reads the address that the guest wrote into it, or zero if it was discarded,
-- then `parked_survey` counts exactly the discarded pages as lost and all others as intact. If each
-- page reads its base plus the number of sweeps, or the number of sweeps at most if it was
-- discarded during one of them and so restarted from zero, then so does `hammered_survey`, which
-- keeps three examples at most.
pub surveys_lem :
    (parked hammered : ℕ → ℕ) (ram_size : ℕ) (gone : ℕ → Bool) (sweeps : ℕ)
    → ram_gpa + ram_size + sweeps < 2 ^ 64
    → ((off : ℕ)
        → contains (step_by 0 ram_size page) off ≡ true
        → (gone off ≡ false → parked off ≡ ram_gpa + off) × (gone off ≡ true → parked off ≡ 0))
    → ((off : ℕ)
        → contains (step_by 0 ram_size page) off ≡ true
        → (gone off ≡ false → hammered off ≡ ram_gpa + off + sweeps)
          × (gone off ≡ true → hammered off ≤ sweeps))
    → ((parked_survey parked ram_size).intact
        ≡ count (λ off. not (gone off)) (step_by 0 ram_size page))
      × ((parked_survey parked ram_size).lost ≡ count gone (step_by 0 ram_size page))
      × ((hammered_survey sweeps hammered ram_size).intact
          ≡ count (λ off. not (gone off)) (step_by 0 ram_size page))
      × ((hammered_survey sweeps hammered ram_size).lost ≡ count gone (step_by 0 ram_size page))
      × (length (hammered_survey sweeps hammered ram_size).examples ≤ 3)
surveys_lem parked hammered ram_size gone sweeps small p h =
    let (intact, lost) = parked_survey_lem parked ram_size gone (omega (arith, small)) p in
    let (intact', lost', few) = hammered_survey_lem hammered ram_size gone sweeps small h in
    (intact, lost, intact', lost', few)
