-- ===== src/Ledger/Canary.antt =====
-- crates/ledger/src/canary.rs: the positive control of the pressure experiments.
use macos_vm_memory_ratchet.Prelude.{
  ℕ, ◌+◌, ◌*◌, ◌/◌, ◌%◌, ◌^◌, ◌≤◌, ◌<◌, ◌≡◌, ◌≢◌, ◌↔◌, ap, ◌∙◌, arith, Bool, true, not, List, [],
  ◌∷◌, Option, none, some, leb, ◌==◌, length, bit_xor, bit_xor-eq-zero, if◌then◌else◌, Result, ok,
  panicked,
}
use macos_vm_memory_ratchet.Ledger.Pages.{
  page, step_by, write_each, contains, count, write_each_at, All-mono, All-both, All-contains,
  count_congr, length-step_by, step_by-page,
}

abbrev pub pattern : ℕ
pattern = 0xC0DE_D00D_FEED_FACE

-- The mapping that a canary owns: its size and the word at each offset.
pub record Canary : Type 0 where
  pub size : ℕ
  pub words : ℕ → ℕ

pub record Verdict : Type 0 where
  pub discarded : ℕ
  pub total : ℕ

pub conclusive : Verdict → Bool
conclusive v = leb v.total (v.discarded * 2)

-- `mapped` is what `mmap` gave, `none` for MAP_FAILED, and `rc` what `madvise(MADV_FREE)` returned.
unfoldable pub arm : Option (ℕ → ℕ) → ℕ → ℕ → Result Canary
arm none rc gib = panicked "canary mmap failed"
arm (some words) rc gib =
    let size = gib * 2 ^ 30 % 2 ^ 64 in
    let dirty = write_each (bit_xor pattern) (step_by 0 size page) words in
    if rc == 0
    then ok (record { size = size; words = dirty })
    else panicked "canary madvise(MADV_FREE) failed"

survey_loop : (ℕ → ℕ) → List ℕ → ℕ → ℕ
survey_loop words [] discarded = discarded
survey_loop words (off ∷ rest) discarded =
    survey_loop words rest (if words off == bit_xor pattern off then discarded else discarded + 1)

pub survey : Canary → Verdict
survey c = record {
  discarded = survey_loop c.words (step_by 0 c.size page) 0;
  total = c.size / page;
}

survey_loop-eq-count :
    (words : ℕ → ℕ) (offs : List ℕ) (n : ℕ)
    → survey_loop words offs n ≡ n + count (λ off. not (words off == bit_xor pattern off)) offs
unfolding survey_loop
survey_loop-eq-count words [] n = omega arith
survey_loop-eq-count words (off ∷ rest) n =
    ground (arith, survey_loop-eq-count words rest n, survey_loop-eq-count words rest (n + 1))

-- No marker is zero, since the top bit of the pattern is beyond every offset.
pub marker-ne-zero : (off : ℕ) → off < 2 ^ 63 → bit_xor pattern off ≢ 0
marker-ne-zero off h e = omega (arith, bit_xor-eq-zero pattern off e)

-- What pressure makes of a MADV_FREE mapping: a page that it discards reads zero, any other is as it
-- was.
abbrev pub pressed : (ℕ → Bool) → Canary → Canary
pressed gone c = record c { words = λ off. if gone off then 0 else c.words off }

-- An armed canary of `gib` GiB counts exactly the pages that pressure discarded, whichever they are,
-- out of all its pages, and calls the run conclusive exactly if they are at least half.
pub survey-arm :
    (words : ℕ → ℕ) (gib : ℕ) (gone : ℕ → Bool) (c : Canary)
    → gib < 2 ^ 33
    → arm (some words) 0 gib ≡ ok c
    → let v = survey (pressed gone c) in
      (v.discarded ≡ count gone (step_by 0 c.size page))
      × (v.total ≡ length (step_by 0 c.size page))
      × ((conclusive v ≡ true)
          ↔ (length (step_by 0 c.size page) ≤ 2 * count gone (step_by 0 c.size page)))
unfolding arm survey conclusive
survey-arm words gib gone c small armed = (counted, whole, ground (arith, counted, whole))
  where
    size_lem : c.size ≡ gib * 65536 * page
    size_lem = ground arith

    words_lem : c.words ≡ write_each (bit_xor pattern) (step_by 0 c.size page) words
    words_lem = ground arith

    whole : c.size / page ≡ length (step_by 0 c.size page)
    whole = omega (arith, size_lem, rw (← size_lem) at (length-step_by (gib * 65536)))

    marked : (q : ℕ) → contains (step_by 0 c.size page) q ≡ true → c.words q ≡ bit_xor pattern q
    marked q h =
        ap (λ f. f q) words_lem
        ∙ (write_each_at (bit_xor pattern) (step_by 0 c.size page) words q ∙ ground arith)

    agree :
        count
          (λ off. not ((pressed gone c).words off == bit_xor pattern off))
          (step_by 0 c.size page)
        ≡ count gone (step_by 0 c.size page)
    agree = count_congr _ gone (step_by 0 c.size page) (
        All-mono _ _ (step_by 0 c.size page)
          (λ q h. ground (arith, marked q (h.0), marker-ne-zero q (omega (arith, h.1, size_lem))))
          (All-both _ _ (step_by 0 c.size page) (All-contains (step_by 0 c.size page))
            (step_by-page 0 c.size)))

    counted :
        survey_loop (pressed gone c).words (step_by 0 c.size page) 0
        ≡ count gone (step_by 0 c.size page)
    counted =
        omega (arith, survey_loop-eq-count (pressed gone c).words (step_by 0 c.size page) 0, agree)
