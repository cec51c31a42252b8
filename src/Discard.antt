-- ===== src/Discard.antt =====
-- crates/pressure-discard/src/main.rs: two dirty buffers under real memory pressure, one of them
-- marked MADV_FREE; and the buffer that crates/calibrate-madvise/src/main.rs dirties.
pub mod Host
pub mod Laws
pub mod Control
pub mod Counting
pub mod Armed
pub mod Discarded
pub mod Calibrate
pub mod Measured
pub mod Tests
use macos_vm_memory_ratchet.Prelude.{
  ℕ, suc, ◌+◌, ◌-◌, ◌*◌, ◌/◌, ◌%◌, ◌^◌, ◌≤◌, ◌<◌, ◌≡◌, ◌≢◌, refl, ap, ◌∙◌, arith, Bool, true, false,
  not, List, [], ◌∷◌, Option, none, some, ltb, leb, ◌==◌, length, bit_xor, get_elem?, if◌then◌else◌,
  Result, ok, panicked,
}
use Prim.Native.String.{String}
use text.Mathlib.Text.{◌==◌ as str_eq}
use macos_vm_memory_ratchet.Ledger.Pages.{
  page, step_by, write_each, contains, count, All, write_each_at, All-mono, All-both, All-contains,
  count_congr, length-step_by, step_by-page,
}
use macos_vm_memory_ratchet.Ledger.Canary.{pattern, marker-ne-zero}

abbrev pub size : ℕ
size = 2 ^ 30

pub fill : (ℕ → ℕ) → ℕ → ℕ → ℕ
fill words size = write_each (bit_xor pattern) (step_by 0 size page) words

-- The two counters of `survey`.
pub record Counts : Type 0 where
  pub intact : ℕ
  pub zeroed : ℕ

pub survey_loop : (ℕ → ℕ) → List ℕ → Counts → Counts
survey_loop words [] n = n
survey_loop words (off ∷ rest) n = survey_loop words rest (
    if words off == bit_xor pattern off
    then record n { intact = n.intact + 1 }
    else if words off == 0
    then record n { zeroed = n.zeroed + 1 }
    else n)

pub survey : (ℕ → ℕ) → ℕ → Counts
survey words size = survey_loop words (step_by 0 size page) (record { intact = 0; zeroed = 0 })

pub survey_loop-eq-counts :
    (words : ℕ → ℕ) (offs : List ℕ) (n : Counts)
    → ((survey_loop words offs n).intact
        ≡ n.intact + count (λ off. words off == bit_xor pattern off) offs)
      × ((survey_loop words offs n).zeroed
          ≡ n.zeroed
            + count
                (λ off. if words off == bit_xor pattern off then false else words off == 0)
                offs)
unfolding survey_loop
survey_loop-eq-counts words [] n = omega arith
survey_loop-eq-counts words (off ∷ rest) n = ground (
  arith,
  survey_loop-eq-counts words rest n,
  survey_loop-eq-counts words rest (record n { intact = n.intact + 1 }),
  survey_loop-eq-counts words rest (record n { zeroed = n.zeroed + 1 }),
)

module _ (words : ℕ → ℕ) (n : ℕ) (gone : ℕ → Bool) (small : n ≤ 2 ^ 63) where
  offs : List ℕ
  offs = step_by 0 n page

  -- The buffer after pressure: a discarded page reads zero.
  abbrev pub pressed : ℕ → ℕ
  pressed off = if gone off then 0 else fill words n off

  filled : (q : ℕ) → contains (step_by 0 n page) q ≡ true → fill words n q ≡ bit_xor pattern q
  unfolding fill
  filled q h = write_each_at (bit_xor pattern) (step_by 0 n page) words q ∙ (rw h)

  each :
      All
        (λ q. (contains (step_by 0 n page) q ≡ true) × (0 ≤ q) × (q < n) × ((q - 0) % page ≡ 0))
        (step_by 0 n page)
  each =
      All-mono _ _ (step_by 0 n page) (λ q h. (h.0, h.1.0, h.1.1, h.1.2))
        (All-both _ _ (step_by 0 n page) (All-contains (step_by 0 n page)) (step_by-page 0 n))

  -- A filled buffer of which pressure has discarded the pages in `gone`, and no others: the survey
  -- counts those as zeroed and the rest as intact.
  pub survey-fill :
      ((survey pressed n).intact ≡ count (λ off. not (gone off)) (step_by 0 n page))
      × ((survey pressed n).zeroed ≡ count gone (step_by 0 n page))
  unfolding survey
  survey-fill = omega (
    arith,
    survey_loop-eq-counts pressed (step_by 0 n page) (record { intact = 0; zeroed = 0 }),
    count_congr (λ off. pressed off == bit_xor pattern off) (λ off. not (gone off))
        (step_by 0 n page)
        (All-mono _ _ (step_by 0 n page)
          (λ q h. ground (arith, filled q h.0, marker-ne-zero q (omega (arith, h.2)))) each),
    count_congr (λ off. if pressed off == bit_xor pattern off then false else pressed off == 0) gone
        (step_by 0 n page)
        (All-mono _ _ (step_by 0 n page)
          (λ q h. ground (arith, filled q h.0, marker-ne-zero q (omega (arith, h.2)))) each),
  )

-- `touch` of calibrate-madvise.
pub touch : (ℕ → ℕ) → ℕ → ℕ → ℕ
touch words size = write_each (λ off. bit_xor off 0xA5A5_A5A5_A5A5_A5A5) (step_by 0 size page) words
