-- ===== src/Discard/Counting.antt =====
-- The survey of crates/pressure-discard/src/main.rs on a buffer of the process, whose words may have
-- been discarded.
use macos_vm_memory_ratchet.Prelude.{
  ℕ, ◌+◌, ◌/◌, ◌<◌, ◌≡◌, ◌⊎◌, refl, ap, ◌∙◌, inl, arith, Bool, true, false, not, List, [], ◌∷◌,
  ◌==◌, bit_xor, length, if◌then◌else◌,
}
use macos_vm_memory_ratchet.Ledger.Pages.{
  page, step_by, contains, count, All, All-mono, All-both, All-contains, count_congr, count-All,
  contains-step_by, step_by-page, length-step_by,
}
use macos_vm_memory_ratchet.Ledger.Canary.{pattern, marker-ne-zero}
use macos_vm_memory_ratchet.Discard.{size, survey, survey_loop-eq-counts}
use macos_vm_memory_ratchet.Discard.Host.{buffer_at}

abbrev pub offs : List ℕ
offs = step_by 0 size page

-- A buffer that holds its pattern, and one of which pages may have been discarded.
abbrev pub Marked : (ℕ → ℕ) → ℕ → Type 0
Marked words at = (off : ℕ) → contains offs off ≡ true → words (at + off) ≡ bit_xor pattern off

abbrev pub Thinned : (ℕ → ℕ) → ℕ → Type 0
Thinned words at =
    (off : ℕ)
    → contains offs off ≡ true
    → (words (at + off) ≡ bit_xor pattern off) ⊎ (words (at + off) ≡ 0)

in_size : All (λ q. (contains offs q ≡ true) × (q < size)) offs
in_size =
    All-mono _ _ offs (λ q h. (h.0, h.1.1))
      (All-both _ _ offs (All-contains offs) (step_by-page 0 size))

pub contains-size : (off : ℕ) → contains offs off ≡ true → off < size
contains-size off h = ground (arith, contains-step_by 0 size off)

pub count_not : (p : ℕ → Bool) (l : List ℕ) → count p l + count (λ q. not (p q)) l ≡ length l
count_not p [] = refl
count_not p (q ∷ rest) = ground (arith, count_not p rest)

abbrev pub is_zero : (ℕ → ℕ) → ℕ → ℕ → Bool
is_zero words at off = words (at + off) == 0

pub survey-Thinned :
    (words : ℕ → ℕ) (at : ℕ)
    → Thinned words at
    → ((survey (buffer_at words at) size).zeroed ≡ count (is_zero words at) offs)
      × ((survey (buffer_at words at) size).intact ≡ count (λ q. not (is_zero words at q)) offs)
unfolding survey
survey-Thinned words at thin = omega (
  arith,
  survey_loop-eq-counts (buffer_at words at) offs (record { intact = 0; zeroed = 0 }),
  count_congr (λ off. words (at + off) == bit_xor pattern off) (λ q. not (is_zero words at q)) offs
      (All-mono _ _ offs (λ q h. one q (thin q h.0) h.1) in_size),
  count_congr
      (λ off. if words (at + off) == bit_xor pattern off then false else words (at + off) == 0)
      (is_zero words at) offs (All-mono _ _ offs (λ q h. two q (thin q h.0) h.1) in_size),
)
  where
    one :
        (q : ℕ)
        → (words (at + q) ≡ bit_xor pattern q) ⊎ (words (at + q) ≡ 0)
        → q < size
        → (words (at + q) == bit_xor pattern q) ≡ not (is_zero words at q)
    one q h lt = ground (arith, h, marker-ne-zero q (omega (arith, lt)))

    two :
        (q : ℕ)
        → (words (at + q) ≡ bit_xor pattern q) ⊎ (words (at + q) ≡ 0)
        → q < size
        → (if words (at + q) == bit_xor pattern q then false else words (at + q) == 0)
          ≡ is_zero words at q
    two q h lt = ground (arith, h, marker-ne-zero q (omega (arith, lt)))

pub survey-Marked :
    (words : ℕ → ℕ) (at : ℕ)
    → Marked words at
    → ((survey (buffer_at words at) size).zeroed ≡ 0)
      × ((survey (buffer_at words at) size).intact ≡ length offs)
survey-Marked words at marked = omega (
  arith,
  survey-Thinned words at (λ off h. inl (marked off h)),
  count_not (is_zero words at) offs,
  count-All (λ q. not (is_zero words at q)) offs
      (All-mono _ _ offs
        (λ q h. ground (arith, marked q h.0, marker-ne-zero q (omega (arith, h.1)))) in_size),
)

pub pages_lem : length offs ≡ size / page
pages_lem = ap (λ n. length (step_by 0 n page)) (omega arith) ∙ length-step_by (size / page)
