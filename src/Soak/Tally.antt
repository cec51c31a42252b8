-- ===== src/Soak/Tally.antt =====
-- What the guest's checker counts, for the soak of crates/hv-reclaim/src/soak.rs, on a range of which
-- every page is as expected and on one with a planted word.
use macos_vm_memory_ratchet.Prelude.{
  ℕ, zero, suc, ◌+◌, ◌≡◌, ◌≢◌, refl, arith, true, ◌==◌, if◌then◌else◌, sym, ◌∙◌,
}
use macos_vm_memory_ratchet.Guest.Programs.{page, ram_gpa}
use macos_vm_memory_ratchet.Guest.Sweep.{tally_pages, covers}
use macos_vm_memory_ratchet.Guest.Enter.{IsRange, more_rounds, is_first_word, covers-is_first_word}

abbrev pub mismatch : ℕ → ℕ → ℕ → ℕ
mismatch expected q word = if word == expected then 0 else 1

tally_clean :
    (expected n a : ℕ) (ram : ℕ → ℕ)
    → ((q : ℕ) → covers a n q ≡ true → ram q ≡ expected)
    → tally_pages (mismatch expected) a n ram ≡ 0
unfolding tally_pages
tally_clean expected zero a ram h = refl
tally_clean expected (suc n) a ram h =
    ground
      (arith, h a (ground arith), tally_clean expected n (a + page) ram (λ q c. h q (ground arith)))

-- Every page of the range starts with the expected word.
abbrev pub IsClean : ℕ → ℕ → ℕ → (ℕ → ℕ) → Type 0
IsClean s e expected ram = (q : ℕ) → is_first_word s e q ≡ true → ram q ≡ expected

pub tally-IsClean :
    (size s e expected : ℕ) (ram : ℕ → ℕ)
    → IsRange size s e
    → IsClean s e expected ram
    → tally_pages (mismatch expected) (ram_gpa + s) (suc (more_rounds s e)) ram ≡ 0
tally-IsClean size s e expected ram inside clean =
    tally_clean expected _ (ram_gpa + s) ram
      (λ q h. clean q (sym (covers-is_first_word size s e q inside) ∙ h))

-- The second page alone is not as expected.
pub tally_planted :
    (expected n a wrong : ℕ) (ram : ℕ → ℕ)
    → wrong ≢ expected
    → ram (a + page) ≡ wrong
    → ((q : ℕ) → covers a (suc (suc n)) q ≡ true → q ≢ a + page → ram q ≡ expected)
    → tally_pages (mismatch expected) a (suc (suc n)) ram ≡ 1
unfolding tally_pages
tally_planted expected n a wrong ram ne planted h = ground (
  arith,
  h a (ground arith) (omega arith),
  tally_clean expected n (a + page + page) ram (λ q c. h q (ground arith) (ground arith)),
)
