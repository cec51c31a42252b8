-- ===== src/Guest/CodePage.antt =====
-- The code page of crates/hv-reclaim/src/guest.rs: where the programs stand in it.
use macos_vm_memory_ratchet.Prelude.{
  ℕ, zero, suc, ◌+◌, ◌*◌, ◌≤◌, ◌<◌, ◌≡◌, ◌⊎◌, inl, inr, refl, ap, ◌∙◌, arith, List, [], ◌∷◌, some,
  length, get_elem?,
}
use macos_vm_memory_ratchet.Guest.Isa.{update}
use macos_vm_memory_ratchet.Guest.Programs.{
  touch_code, hammer_code, read_code, verify_code, fill_code, hammer_off, read_off, verify_off,
  fill_off, write_words, write_code_page,
}

write_words_outside :
    (off i : ℕ) (program : List ℕ) (code : ℕ → ℕ) (q : ℕ)
    → (q < off + i * 4) ⊎ (off + (i + length program) * 4 ≤ q)
    → write_words off i program code q ≡ code q
unfolding write_words
write_words_outside off i [] code q away = refl
write_words_outside off i (insn ∷ rest) code q away =
    ground (arith, write_words_outside off (i + 1) rest (update code (off + i * 4) insn) q)

write_words_inside :
    (off i : ℕ) (program : List ℕ) (code : ℕ → ℕ) (j insn : ℕ)
    → get_elem? program j ≡ some insn
    → write_words off i program code (off + (i + j) * 4) ≡ insn
unfolding write_words
write_words_inside off i [] code j insn h = absurd (ground arith)
write_words_inside off i (first ∷ rest) code zero insn h =
    write_words_outside off (i + 1) rest (update code (off + i * 4) first) (off + (i + 0) * 4)
      (inl (omega arith))
    ∙ ground arith
write_words_inside off i (first ∷ rest) code (suc j) insn h =
    ap (write_words off (i + 1) rest (update code (off + i * 4) first)) (omega arith)
    ∙ write_words_inside off (i + 1) rest (update code (off + i * 4) first) j insn h

-- The program stands in the page from `off` on, a word every four bytes.
abbrev pub IsPlaced : ℕ → List ℕ → (ℕ → ℕ) → Type 0
IsPlaced off program code =
    (j insn : ℕ) → get_elem? program j ≡ some insn → code (off + j * 4) ≡ insn

index_in : (program : List ℕ) (j insn : ℕ) → get_elem? program j ≡ some insn → j < length program
index_in [] j insn h = absurd (ground arith)
index_in (first ∷ rest) zero insn h = omega arith
index_in (first ∷ rest) (suc j) insn h = omega (arith, index_in rest j insn h)

written :
    (off : ℕ) (program : List ℕ) (code : ℕ → ℕ)
    → IsPlaced off program (write_words off 0 program code)
written off program code j insn h =
    ap (write_words off 0 program code) (omega arith)
    ∙ write_words_inside off 0 program code j insn h

-- `write_code_page` leaves all five programs in the page, each whole at the entry that the host
-- starts it from, whatever the page held before, and writes nothing behind the last.
pub write_code_page_lem :
    (code : ℕ → ℕ)
    → IsPlaced 0 touch_code (write_code_page code)
      × IsPlaced hammer_off hammer_code (write_code_page code)
      × IsPlaced read_off read_code (write_code_page code)
      × IsPlaced verify_off verify_code (write_code_page code)
      × IsPlaced fill_off fill_code (write_code_page code)
      × ((q : ℕ) → fill_off + 4 * length fill_code ≤ q → write_code_page code q ≡ code q)
unfolding write_code_page
write_code_page_lem code = (
  λ j insn h.
      let lt = index_in touch_code j insn h in
      write_words_outside fill_off 0 fill_code verified (0 + j * 4) (inl (omega arith))
      ∙ (write_words_outside verify_off 0 verify_code read (0 + j * 4) (inl (omega arith))
          ∙ (write_words_outside read_off 0 read_code hammered (0 + j * 4) (inl (omega arith))
              ∙ (write_words_outside hammer_off 0 hammer_code touched (0 + j * 4)
                    (inl (omega arith))
                  ∙ written 0 touch_code code j insn h))),
  λ j insn h.
      let lt = index_in hammer_code j insn h in
      write_words_outside fill_off 0 fill_code verified (hammer_off + j * 4) (inl (omega arith))
      ∙ (write_words_outside verify_off 0 verify_code read (hammer_off + j * 4) (inl (omega arith))
          ∙ (write_words_outside read_off 0 read_code hammered (hammer_off + j * 4)
                (inl (omega arith))
              ∙ written hammer_off hammer_code touched j insn h)),
  λ j insn h.
      let lt = index_in read_code j insn h in
      write_words_outside fill_off 0 fill_code verified (read_off + j * 4) (inl (omega arith))
      ∙ (write_words_outside verify_off 0 verify_code read (read_off + j * 4) (inl (omega arith))
          ∙ written read_off read_code hammered j insn h),
  λ j insn h.
      let lt = index_in verify_code j insn h in
      write_words_outside fill_off 0 fill_code verified (verify_off + j * 4) (inl (omega arith))
      ∙ written verify_off verify_code read j insn h,
  λ j insn h. written fill_off fill_code verified j insn h,
  λ q h.
      write_words_outside fill_off 0 fill_code verified q (inr (omega arith))
      ∙ (write_words_outside verify_off 0 verify_code read q (inr (omega arith))
          ∙ (write_words_outside read_off 0 read_code hammered q (inr (omega arith))
              ∙ (write_words_outside hammer_off 0 hammer_code touched q (inr (omega arith))
                  ∙ write_words_outside 0 0 touch_code code q (inr (omega arith))))),
)
  where
    touched : ℕ → ℕ
    touched = write_words 0 0 touch_code code

    hammered : ℕ → ℕ
    hammered = write_words hammer_off 0 hammer_code touched

    read : ℕ → ℕ
    read = write_words read_off 0 read_code hammered

    verified : ℕ → ℕ
    verified = write_words verify_off 0 verify_code read
