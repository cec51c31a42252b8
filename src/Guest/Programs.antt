-- ===== src/Guest/Programs.antt =====
-- crates/hv-reclaim/src/guest.rs: the machine code of the five guest programs and the code page.
use macos_vm_memory_ratchet.Prelude.{ℕ, ◌+◌, ◌*◌, List, [], ◌∷◌}
pub use macos_vm_memory_ratchet.Ledger.Pages.{page}
use macos_vm_memory_ratchet.Guest.Isa.{update}

abbrev pub code_gpa : ℕ
code_gpa = 0x1000_0000

abbrev pub ram_gpa : ℕ
ram_gpa = 0x8000_0000

-- Deliberately unmapped.
abbrev pub doorbell_gpa : ℕ
doorbell_gpa = 0x0F00_0000

abbrev pub touch_code : List ℕ
touch_code =
    0xF900_0021 ∷ 0x9140_1021 ∷ 0xEB02_003F ∷ 0x54FF_FFA3 ∷ 0xF900_007F ∷ 0xD503_207F ∷ 0x17FF_FFFF
    ∷ []

abbrev pub hammer_code : List ℕ
hammer_code =
    0xAA06_03E1 ∷ 0xF940_0025 ∷ 0x9100_04A5 ∷ 0xF900_0025 ∷ 0x9140_1021 ∷ 0xEB02_003F ∷ 0x54FF_FF63
    ∷ 0x9100_0484 ∷ 0xF900_0064 ∷ 0x17FF_FFF7 ∷ []

abbrev pub read_code : List ℕ
read_code =
    0xF940_0025 ∷ 0x9140_1021 ∷ 0xEB02_003F ∷ 0x54FF_FFA3 ∷ 0xF900_007F ∷ 0xD503_207F ∷ 0x17FF_FFFF
    ∷ []

abbrev pub verify_code : List ℕ
verify_code =
    0xF940_0026 ∷ 0xEB05_00DF ∷ 0x5400_0040 ∷ 0x9100_0484 ∷ 0x9140_1021 ∷ 0xEB02_003F ∷ 0x54FF_FF43
    ∷ 0xF900_0064 ∷ 0xD503_207F ∷ 0x17FF_FFFF ∷ []

abbrev pub fill_code : List ℕ
fill_code =
    0xF900_0025 ∷ 0x9140_1021 ∷ 0xEB02_003F ∷ 0x54FF_FFA3 ∷ 0xF900_007F ∷ 0xD503_207F ∷ 0x17FF_FFFF
    ∷ []

abbrev pub hammer_off : ℕ
hammer_off = 0x80

abbrev pub read_off : ℕ
read_off = 0x100

abbrev pub verify_off : ℕ
verify_off = 0x180

abbrev pub fill_off : ℕ
fill_off = 0x200

abbrev pub hammer_gpa : ℕ
hammer_gpa = code_gpa + hammer_off

abbrev pub read_gpa : ℕ
read_gpa = code_gpa + read_off

abbrev pub verify_gpa : ℕ
verify_gpa = code_gpa + verify_off

abbrev pub fill_gpa : ℕ
fill_gpa = code_gpa + fill_off

-- One of the loops of `write_code_page`: the words of a program, from the `i`-th on, written at
-- `off + i * 4`. The code page is the 32-bit word at each byte offset.
unfoldable pub write_words : ℕ → ℕ → List ℕ → (ℕ → ℕ) → ℕ → ℕ
write_words off i [] code = code
write_words off i (insn ∷ rest) code = write_words off (i + 1) rest (update code (off + i * 4) insn)

unfoldable pub write_code_page : (ℕ → ℕ) → ℕ → ℕ
unfolding write_words
write_code_page code =
    let touched = write_words 0 0 touch_code code in
    let hammered = write_words hammer_off 0 hammer_code touched in
    let read = write_words read_off 0 read_code hammered in
    let verified = write_words verify_off 0 verify_code read in
    write_words fill_off 0 fill_code verified
