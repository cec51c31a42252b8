-- ===== src/Guest/Isa.antt =====
-- The A64 instructions that the guest programs of crates/hv-reclaim/src/guest.rs are written in:
-- the fields of an instruction word, and what one instruction does to the guest.
use macos_vm_memory_ratchet.Prelude.{
  ℕ, zero, suc, ◌+◌, ◌-◌, ◌*◌, ◌/◌, ◌%◌, ◌^◌, Bool, ◌&&◌, ltb, leb, ◌==◌, if◌then◌else◌,
}

-- A register is a number; 31 is the zero register where a value is read.
pub data Insn : Type 0 where
  str ldr : ℕ → ℕ → ℕ → Insn
  add_imm : ℕ → ℕ → ℕ → Insn
  subs_reg : ℕ → ℕ → ℕ → Insn
  mov_reg : ℕ → ℕ → Insn
  b_eq b_lo b : ℕ → Insn
  wfi undefined : Insn

-- An offset of `w` bits, counted in words and in two's complement, as what is added to a 64-bit
-- address.
pub branch_offset : ℕ → ℕ → ℕ
branch_offset w imm = if ltb imm (2 ^ (w - 1)) then 4 * imm else 2 ^ 64 - 4 * (2 ^ w - imm)

unfoldable pub decode : ℕ → Insn
unfolding branch_offset
decode w =
    let rd = w % 32 in
    let rn = w / 2 ^ 5 % 32 in
    let imm12 = w / 2 ^ 10 % 2 ^ 12 in
    let rm = w / 2 ^ 16 % 32 in
    let imm19 = w / 2 ^ 5 % 2 ^ 19 in
    if w / 2 ^ 22 == 0x3E4
    then str rd rn (8 * imm12)
    else if w / 2 ^ 22 == 0x3E5
    then ldr rd rn (8 * imm12)
    else if w / 2 ^ 22 == 0x244
    then add_imm rd rn imm12
    else if w / 2 ^ 22 == 0x245
    then add_imm rd rn (imm12 * 2 ^ 12)
    else if w / 2 ^ 21 == 0x758 && w / 2 ^ 10 % 64 == 0
    then subs_reg rd rn rm
    else if w / 2 ^ 21 == 0x550 && w / 2 ^ 10 % 64 == 0 && rn == 31
    then mov_reg rd rm
    else if w / 2 ^ 24 == 0x54 && w % 32 == 0
    then b_eq (branch_offset 19 imm19)
    else if w / 2 ^ 24 == 0x54 && w % 32 == 3
    then b_lo (branch_offset 19 imm19)
    else if w / 2 ^ 26 == 0x05
    then b (branch_offset 26 (w % 2 ^ 26))
    else if w == 0xD503_207F
    then wfi
    else undefined

-- The guest as a vCPU sees it. `ram` is the 64-bit word at an aligned guest-physical address, `z`
-- and `c` are the flags that the conditional branches read.
pub record Guest : Type 0 where
  pub pc : ℕ
  pub x : ℕ → ℕ
  pub z : Bool
  pub c : Bool
  pub ram : ℕ → ℕ

-- What one instruction comes to. An `aborted` guest stands at the instruction that faulted.
-- `unsupported` is what the programs never do: an unaligned access, an instruction or a read of
-- code outside those above.
pub data Step : Type 0 where
  running : Guest → Step
  aborted : ℕ → Guest → Step
  idle : Guest → Step
  unsupported : Step

abbrev pub update : (ℕ → ℕ) → ℕ → ℕ → ℕ → ℕ
update f a v q = if q == a then v else f q

abbrev pub read_x : Guest → ℕ → ℕ
read_x g r = if r == 31 then 0 else g.x r

abbrev pub write_x : Guest → ℕ → ℕ → Guest
write_x g r v = if r == 31 then g else record g { x = update g.x r v }

abbrev pub advance : Guest → Guest
advance g = record g { pc = g.pc + 4 }

abbrev pub jump : Guest → ℕ → Guest
jump g off = record g { pc = (g.pc + off) % 2 ^ 64 }

-- The stage-2 map that the host sets up: `size` bytes of RAM from `ram_gpa`, readable and
-- writable, and one page of code from `code_gpa`.
pub record Mapping : Type 0 where
  pub code_gpa : ℕ
  pub code_size : ℕ
  pub code : ℕ → ℕ
  pub ram_gpa : ℕ
  pub size : ℕ

abbrev pub is_ram : Mapping → ℕ → Bool
is_ram m a = leb m.ram_gpa a && ltb a (m.ram_gpa + m.size)

-- A load or store of eight bytes at `a`: a fault where no RAM is mapped.
abbrev access : Mapping → Guest → ℕ → Guest → Step
access m g a h = if is_ram m a then if a % 8 == 0 then running h else unsupported else aborted a g

unfoldable pub exec : Mapping → Insn → Guest → Step
exec m (str rt rn off) g =
    let a = (g.x rn + off) % 2 ^ 64 in
    access m g a (advance (record g { ram = update g.ram a (read_x g rt) }))
exec m (ldr rt rn off) g =
    let a = (g.x rn + off) % 2 ^ 64 in access m g a (advance (write_x g rt (g.ram a)))
exec m (add_imm rd rn imm) g = running (advance (write_x g rd ((g.x rn + imm) % 2 ^ 64)))
exec m (subs_reg rd rn rm) g =
    let a = read_x g rn in
    let b = read_x g rm in
    running
      (advance (record (write_x g rd ((a + 2 ^ 64 - b) % 2 ^ 64)) { z = a == b; c = leb b a }))
exec m (mov_reg rd rm) g = running (advance (write_x g rd (read_x g rm)))
exec m (b_eq off) g = running (if g.z then jump g off else advance g)
exec m (b_lo off) g = running (if g.c then advance g else jump g off)
exec m (b off) g = running (jump g off)
exec m wfi g = idle g
exec m undefined g = unsupported

-- Fetch, decode and execute one instruction.
unfoldable pub step : Mapping → Guest → Step
step m g =
    if leb m.code_gpa g.pc && ltb g.pc (m.code_gpa + m.code_size)
    then exec m (decode (m.code (g.pc - m.code_gpa))) g
    else unsupported

-- `n` instructions, or as many as there are before the guest stops.
unfoldable pub after : Mapping → ℕ → Guest → Step
after m zero g = running g
after m (suc n) g = elim (step m g) [
  | running h ↦ after m n h
  | aborted a h ↦ aborted a h
  | idle h ↦ idle h
  | unsupported ↦ unsupported
]
