-- ===== src/Agent/Child.antt =====
-- `fleet_child` of guest-init/src/main.rs: which bytes a service writes, round after round.
use macos_vm_memory_ratchet.Prelude.{
  ℕ, zero, suc, ◌+◌, ◌-◌, ◌*◌, ◌/◌, ◌%◌, ◌^◌, ◌≤◌, ◌<◌, ◌≡◌, ap, sym, ◌∙◌, arith, ◌&&◌, ltb, leb,
  ◌==◌, if◌then◌else◌,
}
use native.Mathlib.Nat.{mul_assoc, zero-mul}
use macos_vm_memory_ratchet.Ledger.Pages.{offsets, step_by, write_each, contains, write_each_at}

abbrev pub stride : ℕ
stride = 4096

-- The dirtying of `size` bytes, and a round over the slice of a slot.
unfoldable pub dirty_all : ℕ → (ℕ → ℕ) → ℕ → ℕ
dirty_all size = write_each (λ off. 0xA5) (step_by 0 size stride)

unfoldable pub warm : ℕ → ℕ → (ℕ → ℕ) → ℕ → ℕ
warm size slot =
    let start = slot * (size / 8) in
    write_each (λ off. 0x5A) (step_by start (start + size / 8) stride)

-- `n` rounds of the loop from a slot on, which never ends by itself.
unfoldable pub warm_rounds : ℕ → ℕ → ℕ → (ℕ → ℕ) → ℕ → ℕ
unfolding warm
warm_rounds size zero slot bytes = bytes
warm_rounds size (suc n) slot bytes = warm_rounds size n ((slot + 1) % 8) (warm size slot bytes)

-- The bytes of the child after its dirtying and `n` rounds, from the zeros of its mapping.
unfoldable pub fleet_child : ℕ → ℕ → ℕ → ℕ
unfolding dirty_all warm_rounds
fleet_child mib n =
    let size = mib * 2 ^ 20 % 2 ^ 64 in warm_rounds size n 0 (dirty_all size (λ _. 0))

contains-offsets :
    (n off q : ℕ)
    → contains (offsets n off stride) q
      ≡ (leb off q && ltb q (off + n * stride) && (q - off) % stride == 0)
unfolding offsets
contains-offsets zero off q = ground arith
contains-offsets (suc n) off q = ground (arith, contains-offsets n (off + stride) q)

-- The offsets of a loop are those of its range that are whole strides from its start.
contains-step_by :
    (lo hi q : ℕ)
    → contains (step_by lo hi stride) q ≡ (leb lo q && ltb q hi && (q - lo) % stride == 0)
unfolding step_by
contains-step_by lo hi q = contains-offsets ((hi - lo + (stride - 1)) / stride) lo q ∙ ground arith

warm_at :
    (size slot q : ℕ) (bytes : ℕ → ℕ)
    → warm size slot bytes q ≡ (
        if leb (slot * (size / 8)) q
          && ltb q (slot * (size / 8) + size / 8)
          && (q - slot * (size / 8)) % stride == 0
        then 0x5A
        else bytes q)
unfolding warm
warm_at size slot q bytes =
    write_each_at (λ off. 0x5A) (step_by (slot * (size / 8)) (slot * (size / 8) + size / 8) stride)
      bytes q
    ∙ ap (λ b. if b then 0x5A else bytes q)
        (contains-step_by (slot * (size / 8)) (slot * (size / 8) + size / 8) q)

-- A slice of a service of `mib` MiB, in bytes, and the start of a slot.
abbrev pub slice : ℕ → ℕ
slice mib = mib * 131072

slice_lem : (mib : ℕ) → mib * 2 ^ 20 / 8 ≡ slice mib
slice_lem mib = omega arith

start_lem : (s mib : ℕ) → s * slice mib ≡ s * mib * 131072
start_lem s mib = sym (mul_assoc s mib 131072)

-- Whole strides of a slot are whole strides from zero.
warm_slot :
    (mib s q : ℕ) (bytes : ℕ → ℕ)
    → q % stride ≡ 0
    → warm (mib * 2 ^ 20) s bytes q
      ≡ (if leb (s * slice mib) q && ltb q ((s + 1) * slice mib) then 0x5A else bytes q)
warm_slot mib s q bytes aligned =
    warm_at (mib * 2 ^ 20) s q bytes
    ∙ ground (arith, slice_lem mib, start_lem s mib, start_lem (s + 1) mib, next s mib)
  where
    next : (s mib : ℕ) → (s + 1) * slice mib ≡ s * slice mib + slice mib
    next s mib = grind arith

-- Rounds from slot `s` on that do not pass the last.
rounds_at :
    (mib n s q : ℕ) (bytes : ℕ → ℕ)
    → s + n ≤ 8
    → q % stride ≡ 0
    → warm_rounds (mib * 2 ^ 20) n (s % 8) bytes q
      ≡ (if leb (s * slice mib) q && ltb q ((s + n) * slice mib) then 0x5A else bytes q)
unfolding warm_rounds
rounds_at mib zero s q bytes le aligned = grind arith
rounds_at mib (suc n) s q bytes le aligned =
    let here : s % 8 ≡ s = omega arith in
    ap (λ t. warm_rounds (mib * 2 ^ 20) n t (warm (mib * 2 ^ 20) (s % 8) bytes) q) (omega arith)
    ∙ (rounds_at mib n (s + 1) q (warm (mib * 2 ^ 20) (s % 8) bytes) (omega arith) aligned
        ∙ (ap
              (λ t.
                if leb ((s + 1) * slice mib) q && ltb q ((s + 1 + n) * slice mib)
                then 0x5A
                else warm (mib * 2 ^ 20) t bytes q)
              here
            ∙ ground (arith, warm_slot mib s q bytes aligned, first, last, within_last)))
  where
    first : s * slice mib ≤ (s + 1) * slice mib
    first = grind arith

    last : (s + suc n) * slice mib ≡ (s + 1 + n) * slice mib
    last = ap (λ t. t * slice mib) (omega arith)

    within_last : (s + 1) * slice mib ≤ (s + 1 + n) * slice mib
    within_last = grind arith

-- A service of less than 2 ^ 64 bytes has, after its dirtying and the first `n` rounds of a turn, the
-- warm value in every 4 KiB page of the first `n` eighths of its memory and the dirty value in every
-- other page of it, and it has written nothing beyond; after eight rounds every page is warm.
pub fleet_child_lem :
    (mib n q : ℕ)
    → mib * 2 ^ 20 < 2 ^ 64
    → n ≤ 8
    → q % stride ≡ 0
    → (fleet_child mib n q
        ≡ (if ltb q (n * slice mib) then 0x5A else if ltb q (mib * 2 ^ 20) then 0xA5 else 0))
      × (8 * slice mib ≡ mib * 2 ^ 20)
unfolding fleet_child dirty_all
fleet_child_lem mib n q small le aligned = (
  ap (λ size. warm_rounds size n 0 (dirty_all size (λ _. 0)) q) whole
      ∙ (rounds_at mib n 0 q (dirty_all (mib * 2 ^ 20) (λ _. 0)) (omega arith) aligned
          ∙ ground (arith, dirtied, zero-mul (slice mib), zero-add-mul)),
  omega arith,
)
  where
    whole : mib * 2 ^ 20 % 2 ^ 64 ≡ mib * 2 ^ 20
    whole = omega arith

    zero-add-mul : (0 + n) * slice mib ≡ n * slice mib
    zero-add-mul = ap (λ t. t * slice mib) (omega arith)

    dirtied : dirty_all (mib * 2 ^ 20) (λ _. 0) q ≡ (if ltb q (mib * 2 ^ 20) then 0xA5 else 0)
    dirtied =
        write_each_at (λ off. 0xA5) (step_by 0 (mib * 2 ^ 20) stride) (λ _. 0) q
        ∙ ap (λ b. if b then 0xA5 else 0) (contains-step_by 0 (mib * 2 ^ 20) q)
        ∙ ground arith
