-- ===== src/AllocShape/Spec.antt =====
-- The text that names a cell, as `run` of crates/hv-reclaim/src/alloc_shape.rs writes it for the
-- child and `maybe_run_cell` reads it there.
use macos_vm_memory_ratchet.Prelude.{
  ℕ, zero, suc, ◌*◌, ◌/◌, ◌%◌, ◌^◌, ◌<◌, ◌≡◌, refl, ap, ◌∙◌, arith, true, List, [], ◌∷◌, ltb,
  if◌then◌else◌, Bool-cases, inl, inr, none, some, Result, ok, panicked, out_of_fuel,
}
use Prim.Native.String.{String, ◌++◌}
use macos_vm_memory_ratchet.Options.Numbers.{
  digit_char-code, print_digits, print_usize, parse_usize, parse_usize-print_usize,
}
use macos_vm_memory_ratchet.AllocShape.{
  Shape, mmap_private, mmap_shared, hv_allocate, Toucher, host, guest, Sequence, in_place,
  unmap_first, unmap_only, shape_tag, toucher_name, sequence_tag, parse_shape, parse_toucher,
  parse_sequence,
}
use macos_vm_memory_ratchet.AllocShape.Text.{split, is_plain, split_plain, split-append}

-- What `run_cell` is called with.
pub record Cell : Type 0 where
  pub shape : Shape
  pub toucher : Toucher
  pub sequence : Sequence
  pub size : ℕ

-- `format!("{}:{}:{}:{size_gb}", …)`.
pub spec : Shape → Toucher → Sequence → ℕ → String
spec s t q size_gb =
    shape_tag s
    ++ (":" ++ (toucher_name t ++ (":" ++ (sequence_tag q ++ (":" ++ print_usize size_gb)))))

parse_parts : List String → Result Cell
parse_parts (s ∷ (t ∷ (q ∷ (n ∷ [])))) = elim (parse_shape s) [
  | ok shape ↦ elim (parse_toucher t) [
    | ok toucher ↦ elim (parse_sequence q) [
      | ok sequence ↦ elim (parse_usize n) [
        | some size_gb ↦ ok (record {
          shape = shape;
          toucher = toucher;
          sequence = sequence;
          size = size_gb * 2 ^ 30 % 2 ^ 64;
        })
        | none ↦ panicked "cell size"
      ]
      | panicked what ↦ panicked what
      | out_of_fuel ↦ out_of_fuel
    ]
    | panicked what ↦ panicked what
    | out_of_fuel ↦ out_of_fuel
  ]
  | panicked what ↦ panicked what
  | out_of_fuel ↦ out_of_fuel
]
parse_parts parts = panicked "cell spec is shape:toucher:sequence:size_gb"

-- `maybe_run_cell` with the variable set, up to the call of `run_cell`.
pub parse_cell : String → Result Cell
parse_cell text = parse_parts (split text)

parse_shape-shape_tag : (s : Shape) → parse_shape (shape_tag s) ≡ ok s
unfolding parse_shape
parse_shape-shape_tag mmap_private = refl
parse_shape-shape_tag mmap_shared = refl
parse_shape-shape_tag hv_allocate = refl

parse_toucher-toucher_name : (t : Toucher) → parse_toucher (toucher_name t) ≡ ok t
unfolding parse_toucher
parse_toucher-toucher_name host = refl
parse_toucher-toucher_name guest = refl

parse_sequence-sequence_tag : (q : Sequence) → parse_sequence (sequence_tag q) ≡ ok q
unfolding parse_sequence
parse_sequence-sequence_tag in_place = refl
parse_sequence-sequence_tag unmap_first = refl
parse_sequence-sequence_tag unmap_only = refl

print_digits-plain :
    (fuel n : ℕ) (rest : String) → is_plain rest ≡ true → is_plain (print_digits fuel n rest) ≡ true
unfolding print_digits
print_digits-plain zero n rest h = ground (arith, digit_char-code (n % 10) (omega arith))
print_digits-plain (suc fuel) n rest h = elim (Bool-cases (ltb n 10)) [
  | inl small ↦ rw (small, if◌then◌else◌) (ground (arith, h, digit_char-code n (ground arith)))
  | inr large ↦
      rw (large, if◌then◌else◌)
        (print_digits-plain fuel (n / 10) _
          (ground (arith, digit_char-code (n % 10) (omega arith))))
]

spec-parts :
    (s : Shape) (t : Toucher) (q : Sequence) (n : ℕ)
    → split (spec s t q n)
      ≡ shape_tag s ∷ (toucher_name t ∷ (sequence_tag q ∷ (print_usize n ∷ [])))
unfolding spec print_usize
spec-parts s t q n =
    split-append (shape_tag s) _ (shape_plain s)
    ∙ ap (◌∷◌ (shape_tag s)) (
        split-append (toucher_name t) _ (toucher_plain t)
        ∙ ap (◌∷◌ (toucher_name t)) (
            split-append (sequence_tag q) _ (sequence_plain q)
            ∙ ap (◌∷◌ (sequence_tag q))
                (split_plain (print_usize n) (print_digits-plain n n _ refl))))
  where
    shape_plain : (s : Shape) → is_plain (shape_tag s) ≡ true
    shape_plain mmap_private = refl
    shape_plain mmap_shared = refl
    shape_plain hv_allocate = refl

    toucher_plain : (t : Toucher) → is_plain (toucher_name t) ≡ true
    toucher_plain host = refl
    toucher_plain guest = refl

    sequence_plain : (q : Sequence) → is_plain (sequence_tag q) ≡ true
    sequence_plain in_place = refl
    sequence_plain unmap_first = refl
    sequence_plain unmap_only = refl

-- A child reads back exactly the cell that its parent wrote: the same shape, toucher and sequence,
-- and the size in bytes.
pub parse_cell-spec :
    (s : Shape) (t : Toucher) (q : Sequence) (size_gb : ℕ)
    → size_gb < 2 ^ 64
    → parse_cell (spec s t q size_gb)
      ≡ ok (record { shape = s; toucher = t; sequence = q; size = size_gb * 2 ^ 30 % 2 ^ 64 })
unfolding parse_cell parse_parts
parse_cell-spec s t q size_gb lt = ap parse_parts (spec-parts s t q size_gb) ∙ read
  where
    read :
        parse_parts (shape_tag s ∷ (toucher_name t ∷ (sequence_tag q ∷ (print_usize size_gb ∷ []))))
        ≡ ok (record { shape = s; toucher = t; sequence = q; size = size_gb * 2 ^ 30 % 2 ^ 64 })
    read = rw (
      parse_parts,
      parse_shape-shape_tag s,
      parse_toucher-toucher_name t,
      parse_sequence-sequence_tag q,
      parse_usize-print_usize size_gb lt,
    )
