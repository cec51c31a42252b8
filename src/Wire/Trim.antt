-- ===== src/Wire/Trim.antt =====
-- Words stay what they are when a line is trimmed or split, printed numbers among them.
use macos_vm_memory_ratchet.Prelude.{
  ℕ, zero, suc, ◌/◌, ◌%◌, ◌<◌, ◌≡◌, ◌⊎◌, refl, ap, ◌∙◌, arith, true, false, if◌then◌else◌, ltb,
  Bool-cases, inl, inr,
}
use mathlib.Core.List.{List}
use Prim.Native.Char.{Char}
use Prim.Native.String.{String, [], ◌∷◌}
use macos_vm_memory_ratchet.Options.Numbers.{
  digit_char, digit_char-code, print_digits, print_usize, print_digits-head,
}
use macos_vm_memory_ratchet.Wire.{
  is_whitespace, trim_start, keep, trim_end, trim, split_whitespace, prepend, is_word,
}

pub trim_end_word : (s : String) → is_word s ≡ true → trim_end s ≡ s
unfolding trim_end
trim_end_word [] h = refl
trim_end_word (c ∷ s) h = ap (keep c) (trim_end_word s (ground arith)) ∙ kept s
  where
    kept : (t : String) → keep c t ≡ c ∷ t
    kept [] = ground arith
    kept (d ∷ t) = refl

-- What ends in a word is not trimmed at the end.
pub trim_end-prepend :
    (prefix : String) (d : Char) (s : String)
    → trim_end (d ∷ s) ≡ d ∷ s
    → trim_end (prepend prefix (d ∷ s)) ≡ prepend prefix (d ∷ s)
unfolding trim_end
trim_end-prepend [] d s h = h
trim_end-prepend (c ∷ prefix) d s h = ap (keep c) (trim_end-prepend prefix d s h) ∙ kept prefix
  where
    kept : (p : String) → keep c (prepend p (d ∷ s)) ≡ c ∷ prepend p (d ∷ s)
    kept [] = refl
    kept (e ∷ p) = refl

pub trim_word : (s : String) → is_word s ≡ true → trim s ≡ s
unfolding trim trim_start
trim_word [] h = trim_end_word [] h
trim_word (c ∷ s) h = ap trim_end (start (Bool-cases (is_whitespace c))) ∙ trim_end_word (c ∷ s) h
  where
    start :
        (is_whitespace c ≡ true) ⊎ (is_whitespace c ≡ false)
        → (if is_whitespace c then trim_start s else c ∷ s) ≡ c ∷ s
    start (inl e) = absurd (ground arith)
    start (inr e) = rw (e, if◌then◌else◌)

digit_char-is_word : (d : ℕ) → d < 10 → is_whitespace (digit_char d) ≡ false
unfolding is_whitespace
digit_char-is_word d h = ground (arith, digit_char-code d h)

print_digits-is_word :
    (fuel n : ℕ) (rest : String) → is_word rest ≡ true → is_word (print_digits fuel n rest) ≡ true
unfolding print_digits
print_digits-is_word zero n rest h = ground (arith, digit_char-is_word (n % 10) (omega arith))
print_digits-is_word (suc fuel) n rest h = elim (Bool-cases (ltb n 10)) [
  | inl small ↦ rw (small) (ground (arith, digit_char-is_word n (ground arith)))
  | inr large ↦ rw (large) (
      print_digits-is_word fuel (n / 10) (digit_char (n % 10) ∷ rest)
        (ground (arith, digit_char-is_word (n % 10) (omega arith))))
]

pub print_usize-is_word : (n : ℕ) → is_word (print_usize n) ≡ true
unfolding print_usize
print_usize-is_word n = print_digits-is_word n n [] refl

-- A printed number is not empty.
pub print_usize-head : (n : ℕ) → (d : Char) × ((more : String) × (print_usize n ≡ d ∷ more))
unfolding print_usize
print_usize-head n = let (d, lt, (more, e)) = print_digits-head n n [] in (digit_char d, (more, e))

pub split_word :
    (c : Char) (s : String)
    → is_word (c ∷ s) ≡ true
    → split_whitespace (c ∷ s) ≡ List.◌∷◌ (c ∷ s) List.[]
unfolding split_whitespace
split_word c [] h = ground arith
split_word c (d ∷ s) h = ground (arith, split_word d s)

space : is_whitespace " " ≡ true
unfolding is_whitespace
space = refl

-- A word in front of a space.
pub split-prepend :
    (c : Char) (s t : String)
    → is_word (c ∷ s) ≡ true
    → split_whitespace (prepend (c ∷ s) (" " ∷ t)) ≡ List.◌∷◌ (c ∷ s) (split_whitespace t)
unfolding split_whitespace
split-prepend c [] t h = ground (arith, space)
split-prepend c (d ∷ s) t h = ground (arith, split-prepend d s t)
