-- ===== src/Options/Numbers.antt =====
-- `str::parse::<usize>` as the command lines use it: an optional plus sign, then decimal digits, at
-- least one, of a number below 2 ^ 64.
use macos_vm_memory_ratchet.Prelude.{
  ℕ, zero, suc, ◌+◌, ◌-◌, ◌*◌, ◌/◌, ◌%◌, ◌∙◌, ap, sym, get_elem?, Bool-cases, inl, inr, ◌^◌, ◌≤◌,
  ◌<◌, ◌≡◌, refl, arith, ◌&&◌, ◌==◌, leb, ltb, if◌then◌else◌, Option, none, some,
}
use mathlib.Core.List.{List}
use Prim.Native.String.{String, [], ◌∷◌}
use Prim.Native.Char.{Char, code, nul}

abbrev digit : Char → Option ℕ
digit c = if leb 48 (code c) && leb (code c) 57 then some (code c - 48) else none

unfoldable pub parse_digits : String → ℕ → Option ℕ
parse_digits [] n = some n
parse_digits (c ∷ rest) n = elim (digit c) [
  | none ↦ none
  | some d ↦ if ltb (n * 10 + d) (2 ^ 64) then parse_digits rest (n * 10 + d) else none
]

unfoldable pub parse_unsigned : String → Option ℕ
parse_unsigned [] = none
parse_unsigned (c ∷ rest) = parse_digits (c ∷ rest) 0

unfoldable pub parse_usize : String → Option ℕ
parse_usize [] = none
parse_usize (c ∷ rest) = if code c == 43 then parse_unsigned rest else parse_unsigned (c ∷ rest)

parse_digits-lt : (s : String) (n m : ℕ) → n < 2 ^ 64 → parse_digits s n ≡ some m → m < 2 ^ 64
unfolding parse_digits
parse_digits-lt [] n m lt h = ground arith
parse_digits-lt (c ∷ rest) n m lt h =
    ground (arith, parse_digits-lt rest (n * 10 + (code c - 48)) m)

parse_unsigned-lt : (s : String) (m : ℕ) → parse_unsigned s ≡ some m → m < 2 ^ 64
unfolding parse_unsigned
parse_unsigned-lt [] m h = ground arith
parse_unsigned-lt (c ∷ rest) m h = parse_digits-lt (c ∷ rest) 0 m (omega arith) h

pub parse_usize-lt : (s : String) (m : ℕ) → parse_usize s ≡ some m → m < 2 ^ 64
unfolding parse_usize
parse_usize-lt [] m h = ground arith
parse_usize-lt (c ∷ rest) m h =
    ground (arith, parse_unsigned-lt rest m, parse_unsigned-lt (c ∷ rest) m)

-- How a number is printed, `{}`: its decimal digits.
abbrev digit_chars : List Char
digit_chars = List.◌∷◌ "0" (
    List.◌∷◌ "1" (
      List.◌∷◌ "2" (
        List.◌∷◌ "3" (
          List.◌∷◌ "4"
            (List.◌∷◌ "5" (List.◌∷◌ "6" (List.◌∷◌ "7" (List.◌∷◌ "8" (List.◌∷◌ "9" List.[])))))))))

unfoldable pub digit_char : ℕ → Char
digit_char d = elim (get_elem? digit_chars d) [ none ↦ nul | some c ↦ c ]

-- The digits in front of those that are printed; the number is fuel enough.
unfoldable pub print_digits : ℕ → ℕ → String → String
print_digits zero n rest = digit_char (n % 10) ∷ rest
print_digits (suc fuel) n rest =
    if ltb n 10
    then digit_char n ∷ rest
    else print_digits fuel (n / 10) (digit_char (n % 10) ∷ rest)

unfoldable pub print_usize : ℕ → String
print_usize n = print_digits n n []

pub digit_char-code : (d : ℕ) → d < 10 → code (digit_char d) ≡ 48 + d
unfolding digit_char
digit_char-code zero h = refl
digit_char-code (suc zero) h = refl
digit_char-code (suc (suc zero)) h = refl
digit_char-code (suc (suc (suc zero))) h = refl
digit_char-code (suc (suc (suc (suc zero)))) h = refl
digit_char-code (suc (suc (suc (suc (suc zero))))) h = refl
digit_char-code (suc (suc (suc (suc (suc (suc zero)))))) h = refl
digit_char-code (suc (suc (suc (suc (suc (suc (suc zero))))))) h = refl
digit_char-code (suc (suc (suc (suc (suc (suc (suc (suc zero)))))))) h = refl
digit_char-code (suc (suc (suc (suc (suc (suc (suc (suc (suc zero))))))))) h = refl
digit_char-code (suc (suc (suc (suc (suc (suc (suc (suc (suc (suc d)))))))))) h =
    absurd (omega arith)

parse_digits-cons :
    (d : ℕ) (rest : String) (n : ℕ)
    → d < 10
    → n * 10 + d < 2 ^ 64
    → parse_digits (digit_char d ∷ rest) n ≡ parse_digits rest (n * 10 + d)
unfolding parse_digits
parse_digits-cons d rest n h lt = ground (arith, digit_char-code d h)

parse_digits-print_digits :
    (fuel n : ℕ) (rest : String)
    → n ≤ fuel
    → n < 2 ^ 64
    → parse_digits (print_digits fuel n rest) 0 ≡ parse_digits rest n
unfolding print_digits
parse_digits-print_digits zero n rest le lt =
    parse_digits-cons (n % 10) rest 0 (omega arith) (omega arith)
    ∙ ap (parse_digits rest) (omega arith)
parse_digits-print_digits (suc fuel) n rest le lt = elim (Bool-cases (ltb n 10)) [
  | inl small ↦
      (rw (small, if◌then◌else◌))
      ∙ (parse_digits-cons n rest 0 (ground arith) (ground arith)
          ∙ ap (parse_digits rest) (omega arith))
  | inr large ↦
      (rw (large, if◌then◌else◌))
      ∙ (parse_digits-print_digits fuel (n / 10) (digit_char (n % 10) ∷ rest) (ground arith)
            (omega arith)
          ∙ (parse_digits-cons (n % 10) rest (n / 10) (omega arith) (omega arith)
              ∙ ap (parse_digits rest) (omega arith)))
]

-- The first printed character is a digit, so no plus sign.
pub print_digits-head :
    (fuel n : ℕ) (rest : String)
    → (d : ℕ) × (d < 10) × ((more : String) × (print_digits fuel n rest ≡ digit_char d ∷ more))
unfolding print_digits
print_digits-head zero n rest = (n % 10, omega arith, (rest, refl))
print_digits-head (suc fuel) n rest = elim (Bool-cases (ltb n 10)) [
  | inl small ↦ (n, ground arith, (rest, rw (small, if◌then◌else◌)))
  | inr large ↦
      let (d, lt, (more, e)) = print_digits-head fuel (n / 10) (digit_char (n % 10) ∷ rest) in
      (d, lt, (more, (rw (large, if◌then◌else◌)) ∙ e))
]

parse_usize-digits :
    (d : ℕ) (more : String)
    → d < 10
    → parse_usize (digit_char d ∷ more) ≡ parse_digits (digit_char d ∷ more) 0
unfolding parse_usize parse_unsigned
parse_usize-digits d more lt = ground (arith, digit_char-code d lt)

-- Every `usize` that is printed is read back.
pub parse_usize-print_usize : (n : ℕ) → n < 2 ^ 64 → parse_usize (print_usize n) ≡ some n
unfolding print_usize parse_digits
parse_usize-print_usize n lt =
    let (d, small, (more, e)) = print_digits-head n n [] in
    ap parse_usize e
    ∙ (parse_usize-digits d more small
        ∙ (ap (λ s. parse_digits s 0) (sym e) ∙ parse_digits-print_digits n n [] (omega arith) lt))
