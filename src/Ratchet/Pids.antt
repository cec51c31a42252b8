-- ===== src/Ratchet/Pids.antt =====
-- Process ids, and `running_helpers` of crates/vz-ratchet/src/helper.rs: the ids among the lines that
-- `pgrep` prints, read by `str::parse::<i32>`.
use macos_vm_memory_ratchet.Prelude.{
  ℕ, zero, suc, ◌^◌, ◌<◌, ◌≡◌, refl, sym, ap, ◌∙◌, arith, Bool, true, false, ◌||◌, List, [], ◌∷◌,
  map, Option, none, some, ltb, ◌==◌, if◌then◌else◌,
}
use Prim.Native.Char.{code}
use Prim.Native.String.{String}
use macos_vm_memory_ratchet.Options.Numbers.{
  parse_unsigned, parse_usize, print_usize, parse_usize-print_usize, digit_char, digit_char-code,
  print_digits-head,
}
use macos_vm_memory_ratchet.Ledger.Pages.{contains}
use macos_vm_memory_ratchet.Wire.{trim}
use macos_vm_memory_ratchet.Wire.Trim.{trim_word, print_usize-is_word}

-- An `i32`; `negsuc n` is the negative of n + 1.
pub data ℤ : Type 0 where
  pos negsuc : ℕ → ℤ

abbrev pub same_pid : ℤ → ℤ → Bool
same_pid (pos m) (pos n) = m == n
same_pid (negsuc m) (negsuc n) = m == n
same_pid _ _ = false

abbrev pub contains_pid : List ℤ → ℤ → Bool
contains_pid [] q = false
contains_pid (p ∷ rest) q = same_pid q p || contains_pid rest q

-- The number behind a minus sign.
abbrev pub negated : ℕ → Option ℤ
negated zero = some (pos 0)
negated (suc n) = if ltb n (2 ^ 31) then some (negsuc n) else none

abbrev pub as_pid : Option ℕ → Option ℤ
as_pid none = none
as_pid (some n) = if ltb n (2 ^ 31) then some (pos n) else none

abbrev pub as_negative : Option ℕ → Option ℤ
as_negative none = none
as_negative (some n) = negated n

unfoldable pub parse_i32 : String → Option ℤ
unfolding parse_unsigned
parse_i32 String.[] = none
parse_i32 (String.◌∷◌ c rest) =
    if code c == 43
    then as_pid (parse_unsigned rest)
    else if code c == 45
    then as_negative (parse_unsigned rest)
    else as_pid (parse_unsigned (String.◌∷◌ c rest))

-- `filter_map`.
abbrev pub gather : Option ℤ → List ℤ → List ℤ
gather none pids = pids
gather (some pid) pids = pid ∷ pids

unfoldable pub running_helpers : List String → List ℤ
unfolding parse_i32
running_helpers [] = []
running_helpers (line ∷ rest) = gather (parse_i32 (trim line)) (running_helpers rest)

pub same_pid_refl : (p : ℤ) → same_pid p p ≡ true
same_pid_refl (pos n) = ground arith
same_pid_refl (negsuc n) = ground arith

pub same_pid-eq : (p q : ℤ) → same_pid p q ≡ true → p ≡ q
same_pid-eq (pos m) (pos n) h = ap pos (ground arith)
same_pid-eq (negsuc m) (negsuc n) h = ap negsuc (ground arith)
same_pid-eq (pos m) (negsuc n) h = absurd (cc)
same_pid-eq (negsuc m) (pos n) h = absurd (cc)

-- A text that starts with a digit has no sign.
parse_i32-digit :
    (d : ℕ) (more : String)
    → d < 10
    → parse_i32 (String.◌∷◌ (digit_char d) more)
      ≡ as_pid (parse_usize (String.◌∷◌ (digit_char d) more))
unfolding parse_i32 parse_usize
parse_i32-digit d more lt =
    let plus : (code (digit_char d) == 43) ≡ false = ground (arith, digit_char-code d lt) in
    let minus : (code (digit_char d) == 45) ≡ false = ground (arith, digit_char-code d lt) in
    rw (plus, minus) refl

pub parse_i32-print_usize : (n : ℕ) → n < 2 ^ 31 → parse_i32 (print_usize n) ≡ some (pos n)
unfolding print_usize
parse_i32-print_usize n lt =
    let (d, small, (more, e)) = print_digits-head n n String.[] in
    ap parse_i32 e
    ∙ (parse_i32-digit d more small
        ∙ (ap (λ s. as_pid (parse_usize s)) (sym e)
            ∙ (ap as_pid (parse_usize-print_usize n (omega (arith, lt))) ∙ ground arith)))

-- Ids that are printed one to a line are read back.
pub running_helpers-print :
    (ns : List ℕ)
    → ((n : ℕ) → contains ns n ≡ true → n < 2 ^ 31)
    → running_helpers (map print_usize ns) ≡ map pos ns
unfolding running_helpers
running_helpers-print [] h = refl
running_helpers-print (n ∷ rest) h =
    let read : parse_i32 (trim (print_usize n)) ≡ some (pos n) =
      ap parse_i32 (trim_word (print_usize n) (print_usize-is_word n))
      ∙ parse_i32-print_usize n (h n (ground arith)) in
    let others : running_helpers (map print_usize rest) ≡ map pos rest =
      running_helpers-print rest (λ m c. h m (ground arith)) in
    rw (read, others) refl
