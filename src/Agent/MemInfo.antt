-- ===== src/Agent/MemInfo.antt =====
-- `mem_available_kib` of guest-init/src/main.rs, on the lines of /proc/meminfo.
use macos_vm_memory_ratchet.Prelude.{
  ℕ, ◌<◌, ◌^◌, ◌≡◌, refl, ap, sym, ◌∙◌, arith, Bool, true, ◌&&◌, Option, none, some, if◌then◌else◌,
  Result, ok, panicked, ◌==◌,
}
use mathlib.Core.List.{List, ◌++◌}
use mathlib.Core.Path.{subst}
use Prim.Native.Char.{Char, code}
use Prim.Native.String.{String, [], ◌∷◌}
use macos_vm_memory_ratchet.Options.Numbers.{parse_usize, print_usize, parse_usize-print_usize}
use macos_vm_memory_ratchet.Wire.{
  is_whitespace, strip_prefix, trim_start, keep, trim_end, trim, equals, prepend, is_word,
}
use macos_vm_memory_ratchet.Wire.Trim.{print_usize-is_word, print_usize-head}

-- `trim_end_matches("kB")`: every `kB` at the end goes.
abbrev drop_kb : Char → String → String
drop_kb c [] = c ∷ []
drop_kb c (d ∷ s) = if code c == 107 && equals (d ∷ s) "B" then [] else c ∷ (d ∷ s)

pub trim_end_kb : String → String
trim_end_kb [] = []
trim_end_kb (c ∷ s) = drop_kb c (trim_end_kb s)

abbrev expect : Option ℕ → Result ℕ
expect none = panicked "parse MemAvailable"
expect (some n) = ok n

unfoldable pub mem_available_kib : List String → Result ℕ
unfolding trim_end_kb
mem_available_kib List.[] = panicked "MemAvailable not in /proc/meminfo"
mem_available_kib (List.◌∷◌ line rest) = elim (strip_prefix "MemAvailable:" line) [
  | some figure ↦ expect (parse_usize (trim (trim_end_kb (trim figure))))
  | none ↦ mem_available_kib rest
]

-- No line has the prefix.
abbrev pub AllMiss : List String → Type 0
AllMiss List.[] = Unit {0}
AllMiss (List.◌∷◌ line rest) = (strip_prefix "MemAvailable:" line ≡ none) × AllMiss rest

abbrev pub is_blank : String → Bool
is_blank [] = true
is_blank (c ∷ s) = is_whitespace c && is_blank s

trim_start_blank :
    (pad s : String) → is_blank pad ≡ true → trim_start (prepend pad s) ≡ trim_start s
unfolding trim_start
trim_start_blank [] s h = refl
trim_start_blank (c ∷ pad) s h = ground (arith, trim_start_blank pad s)

abbrev kb : String
kb = " kB"

kb_end : trim_end kb ≡ kb
unfolding trim_end is_whitespace
kb_end = refl

space_end : trim_end " " ≡ []
unfolding trim_end is_whitespace
space_end = refl

trim_end-kb : (s : String) → is_word s ≡ true → trim_end (prepend s kb) ≡ prepend s kb
unfolding trim_end
trim_end-kb [] h = kb_end
trim_end-kb (c ∷ s) h = ap (keep c) (trim_end-kb s (ground arith)) ∙ kept s
  where
    kept : (t : String) → keep c (prepend t kb) ≡ c ∷ prepend t kb
    kept [] = refl
    kept (d ∷ t) = refl

-- The unit goes, and the space in front of it is left.
trim_end_kb_lem : (s : String) → is_word s ≡ true → trim_end_kb (prepend s kb) ≡ prepend s " "
unfolding trim_end_kb
trim_end_kb_lem [] h = refl
trim_end_kb_lem (c ∷ s) h = ap (drop_kb c) (trim_end_kb_lem s (ground arith)) ∙ kept s
  where
    kept : (t : String) → drop_kb c (prepend t " ") ≡ c ∷ prepend t " "
    kept [] = ground arith
    kept (d ∷ []) = ground arith
    kept (d ∷ (e ∷ t)) = ground arith

trim_end_space : (s : String) → is_word s ≡ true → trim_end (prepend s " ") ≡ s
unfolding trim_end
trim_end_space [] h = space_end
trim_end_space (c ∷ s) h = ap (keep c) (trim_end_space s (ground arith)) ∙ kept s
  where
    kept : (t : String) → keep c t ≡ c ∷ t
    kept [] = ground arith
    kept (d ∷ t) = refl

-- A word with something behind it is not trimmed in front.
trim_start-word :
    (d : Char) (s t : String)
    → is_word (d ∷ s) ≡ true
    → trim_start (prepend (d ∷ s) t) ≡ prepend (d ∷ s) t
unfolding trim_start
trim_start-word d s t h = ground arith

-- The figure of a line, with blanks in front and the unit behind.
figure :
    (pad : String) (d : Char) (s : String)
    → is_blank pad ≡ true
    → is_word (d ∷ s) ≡ true
    → trim (trim_end_kb (trim (prepend pad (prepend (d ∷ s) kb)))) ≡ d ∷ s
unfolding trim
figure pad d s blank word =
    ap (λ x. trim_end (trim_start (trim_end_kb (trim_end x))))
      (trim_start_blank pad (prepend (d ∷ s) kb) blank ∙ trim_start-word d s kb word)
    ∙ (ap (λ x. trim_end (trim_start (trim_end_kb x))) (trim_end-kb (d ∷ s) word)
        ∙ (ap (λ x. trim_end (trim_start x)) (trim_end_kb_lem (d ∷ s) word)
            ∙ (ap trim_end (trim_start-word d s " " word) ∙ trim_end_space (d ∷ s) word)))

-- The line of /proc/meminfo.
abbrev pub meminfo_line : String → ℕ → String
meminfo_line pad kib = prepend "MemAvailable:" (prepend pad (prepend (print_usize kib) kb))

pub first_figure :
    (pad : String) (kib : ℕ) (after : List String)
    → is_blank pad ≡ true
    → kib < 2 ^ 64
    → mem_available_kib (List.◌∷◌ (meminfo_line pad kib) after) ≡ ok kib
unfolding mem_available_kib strip_prefix
first_figure pad kib after blank lt =
    let (d, (more, e)) = print_usize-head kib in
    let word : is_word (d ∷ more) ≡ true =
      subst (λ s. is_word s ≡ true) e (print_usize-is_word kib) in
    ap (λ x. expect (parse_usize (trim (trim_end_kb (trim (prepend pad (prepend x kb))))))) e
    ∙ (ap (λ x. expect (parse_usize x)) (figure pad d more blank word)
        ∙ (ap (λ x. expect (parse_usize x)) (sym e) ∙ ap expect (parse_usize-print_usize kib lt)))

-- In a /proc/meminfo whose first line that starts with `MemAvailable:` has blanks, a `u64` and ` kB`
-- behind that, the agent finds the figure, whatever the other lines are; with no such line it panics.
pub mem_available_kib_lem :
    (before after : List String) (pad : String) (kib : ℕ)
    → AllMiss before
    → is_blank pad ≡ true
    → kib < 2 ^ 64
    → (mem_available_kib (before ++ List.◌∷◌ (meminfo_line pad kib) after) ≡ ok kib)
      × (mem_available_kib before ≡ panicked "MemAvailable not in /proc/meminfo")
unfolding mem_available_kib
mem_available_kib_lem List.[] after pad kib miss blank lt =
    (first_figure pad kib after blank lt, refl)
mem_available_kib_lem (List.◌∷◌ line before) after pad kib (first, miss) blank lt =
    let (found, none_found) = mem_available_kib_lem before after pad kib miss blank lt in
    (rw (first, mem_available_kib) found, rw (first, mem_available_kib) none_found)
