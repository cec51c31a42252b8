-- ===== src/Wire.antt =====
-- Lines of text as the programs of the repository take them apart: `str::strip_prefix`, `str::trim`,
-- `str::trim_end_matches`, `str::split_whitespace` and `str::lines` of the standard library.
pub mod Trim
use macos_vm_memory_ratchet.Prelude.{
  ℕ, Bool, true, false, not, ◌&&◌, ◌||◌, leb, ◌==◌, if◌then◌else◌, Option, none, some,
}
use mathlib.Core.List.{List}
use Prim.Native.Char.{Char, code}
use Prim.Native.String.{String, [], ◌∷◌}

-- `char::is_whitespace`: White_Space of Unicode.
unfoldable pub is_whitespace : Char → Bool
is_whitespace c =
    let u = code c in
    leb 9 u && leb u 13
    || u == 0x20
    || u == 0x85
    || u == 0xA0
    || u == 0x1680
    || leb 0x2000 u && leb u 0x200A
    || u == 0x2028
    || u == 0x2029
    || u == 0x202F
    || u == 0x205F
    || u == 0x3000

unfoldable pub strip_prefix : String → String → Option String
strip_prefix [] s = some s
strip_prefix (c ∷ prefix) [] = none
strip_prefix (c ∷ prefix) (d ∷ s) = if code c == code d then strip_prefix prefix s else none

unfoldable pub trim_start : String → String
trim_start [] = []
trim_start (c ∷ s) = if is_whitespace c then trim_start s else c ∷ s

-- A character in front of what is left, unless it is white space with nothing behind it.
abbrev pub keep : Char → String → String
keep c [] = if is_whitespace c then [] else c ∷ []
keep c (d ∷ s) = c ∷ (d ∷ s)

unfoldable pub trim_end : String → String
trim_end [] = []
trim_end (c ∷ s) = keep c (trim_end s)

unfoldable pub trim : String → String
unfolding trim_start trim_end
trim s = trim_end (trim_start s)

-- The words of a line; `word` is whether the last character belonged to one.
abbrev pub extend : Char → Bool → List String → List String
extend c true (List.◌∷◌ w words) = List.◌∷◌ (c ∷ w) words
extend c true List.[] = List.◌∷◌ (c ∷ []) List.[]
extend c false words = List.◌∷◌ (c ∷ []) words

abbrev pub starts_word : String → Bool
starts_word [] = false
starts_word (c ∷ s) = if is_whitespace c then false else true

unfoldable pub split_whitespace : String → List String
split_whitespace [] = List.[]
split_whitespace (c ∷ s) =
    if is_whitespace c then split_whitespace s else extend c (starts_word s) (split_whitespace s)

-- `==` on texts.
abbrev pub equals : String → String → Bool
equals [] [] = true
equals [] (d ∷ t) = false
equals (c ∷ s) [] = false
equals (c ∷ s) (d ∷ t) = code c == code d && equals s t

-- A text behind a fixed one, as `format!` puts it.
abbrev pub prepend : String → String → String
prepend [] s = s
prepend (c ∷ prefix) s = c ∷ prepend prefix s

-- No white space.
abbrev pub is_word : String → Bool
is_word [] = true
is_word (c ∷ s) = not (is_whitespace c) && is_word s
