-- ===== src/AllocShape/Text.antt =====
-- `split(':')` and `format!` as crates/hv-reclaim/src/alloc_shape.rs uses them.
use macos_vm_memory_ratchet.Prelude.{
  ℕ, ◌≡◌, refl, ap, ◌∙◌, arith, Bool, true, false, not, ◌&&◌, List, ◌==◌, if◌then◌else◌,
}
use Prim.Native.Char.{Char, code}
use Prim.Native.String.{String, [], ◌∷◌, ◌++◌}
use text.Mathlib.TextLemmas.{nil-append, cons-append}

abbrev colon : ℕ
colon = 58

-- A character in front of the first part.
abbrev grow : Char → List String → List String
grow c List.[] = List.◌∷◌ (c ∷ []) List.[]
grow c (List.◌∷◌ part parts) = List.◌∷◌ (c ∷ part) parts

pub split : String → List String
split [] = List.◌∷◌ [] List.[]
split (c ∷ rest) = if code c == colon then List.◌∷◌ [] (split rest) else grow c (split rest)

abbrev pub is_plain : String → Bool
is_plain [] = true
is_plain (c ∷ rest) = not (code c == colon) && is_plain rest

pub split_plain : (s : String) → is_plain s ≡ true → split s ≡ List.◌∷◌ s List.[]
unfolding split
split_plain [] h = refl
split_plain (c ∷ rest) h =
    (rw (miss, if◌then◌else◌)) ∙ ap (grow c) (split_plain rest (ground arith))
  where
    miss : (code c == colon) ≡ false
    miss = ground arith

colon-append : (rest : String) → ":" ++ rest ≡ ":" ∷ rest
colon-append rest = cons-append ":" [] rest ∙ ap (λ r. ":" ∷ r) (nil-append rest)

pub split-append :
    (s rest : String) → is_plain s ≡ true → split (s ++ (":" ++ rest)) ≡ List.◌∷◌ s (split rest)
unfolding split
split-append [] rest h = ap split (nil-append (":" ++ rest) ∙ colon-append rest)
split-append (c ∷ s) rest h =
    ap split (cons-append c s (":" ++ rest))
    ∙ ((rw (miss, if◌then◌else◌)) ∙ ap (grow c) (split-append s rest (ground arith)))
  where
    miss : (code c == colon) ≡ false
    miss = ground arith
