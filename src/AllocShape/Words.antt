-- ===== src/AllocShape/Words.antt =====
-- The line that `run_cell` of crates/hv-reclaim/src/alloc_shape.rs prints comes apart into its words.
use macos_vm_memory_ratchet.Prelude.{◌≡◌, refl, sym, ap, ◌∙◌, true, List, [], ◌∷◌}
use Prim.Native.Char.{Char}
use Prim.Native.String.{String}
use macos_vm_memory_ratchet.Options.Numbers.{print_usize}
use macos_vm_memory_ratchet.Wire.{is_whitespace, split_whitespace, prepend, is_word}
use macos_vm_memory_ratchet.Wire.Trim.{split_word, split-prepend, print_usize-is_word}
use macos_vm_memory_ratchet.AllocShape.{
  Shape, mmap_private, mmap_shared, hv_allocate, Toucher, host, guest, Sequence, in_place,
  unmap_first, unmap_only, shape_tag, toucher_name, sequence_tag,
}
use macos_vm_memory_ratchet.AllocShape.Cell.{Status, skipped, done, failed}
use macos_vm_memory_ratchet.AllocShape.Collect.{status_text, join}

-- Not empty, and without white space.
abbrev pub IsWord : String → Type 0
IsWord s = (c : Char) × (more : String) × (s ≡ String.◌∷◌ c more) × (is_word s ≡ true)

abbrev pub AllWords : List String → Type 0
AllWords [] = Unit {0}
AllWords (w ∷ rest) = IsWord w × AllWords rest

pub split-join : (ws : List String) → AllWords ws → split_whitespace (join ws) ≡ ws
unfolding split_whitespace
split-join [] h = refl
split-join (w ∷ []) ((c, more, e, word), h) =
    ap split_whitespace e ∙ split_word c more (ap is_word (sym e) ∙ word) ∙ ap (λ v. v ∷ []) (sym e)
split-join (w ∷ v ∷ rest) ((c, more, e, word), h) =
    ap (λ u. split_whitespace (prepend u (prepend " " (join (v ∷ rest))))) e
    ∙ split-prepend c more (join (v ∷ rest)) (ap is_word (sym e) ∙ word)
    ∙ ap (λ u. u ∷ split_whitespace (join (v ∷ rest))) (sym e)
    ∙ ap (λ l. w ∷ l) (split-join (v ∷ rest) h)

pub tag-IsWord : (s : Shape) → IsWord (shape_tag s)
unfolding is_whitespace
tag-IsWord mmap_private = ("p", "rivate", refl, refl)
tag-IsWord mmap_shared = ("s", "hared", refl, refl)
tag-IsWord hv_allocate = ("h", "valloc", refl, refl)

pub name-IsWord : (t : Toucher) → IsWord (toucher_name t)
unfolding is_whitespace
name-IsWord host = ("h", "ost", refl, refl)
name-IsWord guest = ("g", "uest", refl, refl)

pub sequence-IsWord : (q : Sequence) → IsWord (sequence_tag q)
unfolding is_whitespace
sequence-IsWord in_place = ("i", "nplace", refl, refl)
sequence-IsWord unmap_first = ("u", "nmap", refl, refl)
sequence-IsWord unmap_only = ("u", "nmaponly", refl, refl)

pub status-IsWord : (status : Status) → IsWord (status_text status)
unfolding is_whitespace
status-IsWord skipped = ("n", "one", refl, refl)
status-IsWord done = ("o", "k", refl, refl)
status-IsWord (failed errno) =
    ("e", prepend "rrno" (print_usize errno), refl, print_usize-is_word errno)
