-- ===== src/AllocShape.antt =====
-- crates/hv-reclaim/src/alloc_shape.rs: the matrix of allocation shapes, who touches the memory, and
-- how it is released. Each cell runs in a child process that is given the cell as a text (child
-- Spec); what a cell does to the memory is in child Cell, the table and its verdicts in child Matrix.
pub mod Text
pub mod Spec
pub mod Cell
pub mod Matrix
pub mod Collect
pub mod Words
pub mod Collected
pub mod Tests
use macos_vm_memory_ratchet.Prelude.{Bool, true, false, if◌then◌else◌, Result, ok, panicked}
use Prim.Native.String.{String}
use text.Mathlib.Text.{◌==◌ as str_eq}

pub data Shape : Type 0 where
  mmap_private mmap_shared hv_allocate : Shape

pub data Toucher : Type 0 where
  host guest : Toucher

pub data Sequence : Type 0 where
  in_place unmap_first unmap_only : Sequence

abbrev pub shape_tag : Shape → String
shape_tag mmap_private = "private"
shape_tag mmap_shared = "shared"
shape_tag hv_allocate = "hvalloc"

abbrev pub toucher_name : Toucher → String
toucher_name host = "host"
toucher_name guest = "guest"

abbrev pub sequence_tag : Sequence → String
sequence_tag in_place = "inplace"
sequence_tag unmap_first = "unmap"
sequence_tag unmap_only = "unmaponly"

unfoldable pub parse_shape : String → Result Shape
parse_shape s =
    if str_eq s "private"
    then ok mmap_private
    else if str_eq s "shared"
    then ok mmap_shared
    else if str_eq s "hvalloc"
    then ok hv_allocate
    else panicked "unknown shape"

unfoldable pub parse_toucher : String → Result Toucher
parse_toucher s =
    if str_eq s "host"
    then ok host
    else if str_eq s "guest"
    then ok guest
    else panicked "unknown toucher"

unfoldable pub parse_sequence : String → Result Sequence
parse_sequence s =
    if str_eq s "inplace"
    then ok in_place
    else if str_eq s "unmap"
    then ok unmap_first
    else if str_eq s "unmaponly"
    then ok unmap_only
    else panicked "unknown sequence"
