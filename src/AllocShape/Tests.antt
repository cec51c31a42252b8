-- ===== src/AllocShape/Tests.antt =====
-- The theorems about crates/hv-reclaim/src/alloc_shape.rs at concrete cells.
use macos_vm_memory_ratchet.Prelude.{
  ℕ, ◌+◌, ◌*◌, ◌^◌, ◌<◌, ◌≡◌, ◌↔◌, refl, arith, Bool, true, false, not, ◌&&◌, List, [], ◌∷◌, Option,
  none, some, if◌then◌else◌, ok, panicked, out_of_fuel,
}
use Prim.Native.String.{String}
use text.Mathlib.Text.{◌==◌ as str_eq}
use macos_vm_memory_ratchet.Ledger.Pages.{page}
use macos_vm_memory_ratchet.AllocShape.{
  Shape, mmap_private, mmap_shared, hv_allocate, Toucher, host, guest, Sequence, in_place,
  unmap_first, unmap_only,
}
use macos_vm_memory_ratchet.AllocShape.Spec.{spec, parse_cell, parse_cell-spec}
use macos_vm_memory_ratchet.AllocShape.Cell.{release_cell, release_cell_lem, reported}
use macos_vm_memory_ratchet.AllocShape.Matrix.{
  Verdicts, run_cells, verdicts, cell, cell-run_cells, verdicts-run_cells,
}
use macos_vm_memory_ratchet.AllocShape.Collect.{
  Printed, alloc_failed, measured, cell_line, Floats, released_of, run,
}
use macos_vm_memory_ratchet.AllocShape.Words.{IsWord}
use macos_vm_memory_ratchet.AllocShape.Collected.{
  IsPrinting, IsAnswered, whole, row_of, figures_of, run_table,
}
use macos_vm_memory_ratchet.Wire.{strip_prefix, is_whitespace}
use macos_vm_memory_ratchet.Reclaim.{Trace}
use macos_vm_memory_ratchet.Reclaim.Stage2.{view, IsSafe}
use macos_vm_memory_ratchet.Reclaim.Returns.{given}
use macos_vm_memory_ratchet.Reclaim.Bench.{kernel, compliant, ram, mapped, linear}

parse_cell-spec_example :
    parse_cell (spec hv_allocate guest unmap_only 12)
    ≡ ok
        (record { shape = hv_allocate; toucher = guest; sequence = unmap_only; size = 12 * 2 ^ 30 })
parse_cell-spec_example = parse_cell-spec hv_allocate guest unmap_only 12 (omega arith)

release_cell_example :
    (after : Trace) × (release_cell kernel ram (4 * page) in_place []
      ≡ ok (reported in_place, after))
    × ((p : ℕ) → view (mapped (4 * page)) after p ≡ mapped (4 * page) p)
    × ((p : ℕ) → p < 4 * page → given after (ram + p) ≡ true)
    × (IsSafe (mapped (4 * page)) after ↔ (true ≡ false))
release_cell_example =
    release_cell_lem kernel (mapped (4 * page)) ram (4 * page) [] compliant (linear (4 * page))
      in_place (omega arith) tt

-- What the ledger showed: advice releases host-touched private memory, unmapping guest-touched.
abbrev outcome : Shape → Toucher → Sequence → Bool
outcome mmap_private host unmap_only = false
outcome mmap_private host q = true
outcome mmap_private guest in_place = false
outcome mmap_private guest q = true
outcome s t q = false

cell-run_cells_example :
    cell (run_cells outcome) mmap_private guest unmap_first
    ≡ ok (record { shape = mmap_private; toucher = guest; sequence = unmap_first; released = true })
cell-run_cells_example = cell-run_cells outcome mmap_private guest unmap_first

verdicts-run_cells_example :
    (v : Verdicts) × (verdicts (run_cells outcome) ≡ ok v)
    × ((v.shape_matters ≡ true) ↔ ((s : Shape) × (outcome s guest in_place ≡ true)))
    × ((v.hv_released ≡ true)
        ↔ ((t : Toucher) × ((q : Sequence) × (outcome hv_allocate t q ≡ true))))
    × ((v.advice_idle ≡ true) ↔ (
        (outcome mmap_private guest unmap_only ≡ true)
        × (outcome mmap_private guest unmap_first ≡ true)
        × (outcome mmap_private host unmap_only ≡ false)))
verdicts-run_cells_example = verdicts-run_cells outcome

-- A float that is zero or not, and children whose figures are those of `outcome`.
abbrev show_figure : Bool → String
show_figure false = "0.0"
show_figure true = "-96.0"

abbrev parse_figure : String → Option Bool
parse_figure text = if str_eq text "-96.0" then some true else some false

shown : (x : Bool) → IsWord (show_figure x)
unfolding is_whitespace
shown true = ("-", "96.0", refl, refl)
shown false = ("0", ".0", refl, refl)

parsed : (x : Bool) → parse_figure (show_figure x) ≡ some x
parsed true = refl
parsed false = refl

prints : IsPrinting show_figure parse_figure false (λ x. x)
prints = record { shown = shown; parsed = parsed; zero = refl }

abbrev figures : Shape → Toucher → Sequence → Printed Bool
figures mmap_shared host in_place = alloc_failed
figures s t q =
    measured (reported q)
      (record { delta = outcome s t q; before = true; idle = false; reusable = false })

abbrev cell_child : String → Option (List String)
cell_child text = elim (parse_cell text) [
  | ok c ↦ some (
      "allocated"
      ∷ cell_line show_figure c.shape c.toucher c.sequence (figures c.shape c.toucher c.sequence)
      ∷ [])
  | panicked what ↦ none
  | out_of_fuel ↦ none
]

answered :
    (s : Shape) (t : Toucher) (q : Sequence)
    → IsAnswered show_figure parse_figure false (λ x. x) prints cell_child 3 figures s t q
unfolding strip_prefix
answered s t q =
    ("allocated" ∷ [], [], (refl, tt), rw (parse_cell-spec s t q 3 (omega arith), cell_child) refl)

-- The arithmetic of such floats: a figure that is not zero is below zero, and at least 64 if nothing
-- was there when the host was idle.
abbrev floats : Floats Bool
floats = record {
  minus = λ a b. a && not b;
  times = λ a b. b;
  negate = λ a. a;
  at_least = λ a b. a;
  at_most = λ a b. a;
  sixty_four = true;
  half = true;
}

abbrev credited : Shape → Toucher → Sequence → Bool
credited s t q =
    released_of floats (figures_of show_figure parse_figure false (λ x. x) (figures s t q))

run_table_example :
    (v : Verdicts) × (run parse_figure false cell_child 3 (released_of floats)
      ≡ ok (
        whole (λ s t q. row_of show_figure parse_figure false (λ x. x) s t q (figures s t q)),
        v,
      ))
    × ((v.shape_matters ≡ true) ↔ ((s : Shape) × (credited s guest in_place ≡ true)))
    × ((v.hv_released ≡ true)
        ↔ ((t : Toucher) × ((q : Sequence) × (credited hv_allocate t q ≡ true))))
    × ((v.advice_idle ≡ true) ↔ (
        (credited mmap_private guest unmap_only ≡ true)
        × (credited mmap_private guest unmap_first ≡ true)
        × (credited mmap_private host unmap_only ≡ false)))
run_table_example =
    run_table show_figure parse_figure false (λ x. x) prints cell_child 3 figures answered
      (released_of floats)
