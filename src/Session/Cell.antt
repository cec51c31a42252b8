-- ===== src/Session/Cell.antt =====
-- A cell of the allocation-shape matrix as its process runs it: `allocate`, `release` and
-- `run_cell` of crates/hv-reclaim/src/alloc_shape.rs.
pub mod Laws
use macos_vm_memory_ratchet.Prelude.{
  ℕ, zero, suc, ◌+◌, ◌-◌, ◌<◌, ◌≡◌, ◌≢◌, ◌↔◌, refl, sym, ap, ◌∙◌, inl, inr, arith, Bool, true,
  false, ◌||◌, List, [], ◌∷◌, Option, none, some, Option-cases, Run, pure, ◌>>=◌, ◌>>◌, ok,
  panicked, out_of_fuel, Returns, Returns->>=, Returns-ok, >>=-ok, if◌then◌else◌, Bool-cases,
}
use mathlib.Core.Path.{subst}
use macos_vm_memory_ratchet.Ledger.Pages.{page}
use macos_vm_memory_ratchet.Guest.Programs.{code_gpa, ram_gpa}
use macos_vm_memory_ratchet.Reclaim.{Trace, Kernel}
use macos_vm_memory_ratchet.Reclaim.Stage2.{within}
use macos_vm_memory_ratchet.AllocShape.{
  Shape, mmap_private, mmap_shared, hv_allocate, Toucher, Sequence, in_place, unmap_first,
  unmap_only,
}
use macos_vm_memory_ratchet.AllocShape.Cell.{
  Status, release_cell, calls_of, reported, is_in_place, release_cell-returns, same_view,
  keeps_IsSafe, not-IsSafe,
}
use macos_vm_memory_ratchet.Session.{
  Event, mmap, munmap, hv_vm_allocate, hv_vm_deallocate, write_code_page, hv_vm_create,
  hv_vm_destroy, hv_vcpu_create, hv_vcpu_set_cpsr, hv_vcpu_destroy, hv_vm_map, read_exec,
  read_write, guest, touch, host_write, reclaimed, History, World, note, check, mmap_anon,
}
use macos_vm_memory_ratchet.Session.Rules.{
  absent, idle, running, stage, held, held_after, view, IsSound, IsGranting,
}
use macos_vm_memory_ratchet.Session.Bring.{
  IsUp, IsUp-IsLinear, check->>, check_lem, note->>, mmap_anon->>=, guest-IsUp, ram-IsHeld,
}
use macos_vm_memory_ratchet.Session.Whole.{
  IsAlone, brought, brought-IsUp, stage-IsUp, destroyed-IsUp,
}

-- What `mmap` with the shape's flags, or `hv_vm_allocate`, gives of a size, if anything.
abbrev pub Allocator : Type 0
Allocator = History → Shape → ℕ → Option ℕ

abbrev pub allocated : Shape → ℕ → ℕ → Event
allocated mmap_private ram size = mmap ram size
allocated mmap_shared ram size = mmap ram size
allocated hv_allocate ram size = hv_vm_allocate ram size

-- `release`.
abbrev pub freed : Shape → ℕ → ℕ → Event
freed mmap_private ram size = munmap ram size
freed mmap_shared ram size = munmap ram size
freed hv_allocate ram size = hv_vm_deallocate ram size

-- The status of the `CELL` line.
pub data Report : Type 0 where
  alloc_failed : Report
  released : Status → Report

module _ (w : World) (alloc : Allocator) where
  -- A sequence of calls that answers a status.
  unfoldable pub releasing : (Kernel → Run Trace Status) → Run History Status
  releasing sequence es = elim (sequence (w.kernel es) []) [
    | ok (status, calls) ↦ ok (status, reclaimed calls ∷ es)
    | panicked what ↦ panicked what
    | out_of_fuel ↦ out_of_fuel
  ]

  unfoldable pub dirty_cell : Toucher → ℕ → ℕ → Run History (Unit {0})
  unfolding check note
  dirty_cell Toucher.host ram size = note w (host_write ram size)
  dirty_cell Toucher.guest ram size = do
    check w hv_vcpu_create
    check w hv_vcpu_set_cpsr
    check w (guest touch 0 size)
    check w hv_vcpu_destroy

  -- `run_cell` from the allocation on.
  unfoldable pub on_ram : Shape → Toucher → Sequence → ℕ → ℕ → Run History Report
  unfolding mmap_anon note check dirty_cell releasing
  on_ram shape toucher sequence size ram = do
    code ← mmap_anon w page
    note w (write_code_page code)
    check w hv_vm_create
    check w (hv_vm_map code code_gpa page read_exec)
    check w (hv_vm_map ram ram_gpa size read_write)
    dirty_cell toucher ram size
    status ← releasing (λ k. release_cell k ram size sequence)
    check w hv_vm_destroy
    note w (freed shape ram size)
    note w (munmap code page)
    pure (released status)

  -- `run_cell`.
  unfoldable pub run_cell : Shape → Toucher → Sequence → ℕ → Run History Report
  unfolding on_ram
  run_cell shape toucher sequence size es = elim (alloc es shape size) [
    | none ↦ ok (alloc_failed, es)
    | some ram ↦ on_ram shape toucher sequence size ram (allocated shape ram size ∷ es)
  ]
