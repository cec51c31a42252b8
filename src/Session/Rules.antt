-- ===== src/Session/Rules.antt =====
-- The rules of a run of hv-reclaim (crates/hv-reclaim/src/main.rs): the life cycle of the VM and its
-- vCPU, the host memory that the process holds, what the guest's addresses lead to, and what each
-- event asks of those.
use macos_vm_memory_ratchet.Prelude.{
  ℕ, ◌+◌, ◌-◌, ◌≡◌, ◌≢◌, Bool, true, false, [], ◌∷◌, Option, none, some, if◌then◌else◌,
}
use macos_vm_memory_ratchet.Ledger.Pages.{page}
use macos_vm_memory_ratchet.Guest.Programs.{code_gpa, ram_gpa}
use macos_vm_memory_ratchet.Reclaim
use macos_vm_memory_ratchet.Reclaim.{Trace}
use macos_vm_memory_ratchet.Reclaim.Stage2
use macos_vm_memory_ratchet.Reclaim.Stage2.{within, IsUnmapped}
use macos_vm_memory_ratchet.Reclaim.Returns.{IsCompliant}
use macos_vm_memory_ratchet.Session.{
  madvise_free, pressure_on, pressure_off, Event, mmap, munmap, hv_vm_allocate, hv_vm_deallocate,
  write_code_page, hv_vm_create, hv_vm_destroy, hv_vcpu_create, hv_vcpu_set_cpsr, hv_vcpu_destroy,
  hv_vm_map, hv_vm_unmap, guest, host_write, host_read, reclaimed, soaked, matrix, History, World,
}

-- No VM, a VM with no vCPU, a VM with its vCPU.
pub data Stage : Type 0 where
  absent idle running : Stage

abbrev pub stage : History → Stage
stage [] = absent
stage (hv_vm_create ∷ es) = idle
stage (hv_vcpu_create ∷ es) = running
stage (hv_vcpu_destroy ∷ es) = idle
stage (hv_vm_destroy ∷ es) = absent
stage (mmap host len ∷ es) = stage es
stage (munmap host len ∷ es) = stage es
stage (hv_vm_allocate host len ∷ es) = stage es
stage (hv_vm_deallocate host len ∷ es) = stage es
stage (write_code_page host ∷ es) = stage es
stage (hv_vcpu_set_cpsr ∷ es) = stage es
stage (hv_vm_map host gpa len access ∷ es) = stage es
stage (hv_vm_unmap gpa len ∷ es) = stage es
stage (guest pass from len ∷ es) = stage es
stage (host_write host len ∷ es) = stage es
stage (host_read host len ∷ es) = stage es
stage (reclaimed calls ∷ es) = stage es
stage (soaked ram size ∷ es) = stage es
stage (matrix size_gb ∷ es) = stage es
stage (madvise_free host len ∷ es) = stage es
stage (pressure_on gb ∷ es) = stage es
stage (pressure_off ∷ es) = stage es

-- The host memory of the process after the calls of a reclaim sequence.
abbrev pub held_after : (ℕ → Bool) → Trace → ℕ → Bool
held_after start [] q = start q
held_after start (Reclaim.hv_vm_unmap gpa len ∷ calls) q = held_after start calls q
held_after start (Reclaim.hv_vm_map host gpa len ∷ calls) q = held_after start calls q
held_after start (Reclaim.madvise host len advice ∷ calls) q = held_after start calls q
held_after start (Reclaim.munmap host len ∷ calls) q =
    if within host len q then false else held_after start calls q
held_after start (Reclaim.mmap_fixed host len ∷ calls) q =
    if within host len q then true else held_after start calls q

-- The host memory of the process.
abbrev pub held : History → ℕ → Bool
held [] q = false
held (mmap host len ∷ es) q = if within host len q then true else held es q
held (munmap host len ∷ es) q = if within host len q then false else held es q
held (hv_vm_allocate host len ∷ es) q = if within host len q then true else held es q
held (hv_vm_deallocate host len ∷ es) q = if within host len q then false else held es q
held (reclaimed calls ∷ es) q = held_after (held es) calls q
held (hv_vm_create ∷ es) q = held es q
held (hv_vcpu_create ∷ es) q = held es q
held (hv_vcpu_destroy ∷ es) q = held es q
held (hv_vm_destroy ∷ es) q = held es q
held (write_code_page host ∷ es) q = held es q
held (hv_vcpu_set_cpsr ∷ es) q = held es q
held (hv_vm_map host gpa len access ∷ es) q = held es q
held (hv_vm_unmap gpa len ∷ es) q = held es q
held (guest pass from len ∷ es) q = held es q
held (host_write host len ∷ es) q = held es q
held (host_read host len ∷ es) q = held es q
held (soaked ram size ∷ es) q = held es q
held (matrix size_gb ∷ es) q = held es q
held (madvise_free host len ∷ es) q = held es q
held (pressure_on gb ∷ es) q = held es q
held (pressure_off ∷ es) q = held es q

-- The host address behind each guest address; a VM is made and unmade with nothing mapped.
abbrev pub view : History → ℕ → Option ℕ
view [] q = none
view (hv_vm_create ∷ es) q = none
view (hv_vm_destroy ∷ es) q = none
view (hv_vm_map host gpa len access ∷ es) q =
    if within gpa len q then some (host + (q - gpa)) else view es q
view (hv_vm_unmap gpa len ∷ es) q = if within gpa len q then none else view es q
view (reclaimed calls ∷ es) q = Stage2.view (view es) calls q
view (mmap host len ∷ es) q = view es q
view (munmap host len ∷ es) q = view es q
view (hv_vm_allocate host len ∷ es) q = view es q
view (hv_vm_deallocate host len ∷ es) q = view es q
view (hv_vcpu_create ∷ es) q = view es q
view (hv_vcpu_destroy ∷ es) q = view es q
view (write_code_page host ∷ es) q = view es q
view (hv_vcpu_set_cpsr ∷ es) q = view es q
view (guest pass from len ∷ es) q = view es q
view (host_write host len ∷ es) q = view es q
view (host_read host len ∷ es) q = view es q
view (soaked ram size ∷ es) q = view es q
view (matrix size_gb ∷ es) q = view es q
view (madvise_free host len ∷ es) q = view es q
view (pressure_on gb ∷ es) q = view es q
view (pressure_off ∷ es) q = view es q

-- A pressure child holds its memory.
abbrev pub pressed : History → Bool
pressed [] = false
pressed (pressure_on gb ∷ es) = true
pressed (pressure_off ∷ es) = false
pressed (e ∷ es) = pressed es

-- The process holds `len` bytes of host memory from `host`.
abbrev pub IsHeld : History → ℕ → ℕ → Type 0
IsHeld es host len = (q : ℕ) → within host len q ≡ true → held es q ≡ true

-- A range of guest addresses leads to host memory that the process holds.
abbrev pub IsBacked : History → ℕ → ℕ → Type 0
IsBacked es gpa len =
    (q : ℕ) → within gpa len q ≡ true → (h : ℕ) × (view es q ≡ some h) × (held es h ≡ true)

-- What an event asks of those before it.
abbrev pub IsAllowed : Event → History → Type 0
IsAllowed (mmap host len) es = Unit {0}
IsAllowed (munmap host len) es = IsHeld es host len × IsUnmapped (view es) host len
IsAllowed (hv_vm_allocate host len) es = Unit {0}
IsAllowed (hv_vm_deallocate host len) es = IsHeld es host len × IsUnmapped (view es) host len
IsAllowed (write_code_page host) es = IsHeld es host page
IsAllowed hv_vm_create es = stage es ≡ absent
IsAllowed hv_vm_destroy es = stage es ≡ idle
IsAllowed hv_vcpu_create es = stage es ≡ idle
IsAllowed hv_vcpu_set_cpsr es = stage es ≡ running
IsAllowed hv_vcpu_destroy es = stage es ≡ running
IsAllowed (hv_vm_map host gpa len access) es =
    (stage es ≢ absent)
    × IsHeld es host len
    × ((q : ℕ) → within gpa len q ≡ true → view es q ≡ none)
IsAllowed (hv_vm_unmap gpa len) es = (stage es ≢ absent) × IsBacked es gpa len
IsAllowed (guest pass from len) es =
    (stage es ≡ running) × IsBacked es code_gpa page × IsBacked es (ram_gpa + from) len
IsAllowed (host_write host len) es = IsHeld es host len
IsAllowed (host_read host len) es = IsHeld es host len
IsAllowed (reclaimed calls) es = (stage es ≢ absent) × Stage2.IsSafe (view es) calls
IsAllowed (soaked ram size) es =
    (stage es ≡ idle) × IsBacked es code_gpa page × IsBacked es ram_gpa size
IsAllowed (matrix size_gb) es = stage es ≡ absent
IsAllowed (madvise_free host len) es = IsHeld es host len × IsUnmapped (view es) host len
IsAllowed (pressure_on gb) es = pressed es ≡ false
IsAllowed pressure_off es = pressed es ≡ true

abbrev pub IsSound : History → Type 0
IsSound [] = Unit {0}
IsSound (e ∷ es) = IsAllowed e es × IsSound es

-- A system that grants every call: `mmap` gives memory that the process does not hold yet, a pass of
-- the guest returns, and so does each call of a reclaim sequence.
pub record IsGranting (w : World) : Type 0 where
  pub answers : (es : History) (e : Event) → w.answer es e ≡ 0
  pub placed : (es : History) (len : ℕ) → w.placed es len ≢ w.map_failed
  pub fresh : (es : History) (len q : ℕ) → within (w.placed es len) len q ≡ true → held es q ≡ false
  pub compliant : (es : History) → IsCompliant (w.kernel es)
