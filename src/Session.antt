-- ===== src/Session.antt =====
-- A run of hv-reclaim: `main` of crates/hv-reclaim/src/main.rs with `run` of timing.rs and `run` of
-- fleet_sim.rs. The state is what has happened so far, the newest first: the calls that make and
-- unmake the VM and its memory, the runs of the guest and the accesses of the host to guest RAM. The
-- ledger's readings, the clock and what is printed are left out. The passes of the guest are those of
-- module Guest, the probes those of Probes, a worker of the soak that of Soak.
pub mod Rules
pub mod Bring
pub mod Reclaims
pub mod Canary
pub mod Modes
pub mod Whole
pub mod Cell
pub mod Process
pub mod Tests
use macos_vm_memory_ratchet.Prelude.{
  ℕ, zero, suc, ◌+◌, ◌*◌, ◌%◌, ◌^◌, Bool, true, false, not, ◌&&◌, ◌||◌, List, [], ◌∷◌, ltb, ◌==◌,
  if◌then◌else◌, Run, Result, pure, ◌>>=◌, ◌>>◌, assert, ok, panicked, out_of_fuel,
}
use macos_vm_memory_ratchet.Ledger.Pages.{page}
use macos_vm_memory_ratchet.Guest.Programs.{code_gpa, ram_gpa}
use macos_vm_memory_ratchet.Reclaim.{Kernel, Trace, reclaim, reclaim_extents, stop_services}
use macos_vm_memory_ratchet.Reclaim.Extents.{extent_of, extents_of}
use macos_vm_memory_ratchet.Reclaim.Services.{region_of, fleet_fits}
use macos_vm_memory_ratchet.Options.{Advice, Options}
use macos_vm_memory_ratchet.Soak.{slot_of}

pub data Access : Type 0 where
  read_exec read_write : Access

pub data Pass : Type 0 where
  touch read hammer : Pass

-- `mmap` and `hv_vm_allocate` carry the address that they answered, `guest` the range of RAM that
-- the pass goes over, `reclaimed` the calls of a reclaim sequence.
pub data Event : Type 0 where
  mmap : ℕ → ℕ → Event
  munmap : ℕ → ℕ → Event
  hv_vm_allocate : ℕ → ℕ → Event
  hv_vm_deallocate : ℕ → ℕ → Event
  write_code_page : ℕ → Event
  hv_vm_create hv_vm_destroy hv_vcpu_create hv_vcpu_set_cpsr hv_vcpu_destroy : Event
  hv_vm_map : ℕ → ℕ → ℕ → Access → Event
  hv_vm_unmap : ℕ → ℕ → Event
  madvise_free : ℕ → ℕ → Event
  pressure_on : ℕ → Event
  pressure_off : Event
  guest : Pass → ℕ → ℕ → Event
  host_write host_read : ℕ → ℕ → Event
  reclaimed : Trace → Event
  soaked : ℕ → ℕ → Event
  matrix : ℕ → Event

abbrev pub History : Type 0
History = List Event

-- What the system answers, which may depend on all that went before. A pass of the guest that
-- returns answers zero. `bursts` is how often the pressure thread of a soak that is at this point
-- starts a pressure child.
pub record World : Type 0 where
  pub placed : History → ℕ → ℕ
  pub answer : History → Event → ℕ
  pub kernel : History → Kernel
  pub number : Advice → ℕ
  pub bursts : History → ℕ
  pub map_failed : ℕ

-- `opts.size_gb << 30`.
unfoldable pub ram_size_of : ℕ → ℕ
ram_size_of size_gb = size_gb * 2 ^ 30 % 2 ^ 64

-- The canary of the probes is one GiB.
abbrev pub canary_size : ℕ
canary_size = 2 ^ 30

module _ (w : World) where
  -- A call whose answer is not looked at.
  unfoldable pub note : Event → Run History (Unit {0})
  note e es = ok (tt, e ∷ es)

  -- `check` of hvf.rs.
  unfoldable pub check : Event → Run History (Unit {0})
  check e es = if w.answer es e == 0 then ok (tt, e ∷ es) else panicked "call failed"

  -- `mmap_anon`.
  unfoldable pub mmap_anon : ℕ → Run History ℕ
  mmap_anon size es =
      let ptr = w.placed es size in
      if ptr == w.map_failed then panicked "mmap failed" else ok (ptr, mmap ptr size ∷ es)

  -- A reclaim sequence, with the calls that it makes.
  unfoldable pub reclaiming : (Kernel → Run Trace (Unit {0})) → Run History (Unit {0})
  reclaiming sequence es = elim (sequence (w.kernel es) []) [
    | ok (done, calls) ↦ ok (tt, reclaimed calls ∷ es)
    | panicked what ↦ panicked what
    | out_of_fuel ↦ out_of_fuel
  ]

  -- The reset of a cycle: fresh anonymous memory behind the guest's RAM.
  unfoldable pub reset : ℕ → ℕ → Run History ℕ
  unfolding check note mmap_anon
  reset size ram = do
    check (hv_vm_unmap ram_gpa size)
    note (munmap ram size)
    fresh ← mmap_anon size
    check (hv_vm_map fresh ram_gpa size read_write)
    pure fresh

  -- `for cycle in 1..=repeat`, from `cycle` on with `left` to go: a reset before every cycle but the
  -- first, unless `steady`.
  unfoldable pub cycles : (ℕ → Run History (Unit {0})) → Bool → ℕ → ℕ → ℕ → ℕ → Run History ℕ
  cycles body steady size cycle zero ram = pure ram
  cycles body steady size cycle (suc left) ram = do
    ram' ← if ltb 1 cycle && not steady then reset size ram else pure ram
    body ram'
    cycles body steady size (cycle + 1) left ram'

  -- `run` of timing.rs.
  unfoldable pub time_cycle : Options → ℕ → ℕ → Run History (Unit {0})
  unfolding check reclaiming
  time_cycle o size ram = do
    check (guest touch 0 size)
    reclaiming (λ k.
        reclaim_extents k ram size (extent_of size o.extent_kb) o.reclaim_mode (w.number o.advice))
    check (guest touch 0 size)

  unfoldable pub demand {ℓ} : {A : Type ℓ} → Result A → Run History (Unit {0})
  demand (ok a) es = ok (tt, es)
  demand (panicked what) es = panicked what
  demand out_of_fuel es = out_of_fuel

  unfoldable pub time_reclaim : Options → ℕ → ℕ → Run History ℕ
  unfolding demand cycles time_cycle
  time_reclaim o size ram = do
    demand (extents_of size o.extent_kb)
    cycles (time_cycle o size) o.steady_state size 1 o.repeat ram

  -- The start loop of fleet_sim.rs, from service `i` on with `left` to go.
  unfoldable pub start_services : ℕ → ℕ → ℕ → Run History (Unit {0})
  unfolding check
  start_services region i zero = pure tt
  start_services region i (suc left) = do
    check (guest touch (i * region) region)
    start_services region (i + 1) left

  -- `run` of fleet_sim.rs.
  unfoldable pub fleet_sim : Options → ℕ → Run History (Unit {0})
  unfolding start_services reclaiming
  fleet_sim o ram = do
    assert (fleet_fits o.service_mib o.services o.size_gb) "fleet must fit in guest RAM"
    start_services (region_of o.service_mib) 0 o.services
    reclaiming (λ k. stop_services k ram (region_of o.service_mib) 0 o.services)

  -- One cycle of the plain run: dirty the RAM, then reclaim it.
  unfoldable pub dirty : Options → ℕ → ℕ → Run History (Unit {0})
  unfolding check note
  dirty o size ram =
      if o.host_touch
      then note (host_write ram size)
      else check (guest (if o.guest_read then read else touch) 0 size)

  unfoldable pub plain_cycle : Options → ℕ → ℕ → Run History (Unit {0})
  unfolding dirty reclaiming
  plain_cycle o size ram = do
    dirty o size ram
    reclaiming (λ k. reclaim k ram size o.naive (w.number o.advice))

  -- `Canary::arm`.
  unfoldable pub arm : ℕ → Run History ℕ
  unfolding mmap_anon note check
  arm size = do
    ptr ← mmap_anon size
    note (host_write ptr size)
    check (madvise_free ptr size)
    pure ptr

  -- `parked_pressure_check`: the canary is dropped at its end.
  unfoldable pub parked_pressure_check : ℕ → ℕ → ℕ → Run History (Unit {0})
  unfolding arm note check
  parked_pressure_check pressure_gb size ram = do
    canary ← arm canary_size
    check (pressure_on pressure_gb)
    note pressure_off
    note (host_read canary canary_size)
    note (host_read ram size)
    note (munmap canary canary_size)

  -- `hammer_check`. The child comes up and is dropped during the pass, when is the callback's.
  unfoldable pub hammer_check : ℕ → ℕ → ℕ → Run History (Unit {0})
  unfolding arm note check
  hammer_check pressure_gb size ram = do
    canary ← arm canary_size
    check (pressure_on pressure_gb)
    check (guest hammer 0 size)
    note pressure_off
    note (host_read canary canary_size)
    note (host_read ram size)
    note (munmap canary canary_size)

  -- Pass 2 and the probes behind it.
  unfoldable pub pass_two : Options → ℕ → ℕ → Run History (Unit {0})
  unfolding check parked_pressure_check hammer_check
  pass_two o size ram = do
    check (guest touch 0 size)
    (if o.pressure_check then parked_pressure_check o.pressure_gb size ram else pure tt)
    (if o.hammer then hammer_check o.pressure_gb size ram else pure tt)

  unfoldable pub plain : Options → ℕ → ℕ → Run History ℕ
  unfolding cycles plain_cycle pass_two
  plain o size ram = do
    ram' ← cycles (plain_cycle o size) false size 1 o.repeat ram
    (if not o.host_touch && o.repeat == 1 then pass_two o size ram' else pure tt)
    pure ram'

  -- What `main` runs on its vCPU; it answers the mapping that is left to release.
  unfoldable pub on_vcpu : Options → ℕ → ℕ → Run History ℕ
  unfolding time_reclaim fleet_sim plain
  on_vcpu o size ram =
      if o.time_reclaim
      then time_reclaim o size ram
      else if o.fleet_sim
      then (do fleet_sim o ram; pure ram)
      else plain o size ram

  unfoldable pub with_vcpu : Options → ℕ → ℕ → Run History ℕ
  unfolding check on_vcpu
  with_vcpu o size ram = do
    check hv_vcpu_create
    check hv_vcpu_set_cpsr
    ram' ← on_vcpu o size ram
    check hv_vcpu_destroy
    pure ram'

  -- The children that the pressure thread of a soak starts; one that fails is passed over.
  unfoldable pub press_soak : ℕ → ℕ → Run History (Unit {0})
  press_soak pressure_gb zero es = ok (tt, es)
  press_soak pressure_gb (suc left) es =
      if w.answer es (pressure_on pressure_gb) == 0
      then press_soak pressure_gb left (pressure_off ∷ pressure_on pressure_gb ∷ es)
      else press_soak pressure_gb left es

  -- `run` of soak.rs: the check of its slots, the workers and the pressure beside them.
  unfoldable pub soak : Options → ℕ → ℕ → Run History ℕ
  unfolding demand note press_soak
  soak o size ram = do
    demand (slot_of size o.vcpus)
    note (soaked ram size)
    (λ es. press_soak o.pressure_gb (w.bursts es) es)
    pure ram

  unfoldable pub with_vm : Options → ℕ → Run History (Unit {0})
  unfolding mmap_anon note check soak with_vcpu
  with_vm o size = do
    ram ← mmap_anon size
    code ← mmap_anon page
    note (write_code_page code)
    check hv_vm_create
    check (hv_vm_map code code_gpa page read_exec)
    check (hv_vm_map ram ram_gpa size read_write)
    ram' ← if o.soak then soak o size ram else with_vcpu o size ram
    check hv_vm_destroy
    note (munmap ram' size)
    note (munmap code page)

  -- `main` with its options.
  unfoldable pub main : Options → Run History (Unit {0})
  unfolding note with_vm ram_size_of
  main o = if o.alloc_shape then note (matrix o.size_gb) else with_vm o (ram_size_of o.size_gb)
