-- ===== src/Session/Tests.antt =====
-- A run of hv-reclaim (crates/hv-reclaim/src/main.rs) on a system that grants every call: `mmap`
-- answers the first address above all that it has given.
use macos_vm_memory_ratchet.Prelude.{
  List, Option, none, ℕ, suc, ◌+◌, ◌*◌, ◌^◌, ◌<◌, ◌≡◌, refl, arith, Bool, true, [], ◌∷◌, some, ok,
  length, Result, panicked, out_of_fuel,
}
use macos_vm_memory_ratchet.Reclaim
use macos_vm_memory_ratchet.Reclaim.{Trace, unmapping}
use macos_vm_memory_ratchet.Reclaim.Extents.{extent_of, extents_of}
use macos_vm_memory_ratchet.Reclaim.Bench.{kernel, compliant}
use macos_vm_memory_ratchet.Options.{
  parse_args, parse_loop, argument, assign, validate, Options, defaults,
}
use macos_vm_memory_ratchet.Session.{
  soak, press_soak, parked_pressure_check, hammer_check, madvise_free, pressure_on, pressure_off,
  mmap, munmap, hv_vm_allocate, hv_vm_deallocate, write_code_page, hv_vm_create, hv_vm_destroy,
  hv_vcpu_create, hv_vcpu_set_cpsr, hv_vcpu_destroy, hv_vm_map, hv_vm_unmap, guest, host_write,
  host_read, reclaimed, soaked, matrix, History, World, reset, main, ram_size_of,
}
use macos_vm_memory_ratchet.Soak.{slot_of}
use macos_vm_memory_ratchet.Session.Rules.{held, held_after, IsGranting}
use macos_vm_memory_ratchet.Session.Modes.{IsReady}
use macos_vm_memory_ratchet.Session.Whole.{IsOver, main_lem}
use macos_vm_memory_ratchet.AllocShape.{hv_allocate, Toucher, unmap_first}
use macos_vm_memory_ratchet.AllocShape.Cell.{reported}
use macos_vm_memory_ratchet.Session.Cell.{Allocator, released}
use macos_vm_memory_ratchet.Session.Cell.Laws.{IsEnd}
use macos_vm_memory_ratchet.Session.Process.{process, holding, of_cell, of_run, process_lem}
use macos_vm_memory_ratchet.Ledger.Pressure.{Chunk, IsHolding}
use macos_vm_memory_ratchet.Ledger.Pages.{page}
use macos_vm_memory_ratchet.AllocShape.Spec.{spec}
use Prim.Native.String.{String}
use macos_vm_memory_ratchet.Options.Numbers.{print_usize, parse_usize, parse_unsigned, parse_digits}

-- An address above all that a reclaim sequence has mapped, and above `from`.
abbrev above : ℕ → Trace → ℕ
above from [] = from
above from (Reclaim.mmap_fixed host len ∷ calls) = above from calls + host + len
above from (Reclaim.munmap host len ∷ calls) = above from calls
above from (Reclaim.madvise host len advice ∷ calls) = above from calls
above from (Reclaim.hv_vm_map host gpa len ∷ calls) = above from calls
above from (Reclaim.hv_vm_unmap gpa len ∷ calls) = above from calls

abbrev top : History → ℕ
top [] = 0x10_0000_0000
top (mmap host len ∷ es) = top es + host + len
top (reclaimed calls ∷ es) = above (top es) calls
top (munmap host len ∷ es) = top es
top (hv_vm_allocate host len ∷ es) = top es + host + len
top (hv_vm_deallocate host len ∷ es) = top es
top (write_code_page host ∷ es) = top es
top (hv_vm_create ∷ es) = top es
top (hv_vm_destroy ∷ es) = top es
top (hv_vcpu_create ∷ es) = top es
top (hv_vcpu_set_cpsr ∷ es) = top es
top (hv_vcpu_destroy ∷ es) = top es
top (hv_vm_map host gpa len access ∷ es) = top es
top (hv_vm_unmap gpa len ∷ es) = top es
top (guest pass from len ∷ es) = top es
top (host_write host len ∷ es) = top es
top (host_read host len ∷ es) = top es
top (soaked ram size ∷ es) = top es
top (matrix size_gb ∷ es) = top es
top (madvise_free host len ∷ es) = top es
top (pressure_on gb ∷ es) = top es
top (pressure_off ∷ es) = top es

held_after-lt-above :
    (start : ℕ → Bool) (from : ℕ)
    → ((q : ℕ) → start q ≡ true → q < from)
    → (calls : Trace) (q : ℕ) → held_after start calls q ≡ true
    → q < above from calls
held_after-lt-above start from h [] q e = h q e
held_after-lt-above start from h (Reclaim.mmap_fixed host len ∷ calls) q e =
    ground (arith, held_after-lt-above start from h calls q)
held_after-lt-above start from h (Reclaim.munmap host len ∷ calls) q e =
    ground (arith, held_after-lt-above start from h calls q)
held_after-lt-above start from h (Reclaim.madvise host len advice ∷ calls) q e =
    held_after-lt-above start from h calls q e
held_after-lt-above start from h (Reclaim.hv_vm_map host gpa len ∷ calls) q e =
    held_after-lt-above start from h calls q e
held_after-lt-above start from h (Reclaim.hv_vm_unmap gpa len ∷ calls) q e =
    held_after-lt-above start from h calls q e

held-lt-top : (es : History) (q : ℕ) → held es q ≡ true → q < top es
held-lt-top [] q e = absurd (cc)
held-lt-top (mmap host len ∷ es) q e = ground (arith, held-lt-top es q)
held-lt-top (munmap host len ∷ es) q e = ground (arith, held-lt-top es q)
held-lt-top (hv_vm_allocate host len ∷ es) q e = ground (arith, held-lt-top es q)
held-lt-top (hv_vm_deallocate host len ∷ es) q e = ground (arith, held-lt-top es q)
held-lt-top (reclaimed calls ∷ es) q e =
    held_after-lt-above (held es) (top es) (held-lt-top es) calls q e
held-lt-top (write_code_page host ∷ es) q e = held-lt-top es q e
held-lt-top (hv_vm_create ∷ es) q e = held-lt-top es q e
held-lt-top (hv_vm_destroy ∷ es) q e = held-lt-top es q e
held-lt-top (hv_vcpu_create ∷ es) q e = held-lt-top es q e
held-lt-top (hv_vcpu_set_cpsr ∷ es) q e = held-lt-top es q e
held-lt-top (hv_vcpu_destroy ∷ es) q e = held-lt-top es q e
held-lt-top (hv_vm_map host gpa len access ∷ es) q e = held-lt-top es q e
held-lt-top (hv_vm_unmap gpa len ∷ es) q e = held-lt-top es q e
held-lt-top (guest pass from len ∷ es) q e = held-lt-top es q e
held-lt-top (host_write host len ∷ es) q e = held-lt-top es q e
held-lt-top (host_read host len ∷ es) q e = held-lt-top es q e
held-lt-top (soaked ram size ∷ es) q e = held-lt-top es q e
held-lt-top (matrix size_gb ∷ es) q e = held-lt-top es q e
held-lt-top (madvise_free host len ∷ es) q e = held-lt-top es q e
held-lt-top (pressure_on gb ∷ es) q e = held-lt-top es q e
held-lt-top (pressure_off ∷ es) q e = held-lt-top es q e

abbrev world : World
world = record {
  placed = λ es len. suc (top es);
  answer = λ es e. 0;
  kernel = λ es. kernel;
  number = λ a. 7;
  bursts = λ es. 2;
  map_failed = 0;
}

granting : IsGranting world
granting = record {
  answers = λ es e. refl;
  placed = λ es len e. omega arith;
  fresh = λ es len q h. ground (arith, held-lt-top es q);
  compliant = λ es. compliant;
}

-- `--time-reclaim --repeat 3 --extent-kb 2048 --reclaim-mode munmap`.
abbrev timed : Options
timed = record defaults {
  time_reclaim = true;
  repeat = 3;
  extent_kb = 2048;
  reclaim_mode = unmapping;
}

timed-IsReady : IsReady timed
unfolding ram_size_of extents_of extent_of
timed-IsReady = record {
  fixed = refl;
  divided = λ e. (1536, refl, omega arith);
  small = λ e. cc;
  fits = λ e. cc;
  split = λ e. cc;
}

main_example : (after : History) × (main world timed [] ≡ ok (tt, after)) × IsOver after
main_example = main_lem world granting timed timed-IsReady

-- How many events a run comes to.
abbrev events : Result (Unit {0} × History) → ℕ
events (ok (done, es)) = length es
events (panicked what) = 0
events out_of_fuel = 0

plain_events : events (main world (record defaults { repeat = 2 }) []) ≡ 20
unfolding main Reclaim.reclaim reset
plain_events = refl

abbrev giving : Allocator
giving es shape size = some 0x10_0000_0000

abbrev arguments : List String
arguments =
    "--time-reclaim" ∷ "--repeat" ∷ "3" ∷ "--extent-kb" ∷ "2048" ∷ "--reclaim-mode" ∷ "munmap" ∷ []

arguments_lem : parse_args arguments ≡ ok timed
unfolding parse_args parse_loop argument assign validate parse_usize parse_unsigned parse_digits
arguments_lem = refl

abbrev chunk_at : ℕ → Option ℕ
chunk_at i = some (i * 2 ^ 30)

process_example :
    ((after : History) × (process world giving chunk_at
          (record { generator = none; cell = none; page_size = page; args = arguments })
          []
        ≡ ok (of_run, after))
      × IsOver after)
    × ((after : History) × (process world giving chunk_at
            (record {
              generator = none;
              cell = some (spec hv_allocate Toucher.guest unmap_first 4);
              page_size = page;
              args = arguments;
            })
            []
          ≡ ok (of_cell (released (reported unmap_first)), after))
        × IsEnd unmap_first after)
    × ((chunks : List Chunk) × (process world giving chunk_at
            (record {
              generator = some (print_usize 8);
              cell = none;
              page_size = page;
              args = arguments;
            })
            []
          ≡ ok (holding chunks, []))
        × IsHolding chunk_at 8 chunks)
process_example =
    process_lem world granting giving chunk_at page arguments timed arguments_lem timed-IsReady
      hv_allocate Toucher.guest unmap_first 4 0x10_0000_0000 (omega arith) (omega arith) refl 8 none
      (omega arith)

-- A run with both probes behind its one cycle.
probed_events :
    events (main world (record defaults { pressure_check = true; hammer = true }) []) ≡ 32
unfolding main Reclaim.reclaim parked_pressure_check hammer_check
probed_events = refl

-- A soak, and one with more vCPUs than the RAM can be split between.
abbrev soaking : ℕ → Options
soaking vcpus = record defaults { soak = true; vcpus = vcpus }

soaked_events : events (main world (soaking 2) []) ≡ 14
unfolding main soak press_soak slot_of
soaked_events = refl

unsplit_events : events (main world (soaking 10_000) []) ≡ 0
unfolding main soak slot_of
unsplit_events = refl
