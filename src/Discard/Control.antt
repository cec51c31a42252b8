-- ===== src/Discard/Control.antt =====
-- `main` of crates/pressure-discard/src/main.rs: two filled buffers, the first advised MADV_FREE,
-- memory pressure, and the survey of both. The ledger's rows and the text of the report are left out.
use macos_vm_memory_ratchet.Prelude.{
  ℕ, ◌/◌, ◌==◌, List, [], ◌∷◌, ◌++◌, Option, none, some, if◌then◌else◌, Run, Result, pure, ◌>>=◌,
  ◌>>◌, ok, panicked, out_of_fuel,
}
use Prim.Native.String.{String}
use text.Mathlib.Text.{◌==◌ as str_eq}
use macos_vm_memory_ratchet.Options.{madv_free}
use macos_vm_memory_ratchet.Options.Numbers.{parse_usize}
use macos_vm_memory_ratchet.Ledger.Pages.{page}
use macos_vm_memory_ratchet.Ledger.Reading.{assert_host_page_size}
use macos_vm_memory_ratchet.Ledger.Pressure
use macos_vm_memory_ratchet.Ledger.Pressure.{
  Chunk, Step, Applied, guard, failed, own_work, maybe_run_generator, apply, drop,
}
use macos_vm_memory_ratchet.Discard.{size, fill, survey, Counts}
use macos_vm_memory_ratchet.Discard.Host.{
  Host, System, unmapped, buffer_at, mmap_anon, madvise, write_buffer, sleep, read_ledger,
}

-- The counts of both buffers, out of so many pages.
pub record Report : Type 0 where
  pub a : Counts
  pub b : Counts
  pub pages : ℕ

-- How the process ends, or that it holds memory until it is killed.
pub data End : Type 0 where
  generating : List Chunk → End
  surveyed : Report → End

-- The argument behind the first `name`, if there is one.
abbrev pub first_of : List String → Option String
first_of [] = none
first_of (arg ∷ rest) = some arg

abbrev pub value_of : String → List String → Option String
value_of name [] = none
value_of name (arg ∷ rest) = if str_eq arg name then first_of rest else value_of name rest

abbrev pub pressure_gb_of : List String → Result ℕ
pressure_gb_of args = elim (value_of "--pressure-gb" args) [
  | none ↦ ok 48
  | some value ↦ elim (parse_usize value) [ none ↦ panicked "--pressure-gb N" | some n ↦ ok n ]
]

abbrev pub lift {ℓ} : {A : Type ℓ} → Result A → Run Host A
lift (ok a) h = ok (a, h)
lift (panicked what) h = panicked what
lift out_of_fuel h = out_of_fuel

abbrev pub expect : Applied × List Step → Run Host (Unit {0})
expect (guard, steps) h = ok (tt, record h { child = h.child ++ steps })
expect (failed, steps) h = panicked "pressure generator"

module _ (sys : System) where
  -- `apply(…).expect(…)`.
  unfoldable pub start_pressure : ℕ → Run Host (Unit {0})
  unfolding apply
  start_pressure gb = expect (apply sys.exe sys.spawn gb)

  unfoldable pub drop_guard : Run Host (Unit {0})
  unfolding drop
  drop_guard h = ok (tt, record h { child = drop h.child })

  unfoldable pub survey_buffer : ℕ → Run Host Counts
  survey_buffer at h = ok (survey (buffer_at h.words at) size, h)

  -- `munmap` whose answer is not looked at.
  unfoldable pub munmap : ℕ → Run Host (Unit {0})
  munmap at h =
      if sys.munmap h.calls at size == 0
      then ok (tt, record h { calls = unmapped at size ∷ h.calls })
      else ok (tt, h)

  -- The two buffers, filled, the first of them marked.
  unfoldable pub marked_buffers : Run Host (ℕ × ℕ)
  unfolding mmap_anon madvise write_buffer
  marked_buffers = do
    a ← mmap_anon sys size
    b ← mmap_anon sys size
    write_buffer sys fill a size
    write_buffer sys fill b size
    madvise sys "madvise(MADV_FREE) failed" a size madv_free
    pure (a, b)

  unfoldable pub press : ℕ → Run Host (Unit {0})
  unfolding start_pressure drop_guard sleep
  press pressure_gb = do start_pressure pressure_gb; sleep sys 8000; drop_guard; sleep sys 2000

  unfoldable pub report : ℕ → ℕ → Run Host Report
  unfolding survey_buffer munmap
  report a b = do
    a_counts ← survey_buffer a
    b_counts ← survey_buffer b
    munmap a
    munmap b
    pure (record { a = a_counts; b = b_counts; pages = size / page })

  -- From the two buffers on.
  unfoldable pub control : ℕ → Run Host Report
  unfolding marked_buffers read_ledger press report
  control pressure_gb = do
    buffers ← marked_buffers
    before ← read_ledger sys
    press pressure_gb
    after ← read_ledger sys
    report (buffers.0) (buffers.1)

  unfoldable pub main : Option String → List String → Run Host End
  unfolding control maybe_run_generator assert_host_page_size
  main variable args h = elim (maybe_run_generator sys.chunk variable) [
    | ok (Pressure.holding chunks) ↦ ok (generating chunks, h)
    | ok own_work ↦
        (do
          lift (assert_host_page_size sys.page_size)
          pressure_gb ← lift (pressure_gb_of args)
          report ← control pressure_gb
          pure (surveyed report))
          h
    | panicked what ↦ panicked what
    | out_of_fuel ↦ out_of_fuel
  ]
