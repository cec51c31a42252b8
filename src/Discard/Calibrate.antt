-- ===== src/Discard/Calibrate.antt =====
-- `main` of crates/calibrate-madvise/src/main.rs: a dirty buffer for each advice, with readings of
-- the ledger in front of it, behind it and behind the advice. The rows printed on the way are left
-- out, and a difference in MiB, which is a float, is kept as its two figures.
use macos_vm_memory_ratchet.Prelude.{
  ℕ, List, [], ◌∷◌, ◌==◌, if◌then◌else◌, Run, pure, ◌>>=◌, ◌>>◌, ok, panicked,
}
use Prim.Native.String.{String}
use macos_vm_memory_ratchet.Options.{Advice, madv_free, madv_dontneed, madv_free_reusable}
use macos_vm_memory_ratchet.Ledger.Reading.{Ledger, assert_host_page_size}
use macos_vm_memory_ratchet.Discard.{size, touch}
use macos_vm_memory_ratchet.Discard.Host.{
  unmapped, Host, System, mmap_anon, madvise, write_buffer, sleep, read_ledger,
}
use macos_vm_memory_ratchet.Discard.Control.{lift}

-- ADVICES, each with the start of the message of a failure.
abbrev pub advices : List (Advice × String)
advices =
    (madv_dontneed, "madvise(MADV_DONTNEED) failed")
    ∷ (madv_free, "madvise(MADV_FREE) failed")
    ∷ (madv_free_reusable, "madvise(MADV_FREE_REUSABLE) failed")
    ∷ []

-- The arguments of `delta_mib`.
pub record Delta : Type 0 where
  pub after : ℕ
  pub before : ℕ

-- A line of the summary.
pub record Row : Type 0 where
  pub advice : Advice
  pub touch_footprint : Delta
  pub advise_footprint : Delta
  pub advise_reusable : Delta

abbrev pub row_of : Advice → Ledger → Ledger → Ledger → Row
row_of advice before touched behind = record {
  advice = advice;
  touch_footprint = record { after = touched.phys_footprint; before = before.phys_footprint };
  advise_footprint = record { after = behind.phys_footprint; before = touched.phys_footprint };
  advise_reusable = record { after = behind.reusable; before = touched.reusable };
}

module _ (sys : System) where
  unfoldable pub checked_munmap : ℕ → Run Host (Unit {0})
  checked_munmap at h =
      if sys.munmap h.calls at size == 0
      then ok (tt, record h { calls = unmapped at size ∷ h.calls })
      else panicked "munmap failed"

  unfoldable pub try_advice : Advice → String → Run Host Row
  unfolding read_ledger mmap_anon write_buffer madvise sleep checked_munmap
  try_advice advice what = do
    before ← read_ledger sys
    ptr ← mmap_anon sys size
    write_buffer sys touch ptr size
    touched ← read_ledger sys
    madvise sys what ptr size advice
    sleep sys 200
    behind ← read_ledger sys
    checked_munmap ptr
    pure (row_of advice before touched behind)

  unfoldable pub try_all : List (Advice × String) → Run Host (List Row)
  unfolding try_advice
  try_all [] = pure []
  try_all ((advice, what) ∷ rest) = do
    row ← try_advice advice what
    rows ← try_all rest
    pure (row ∷ rows)

  unfoldable pub main : Run Host (List Row)
  unfolding try_all assert_host_page_size
  main = do lift (assert_host_page_size sys.page_size); try_all advices
