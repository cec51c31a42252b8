-- ===== src/Discard/Host.antt =====
-- What crates/pressure-discard/src/main.rs and crates/calibrate-madvise/src/main.rs do to the process
-- that they run in: anonymous mappings, the words in them, advice, and the pressure child. The system
-- is a parameter that answers each call. `mmap_anon` is the same function in both programs.
use macos_vm_memory_ratchet.Prelude.{
  ℕ, ◌+◌, ◌-◌, Bool, true, false, ◌&&◌, ◌||◌, List, [], ◌∷◌, Option, ltb, leb, ◌==◌, if◌then◌else◌,
  Run, ok, panicked, out_of_fuel,
}
use Prim.Native.String.{String}
use macos_vm_memory_ratchet.Options.{Advice, madv_free}
use macos_vm_memory_ratchet.Ledger.Reading.{TaskInfo, Ledger, read}
use macos_vm_memory_ratchet.Ledger.Pressure.{Step}

pub data Call : Type 0 where
  mapped : ℕ → ℕ → Call
  advised : ℕ → ℕ → Advice → Call
  unmapped : ℕ → ℕ → Call

-- The word at each address, the calls that succeeded so far with the newest first, and the steps of
-- the pressure child, oldest first.
pub record Host : Type 0 where
  pub words : ℕ → ℕ
  pub calls : List Call
  pub child : List Step

-- The process before its first call.
abbrev pub started : (ℕ → ℕ) → Host
started words = record { words = words; calls = []; child = [] }

-- What the system answers. `later` is the memory after a sleep of so many milliseconds, `spawn`
-- starts this program again.
pub record System : Type 0 where
  pub page_size : ℕ
  pub mmap : List Call → ℕ → ℕ
  pub map_failed : ℕ
  pub madvise : List Call → ℕ → ℕ → Advice → ℕ
  pub munmap : List Call → ℕ → ℕ → ℕ
  pub later : Host → ℕ → ℕ → ℕ
  pub task_info : Host → TaskInfo
  pub chunk : ℕ → Option ℕ
  pub exe : Bool
  pub spawn : String → Option (Option String)

abbrev pub within : ℕ → ℕ → ℕ → Bool
within at len q = leb at q && ltb q (at + len)

-- The mappings that are there after the calls.
abbrev pub drop_range : ℕ → ℕ → List (ℕ × ℕ) → List (ℕ × ℕ)
drop_range at len [] = []
drop_range at len (r ∷ rest) = if r.0 == at && r.1 == len then rest else r ∷ drop_range at len rest

abbrev pub held : List Call → List (ℕ × ℕ)
held [] = []
held (mapped at len ∷ calls) = (at, len) ∷ held calls
held (advised at len advice ∷ calls) = held calls
held (unmapped at len ∷ calls) = drop_range at len (held calls)

-- Whether a word was ever in a range advised MADV_FREE.
abbrev pub is_free : Advice → Bool
is_free madv_free = true
is_free _ = false

abbrev pub freeable : List Call → ℕ → Bool
freeable [] q = false
freeable (mapped at len ∷ calls) q = freeable calls q
freeable (advised at len advice ∷ calls) q = within at len q && is_free advice || freeable calls q
freeable (unmapped at len ∷ calls) q = freeable calls q

-- The words of a buffer by their offset, and a write of the buffer.
abbrev pub buffer_at : (ℕ → ℕ) → ℕ → ℕ → ℕ
buffer_at words at off = words (at + off)

abbrev pub put : (ℕ → ℕ) → ℕ → ℕ → (ℕ → ℕ) → ℕ → ℕ
put words at len buffer q = if within at len q then buffer (q - at) else words q

module _ (sys : System) where
  -- A new mapping reads zero.
  unfoldable pub mmap_anon : ℕ → Run Host ℕ
  mmap_anon size h =
      let at = sys.mmap h.calls size in
      if at == sys.map_failed
      then panicked "mmap failed"
      else ok
          (at, record h { words = put h.words at size (λ _. 0); calls = mapped at size ∷ h.calls })

  -- `madvise` and the assertion behind it, whose message starts with a fixed text.
  unfoldable pub madvise : String → ℕ → ℕ → Advice → Run Host (Unit {0})
  madvise what at size advice h =
      if sys.madvise h.calls at size advice == 0
      then ok (tt, record h { calls = advised at size advice ∷ h.calls })
      else panicked what

  -- A page loop that writes a buffer.
  unfoldable pub write_buffer : ((ℕ → ℕ) → ℕ → ℕ → ℕ) → ℕ → ℕ → Run Host (Unit {0})
  write_buffer loop at size h =
      ok (tt, record h { words = put h.words at size (loop (buffer_at h.words at) size) })

  unfoldable pub sleep : ℕ → Run Host (Unit {0})
  sleep ms h = ok (tt, record h { words = sys.later h ms })

  unfoldable pub read_ledger : Run Host Ledger
  read_ledger h = elim (read (sys.task_info h)) [
    | ok l ↦ ok (l, h)
    | panicked what ↦ panicked what
    | out_of_fuel ↦ out_of_fuel
  ]
