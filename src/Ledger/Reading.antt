-- ===== src/Ledger/Reading.antt =====
-- `Ledger::read` and `assert_host_page_size` of crates/ledger/src/lib.rs. `task_info` is a
-- parameter: the words that the kernel has, how many of them it copies and what it returns. It
-- copies them into the buffer from the front and leaves the rest of the buffer as it is, zero.
use macos_vm_memory_ratchet.Prelude.{
  ℕ, ◌+◌, ◌*◌, ◌/◌, ◌^◌, ◌≡◌, ◌↔◌, arith, ltb, ◌==◌, if◌then◌else◌, Result, ok, panicked,
}
use macos_vm_memory_ratchet.Ledger.Pages.{page}

-- `task_vm_info` up to `phys_footprint`, by the offset of each field in 32-bit words.
pub data Field : Type 0 where
  virtual_size region_count page_size resident_size resident_size_peak device device_peak : Field
  internal internal_peak external external_peak reusable reusable_peak : Field
  purgeable_volatile_pmap purgeable_volatile_resident purgeable_volatile_virtual : Field
  compressed compressed_peak compressed_lifetime phys_footprint : Field

abbrev pub offset : Field → ℕ
offset virtual_size = 0
offset region_count = 2
offset page_size = 3
offset resident_size = 4
offset resident_size_peak = 6
offset device = 8
offset device_peak = 10
offset internal = 12
offset internal_peak = 14
offset external = 16
offset external_peak = 18
offset reusable = 20
offset reusable_peak = 22
offset purgeable_volatile_pmap = 24
offset purgeable_volatile_resident = 26
offset purgeable_volatile_virtual = 28
offset compressed = 30
offset compressed_peak = 32
offset compressed_lifetime = 34
offset phys_footprint = 36

-- `size_of::<TaskVmInfo>() / size_of::<u32>()`.
abbrev pub full : ℕ
full = 152 / 4

pub record TaskInfo : Type 0 where
  pub kr : ℕ
  pub count : ℕ
  pub words : ℕ → ℕ

-- The buffer after the call.
abbrev pub buffer : TaskInfo → ℕ → ℕ
buffer t i = if ltb i t.count then t.words i else 0

-- A field of eight bytes, little-endian.
abbrev pub u64_at : (ℕ → ℕ) → Field → ℕ
u64_at words f = words (offset f) + 2 ^ 32 * words (offset f + 1)

pub record Ledger : Type 0 where
  pub phys_footprint : ℕ
  pub resident : ℕ
  pub reusable : ℕ
  pub compressed : ℕ
  pub regions : ℕ

unfoldable pub read : TaskInfo → Result Ledger
read t =
    if t.kr == 0
    then if t.count == full
      then ok (record {
        phys_footprint = u64_at (buffer t) Field.phys_footprint;
        resident = u64_at (buffer t) Field.resident_size;
        reusable = u64_at (buffer t) Field.reusable;
        compressed = u64_at (buffer t) Field.compressed;
        regions = buffer t (offset Field.region_count);
      })
      else panicked "task_info copied too few words"
    else panicked "task_info(TASK_VM_INFO) failed"

-- `assert_host_page_size`.
unfoldable pub assert_host_page_size : ℕ → Result (Unit {0})
assert_host_page_size sys = if sys == page then ok tt else panicked "host page size"

-- A reading returns exactly if the kernel reports success and has copied every word, and then each
-- figure is what the kernel has in its words, none of them a zero of the buffer.
pub read_lem :
    (t : TaskInfo) (l : Ledger)
    → (read t ≡ ok l) ↔ (
        (t.kr ≡ 0)
        × (t.count ≡ full)
        × (l ≡ record {
          phys_footprint = u64_at t.words Field.phys_footprint;
          resident = u64_at t.words Field.resident_size;
          reusable = u64_at t.words Field.reusable;
          compressed = u64_at t.words Field.compressed;
          regions = t.words (offset Field.region_count);
        }))
unfolding read
read_lem t l = (λ h. (ground arith, ground arith, ground arith), λ (kr, count, same). ground arith)
