-- ===== src/Reclaim/Bench.antt =====
-- A kernel that grants every call, and the guest's mapping of the tests.
use macos_vm_memory_ratchet.Prelude.{ℕ, ◌+◌, ◌-◌, refl, arith, Option, none, some, if◌then◌else◌}
use macos_vm_memory_ratchet.Guest.Programs.{ram_gpa}
use macos_vm_memory_ratchet.Reclaim.{mmap_fixed, Kernel}
use macos_vm_memory_ratchet.Reclaim.Stage2.{within, IsLinear}
use macos_vm_memory_ratchet.Reclaim.Returns.{IsCompliant}

abbrev pub kernel : Kernel
kernel calls c = elim c [ mmap_fixed host len ↦ host | _ ↦ 0 ]

pub compliant : IsCompliant kernel
compliant calls c = refl

abbrev pub ram : ℕ
ram = 0x10_0000_0000

abbrev pub mapped : ℕ → ℕ → Option ℕ
mapped size q = if within ram_gpa size q then some (ram + (q - ram_gpa)) else none

pub linear : (size : ℕ) → IsLinear ram size (mapped size)
linear size = record { inside = λ q lo hi. ground arith; outside = λ q h e. ground arith }
