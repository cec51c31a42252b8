-- ===== src/Guest/Tests.antt =====
-- The theorems about crates/hv-reclaim/src/guest.rs at a small machine: four pages of RAM, and a
-- hypervisor that cancels every other call.
use macos_vm_memory_ratchet.Prelude.{
  ℕ, ◌+◌, ◌*◌, ◌%◌, ◌^◌, ◌≤◌, length, ◌≡◌, refl, arith, Bool, false, ok, ltb, ◌==◌, if◌then◌else◌,
}
use macos_vm_memory_ratchet.Guest.Isa.{Mapping}
use macos_vm_memory_ratchet.Guest.Programs.{
  page, ram_gpa, touch_code, hammer_code, read_code, verify_code, fill_code, hammer_off, read_off,
  verify_off, fill_off, write_code_page,
}
use macos_vm_memory_ratchet.Guest.CodePage.{IsPlaced, write_code_page_lem}
use macos_vm_memory_ratchet.Guest.Sweep.{tally_pages}
use macos_vm_memory_ratchet.Guest.Turns.{vm}
use macos_vm_memory_ratchet.Guest.Host.{
  Vcpu, run_touch_range, run_sweep_range, run_fill_range, run_verify_range, run_hammer,
}
use macos_vm_memory_ratchet.Guest.Enter.{IsRange, is_first_word}
use macos_vm_memory_ratchet.Guest.Correct.{IsEnough, run_ranges_lem, run_verify_range_lem}
use macos_vm_memory_ratchet.Guest.HammerCorrect.{run_hammer_lem}
use macos_vm_memory_ratchet.Guest.Hypervisor.{Hypervisor}
use macos_vm_memory_ratchet.Guest.Bench.{bench, bench_laws, bench_settles}

abbrev ram_size : ℕ
ram_size = 4 * page

abbrev machine : Mapping
machine = vm (λ _. 0) ram_size

abbrev hv : Hypervisor
hv = bench machine 100

abbrev start : Vcpu
start = record {
  guest = record { pc = 0; x = λ _. 7; z = false; c = false; ram = λ q. q % 3 };
  calls = 1;
}

middle : IsRange ram_size page (3 * page)
middle = omega arith

whole : IsRange ram_size 0 ram_size
whole = omega arith

enough : IsEnough page (3 * page) 100 2 1 ((bench_laws machine 100).settles 1)
enough = omega (arith, bench_settles machine 100 1)

IsEnough-whole : IsEnough 0 ram_size 100 2 1 ((bench_laws machine 100).settles 1)
IsEnough-whole = omega (arith, bench_settles machine 100 1)

-- The first word of the first page is 1, that of the second is 2.
run_verify_range_example :
    (w : Vcpu) × (run_verify_range hv 2 page (3 * page) 1 start
      ≡ ok (tally_pages (λ q word. if word == 1 then 0 else 1) (ram_gpa + page) 2 (λ q. q % 3), w))
    × ((q : ℕ) → w.guest.ram q ≡ q % 3)
run_verify_range_example =
    run_verify_range_lem (λ _. 0) ram_size 100 hv (bench_laws machine 100) 2 page (3 * page) middle
      start enough 1

one_mismatch :
    tally_pages (λ q word. if word == 1 then 0 else 1) (ram_gpa + page) 2 (λ q. q % 3) ≡ 1
unfolding tally_pages
one_mismatch = refl

-- The callback counts its calls and stops at the third.
abbrev until_three : ℕ → ℕ → Bool × ℕ
until_three sweeps calls = (ltb sweeps 3, calls + 1)

run_hammer_example :
    (w : Vcpu) × (run_hammer hv until_three 6 ram_size 0 start ≡ ok ((3, 3), w))
    × ((q : ℕ)
        → w.guest.ram q ≡ (if is_first_word 0 ram_size q then (q % 3 + 3) % 2 ^ 64 else q % 3))
run_hammer_example =
    run_hammer_lem until_three (λ _. 0) ram_size 100 hv (bench_laws machine 100) whole (omega arith)
      1 (λ i. omega (arith, bench_settles machine 100 i)) 2 6 0 3 start (refl, (refl, (refl, refl)))
      (omega arith) (omega arith)

write_code_page_example :
    IsPlaced 0 touch_code (write_code_page (λ _. 0))
    × IsPlaced hammer_off hammer_code (write_code_page (λ _. 0))
    × IsPlaced read_off read_code (write_code_page (λ _. 0))
    × IsPlaced verify_off verify_code (write_code_page (λ _. 0))
    × IsPlaced fill_off fill_code (write_code_page (λ _. 0))
    × ((q : ℕ) → fill_off + 4 * length fill_code ≤ q → write_code_page (λ _. 0) q ≡ 0)
write_code_page_example = write_code_page_lem (λ _. 0)

run_ranges_example :
    ((w : Vcpu) × (run_touch_range hv 2 page (3 * page) start ≡ ok (tt, w))
      × ((q : ℕ) → w.guest.ram q ≡ (if is_first_word page (3 * page) q then q else q % 3)))
    × ((w : Vcpu) × (run_fill_range hv 2 page (3 * page) 7 start ≡ ok (tt, w))
        × ((q : ℕ) → w.guest.ram q ≡ (if is_first_word page (3 * page) q then 7 else q % 3)))
    × ((w : Vcpu) × (run_sweep_range hv 2 page (3 * page) start ≡ ok (tt, w))
        × ((q : ℕ)
            → w.guest.ram q
              ≡ (if is_first_word page (3 * page) q then (q % 3 + 1) % 2 ^ 64 else q % 3)))
run_ranges_example =
    run_ranges_lem (λ _. 0) ram_size 100 hv (bench_laws machine 100) 2 page (3 * page) middle start
      enough 7
