-- ===== src/Soak/SelfTest.antt =====
-- `detector_self_test` of crates/hv-reclaim/src/soak.rs on a range of which every page is as
-- expected.
use macos_vm_memory_ratchet.Prelude.{
  ℕ, suc, ◌+◌, ◌-◌, ◌<◌, ◌≡◌, ◌≢◌, refl, ap, sym, ◌∙◌, arith, ok, ◌>>=◌, bit_xor, bit_xor_same,
}
use macos_vm_memory_ratchet.Guest.Programs.{page, ram_gpa}
use macos_vm_memory_ratchet.Guest.Turns.{vm}
use macos_vm_memory_ratchet.Guest.Sweep.{tally_pages}
use macos_vm_memory_ratchet.Guest.Hypervisor.{Hypervisor, IsDocumented}
use macos_vm_memory_ratchet.Guest.Host.{Vcpu, run_verify_range}
use macos_vm_memory_ratchet.Guest.Enter.{IsRange, more_rounds}
use macos_vm_memory_ratchet.Guest.Correct.{IsEnough, run_verify_range_lem}
use macos_vm_memory_ratchet.Reclaim.{Kernel, ReclaimMode, Trace}
use macos_vm_memory_ratchet.Soak.Tally.{IsClean, mismatch, tally-IsClean, tally_planted}
use macos_vm_memory_ratchet.Guest.Isa.{update}
use macos_vm_memory_ratchet.Soak.{poke, detector_self_test}

module _ (code : ℕ → ℕ) (size limit fuel : ℕ) (hv : Hypervisor)
    (laws : IsDocumented (vm code size) limit hv) (kernel : Kernel) (left : Trace → ℕ → ℕ)
    (ram slot half : ℕ) (mode : ReclaimMode) (advice : ℕ) (s e : ℕ) (inside : IsRange size s e)
    (enough : (v : Vcpu) → IsEnough s e limit fuel v.calls (laws.settles v.calls)) where
  -- A range with one wrong word, at the start of its second page.
  verify_planted :
      (expected wrong : ℕ) (v : Vcpu)
      → s + page < e
      → IsClean s e expected v.guest.ram
      → wrong ≢ expected
      → let v1 : Vcpu = record v {
        guest = record (v.guest) { ram = update v.guest.ram (ram_gpa + (s + page)) wrong };
      } in
        (u : Vcpu) × (run_verify_range hv fuel s e expected v1 ≡ ok (1, u))
        × ((q : ℕ) → u.guest.ram q ≡ v1.guest.ram q)
  verify_planted expected wrong v two clean ne =
      let v1 : Vcpu = record v {
        guest = record (v.guest) { ram = update v.guest.ram (ram_gpa + (s + page)) wrong };
      } in
      let (u, returns, same) =
        run_verify_range_lem code size limit hv laws fuel s e inside v1 (enough v1) expected in
      let n : ℕ = more_rounds s e - 1 in
      let rounds : more_rounds s e ≡ suc n = omega arith in
      let one : tally_pages (mismatch expected) (ram_gpa + s) (suc (suc n)) v1.guest.ram ≡ 1 =
        tally_planted expected n (ram_gpa + s) wrong v1.guest.ram ne (ground arith)
          (λ q c away. ground (arith, clean q (ground arith))) in
      (
        u,
        returns
            ∙ (ap (λ m. ok (tally_pages (mismatch expected) (ram_gpa + s) (suc m) v1.guest.ram, u))
                  rounds
                ∙ ap (λ (m : ℕ). ok (m, u)) one),
        same,
      )

  verify_clean_range :
      (expected : ℕ) (v : Vcpu)
      → IsClean s e expected v.guest.ram
      → (u : Vcpu) × (run_verify_range hv fuel s e expected v ≡ ok (0, u))
        × ((q : ℕ) → u.guest.ram q ≡ v.guest.ram q)
  verify_clean_range expected v clean =
      let (u, returns, same) =
        run_verify_range_lem code size limit hv laws fuel s e inside v (enough v) expected in
      (
        u,
        returns
            ∙ ap (λ (n : ℕ). ok (n, u)) (tally-IsClean size s e expected v.guest.ram inside clean),
        same,
      )

  -- On a range of two pages at least of which every page starts with `expected`, the self-test of the
  -- detector returns: the guest's checker finds exactly the one page that the host corrupts, and
  -- nothing after it is restored. RAM is as it was.
  pub detector_self_test_lem :
      (expected : ℕ) (v : Vcpu)
      → s + page < e
      → IsClean s e expected v.guest.ram
      → (u : Vcpu) × (detector_self_test hv kernel left fuel ram slot half mode advice s e expected
            v
          ≡ ok (tt, u))
        × ((q : ℕ) → u.guest.ram q ≡ v.guest.ram q)
  unfolding detector_self_test poke
  detector_self_test_lem expected v two clean =
      let victim : ℕ = ram_gpa + (s + page) in
      let saved : ℕ = v.guest.ram victim in
      let wrong : ℕ = bit_xor saved 0xDEAD_BEEF in
      let saved_lem : saved ≡ expected = clean victim (ground arith) in
      let ne : wrong ≢ expected =
        λ same. omega (arith, bit_xor_same saved 0xDEAD_BEEF (same ∙ sym saved_lem)) in
      let (v1, found, same1) = verify_planted expected wrong v two clean ne in
      let v2 : Vcpu = record v1 {
        guest = record (v1.guest) { ram = update v1.guest.ram victim saved };
      } in
      let restored : (q : ℕ) → v2.guest.ram q ≡ v.guest.ram q = λ q. ground (arith, same1 q) in
      let (v3, clean', same3) = verify_clean_range expected v2 (λ q h. restored q ∙ clean q h) in
      (v3, rw (found, ◌>>=◌) (rw (clean', ◌>>=◌) refl), λ q. same3 q ∙ restored q)
