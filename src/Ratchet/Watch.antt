-- ===== src/Ratchet/Watch.antt =====
-- The loop of crates/vz-ratchet/src/main.rs that watches the guest's `MemAvailable` fall: it ends.
use macos_vm_memory_ratchet.Prelude.{
  ℕ, zero, suc, ◌+◌, ◌*◌, ◌/◌, ◌≤◌, ◌<◌, ◌≡◌, inl, inr, arith, false, List, ◌∷◌, Bool-cases, ltb,
  Returns, Returns->>=, Returns-mono,
}
use Prim.Native.String.{String}
use macos_vm_memory_ratchet.Agent.Requests.{mem, write_request}
use macos_vm_memory_ratchet.Ratchet.{Link, Harness, sleep, guest_mem_available_kib, watch}
use macos_vm_memory_ratchet.Ratchet.Answers.{IsFigured, IsAfter, guest_mem-Returns}
use macos_vm_memory_ratchet.Ratchet.Logs.{times}

-- At most `most` requests for `MemAvailable` have been sent.
pub record IsWatched (now most : ℕ) (log : List String) (m : Link) : Type 0 where
  pub rounds : ℕ
  pub few : rounds ≤ most
  pub after : IsAfter now (times rounds (write_request mem) log) m

module _ (harness : Harness) where
  -- With fuel for the seconds that are left, and one round more, the loop returns.
  pub watch-Returns :
      (f deadline before kib now : ℕ) (log : List String) (l : Link)
      → ((k : ℕ) → k < f → IsFigured harness (times k (write_request mem) log))
      → IsAfter now log l
      → deadline ≤ l.now + 1000 * f
      → Returns (λ _. IsWatched now f log) (watch harness (suc f) deadline before kib l)
  unfolding watch sleep
  watch-Returns zero deadline before kib now log l figures after enough =
      let over : ltb l.now deadline ≡ false = ground arith in
      rw (over, Returns) (record { rounds = 0; few = omega arith; after = after })
  watch-Returns (suc g) deadline before kib now log l figures after enough =
      elim (Bool-cases (ltb l.now deadline)) [
        | inr over ↦ rw (over, Returns) (record { rounds = 0; few = omega arith; after = after })
        | inl more ↦ rw more (
            Returns->>= (guest_mem_available_kib harness) _
              (λ _ m. IsAfter (l.now + 1000) (write_request mem ∷ log) m)
              (λ _. IsWatched now (suc g) log) slept
              (guest_mem-Returns harness now log slept (figures 0 (omega arith)) (record {
                quiet = after.quiet;
                logged = after.logged;
                forward = omega (arith, after.forward);
              }))
              (λ figure m read. elim (Bool-cases (ltb figure (before / 2))) [
                | inl fell ↦
                    rw (fell, Returns)
                      (record {
                        rounds = 1;
                        few = omega arith;
                        after = record {
                          quiet = read.quiet;
                          logged = read.logged;
                          forward = omega (arith, read.forward, after.forward);
                        };
                      })
                | inr not_yet ↦ rw not_yet (
                    Returns-mono (λ _. IsWatched now g (write_request mem ∷ log))
                      (λ _. IsWatched now (suc g) log)
                      (watch harness (suc g) deadline before figure m)
                      (λ _ u w. record {
                        rounds = suc (w.rounds);
                        few = omega (arith, w.few);
                        after = w.after;
                      })
                      (watch-Returns g deadline before figure now (write_request mem ∷ log) m
                        (λ k lt. figures (suc k) (omega (arith, lt)))
                        (record {
                          quiet = read.quiet;
                          logged = read.logged;
                          forward = omega (arith, read.forward, after.forward);
                        })
                        (omega (arith, read.forward, enough))))
              ]))
      ]
    where
      slept : Link
      slept = record l { now = l.now + 1000 }
