-- ===== src/Ratchet/Steps.antt =====
-- The steps of the sessions of crates/vz-ratchet/src, main.rs and fleet.rs, with a harness that
-- answers their lines.
use macos_vm_memory_ratchet.Prelude.{
  ℕ, zero, suc, ◌+◌, ◌*◌, ◌%◌, ◌^◌, ◌≤◌, ◌<◌, ◌≡◌, arith, true, List, [], ◌∷◌, leb, Run, pure,
  assert, ◌>>=◌, ◌>>◌, Returns, Returns->>=,
}
use Prim.Native.String.{String}
use macos_vm_memory_ratchet.Options.Vz.{VzOptions, fleet_fits}
use macos_vm_memory_ratchet.Agent.Requests.{
  touch, free, mem, fleet_stop_one, fleet_start_one, write_request,
}
use macos_vm_memory_ratchet.Ratchet.{
  Link, Harness, send, wait, sleep, guest_mem_available_kib, watch, touch_and_free, balloon,
  set_balloon, start_services, stop_services, run_fleet, boot_timeout, touch_timeout,
  balloon_timeout,
}
use macos_vm_memory_ratchet.Ratchet.Answers.{
  IsAnswered, AnswersSteps, AnswersFleet, IsAfter, exchange, guest_mem-Returns, sleep-Returns,
}
use macos_vm_memory_ratchet.Ratchet.Logs.{
  times, balloon_line, touch_log, free_log, balloon_log, touch_target, fleet_target, starts_log,
  stops_log, fleet_log,
}
use macos_vm_memory_ratchet.Ratchet.Watch.{IsWatched, watch-Returns}

module _ (harness : Harness) where
  -- After a step the lines sent are `log`, and the clock has not gone back behind `now`.
  abbrev pub Says : List String → Run Link (Unit {0}) → List String → Type 0
  Says log m log' =
      (now : ℕ) (l : Link) → IsAfter now log l → Returns (λ _ u. IsAfter now log' u) (m l)

  since :
      (base now : ℕ) (log : List String) (l : Link)
      → base ≤ now
      → IsAfter now log l
      → IsAfter base log l
  since base now log l le a = record {
    quiet = a.quiet;
    logged = a.logged;
    forward = omega (arith, le, a.forward);
  }

  >>-Says :
      (log mid log' : List String) (m n : Run Link (Unit {0}))
      → Says log m mid
      → Says mid n log'
      → Says log (m >> n) log'
  >>-Says log mid log' m n first then_rest now l a =
      Returns->>= m (λ _. n) (λ _. IsAfter now mid) (λ _. IsAfter now log') l (first now l a)
        (λ _ u b. then_rest now u b)

  sleep-Says : (ms : ℕ) (log : List String) → Says log (sleep ms) log
  sleep-Says ms log now l a = sleep-Returns harness ms now log l a

  -- An exchange, and what goes on from there.
  answered :
      (line prefix : String) (timeout : ℕ) (log log' : List String) (f : Run Link (Unit {0}))
      → ((now : ℕ) → IsAnswered prefix timeout now (harness (line ∷ log) now))
      → Says (line ∷ log) f log'
      → Says log (send harness line >> (wait prefix timeout >>= λ _. f)) log'
  answered line prefix timeout log log' f answers then_rest now l a =
      exchange harness line prefix timeout (answers l.now).0 (λ _. f) (λ _. IsAfter now log') now
        log l a (answers l.now).1
        (λ m b. then_rest now m (since now l.now (line ∷ log) m a.forward b))

  pub touch_and_free-Says :
      (o : VzOptions)
      → AnswersSteps harness o
      → Says [] (touch_and_free harness o.touch_gb) (free_log o.touch_gb)
  unfolding touch_and_free
  touch_and_free-Says o good =
      let t = touch_log o.touch_gb in
      answered (write_request (touch o.touch_gb)) "RATCHET TOUCHED" touch_timeout [] _ _
        good.touches
        (>>-Says t t _ (sleep 1000) _ (sleep-Says 1000 t) (
          answered (write_request free) "RATCHET FREED" boot_timeout t _ (sleep 2000) good.frees
            (sleep-Says 2000 (free_log o.touch_gb))))

  set_balloon-Says :
      (mib : ℕ) (log : List String)
      → ((now : ℕ)
          → IsAnswered "HARNESS balloon-target"
              (10 * 1000)
              now
              (harness (balloon_line mib ∷ log) now))
      → Says log (set_balloon harness mib) (balloon_line mib ∷ log)
  unfolding set_balloon
  set_balloon-Says mib log answers =
      answered (balloon_line mib) "HARNESS balloon-target" (10 * 1000) log _ (pure tt) answers
        (λ now l a. a)

  -- A loop of exchanges with the same line, of which each is answered.
  start_services-Says :
      (mib n : ℕ) (log : List String)
      → ((k now : ℕ)
          → k < n
          → IsAnswered "RATCHET FLEET-STARTED" boot_timeout now (
              harness
                (write_request (fleet_start_one mib)
                  ∷ times k (write_request (fleet_start_one mib)) log)
                now))
      → Says log (start_services harness mib n) (times n (write_request (fleet_start_one mib)) log)
  unfolding start_services
  start_services-Says mib zero log answers now l a = a
  start_services-Says mib (suc n) log answers now l a =
      let line = write_request (fleet_start_one mib) in
      answered line "RATCHET FLEET-STARTED" boot_timeout log _ _ (λ t. answers 0 t (omega arith))
        (>>-Says (line ∷ log) (line ∷ log) _ (sleep 2000) _ (sleep-Says 2000 (line ∷ log)) (
          start_services-Says mib n (line ∷ log) (λ k t lt. answers (suc k) t (omega (arith, lt)))))
        now l a

  stop_services-Says :
      (n : ℕ) (log : List String)
      → ((k now : ℕ)
          → k < n
          → IsAnswered "RATCHET FLEET-STOPPED" boot_timeout now (
              harness
                (write_request fleet_stop_one ∷ times k (write_request fleet_stop_one) log)
                now))
      → Says log (stop_services harness n) (times n (write_request fleet_stop_one) log)
  unfolding stop_services
  stop_services-Says zero log answers now l a = a
  stop_services-Says (suc n) log answers now l a =
      let line = write_request fleet_stop_one in
      answered line "RATCHET FLEET-STOPPED" boot_timeout log _ _ (λ t. answers 0 t (omega arith))
        (>>-Says (line ∷ log) (line ∷ log) _ (sleep 2000) _ (sleep-Says 2000 (line ∷ log))
          (stop_services-Says n (line ∷ log) (λ k t lt. answers (suc k) t (omega (arith, lt)))))
        now l a

  pub run_fleet-Says :
      (o : VzOptions)
      → AnswersFleet harness o
      → fleet_fits o ≡ true
      → Says [] (run_fleet harness o) (fleet_log o)
  unfolding run_fleet fleet_fits
  run_fleet-Says o good fits =
      let target = fleet_target o in
      let up = starts_log o.services o in
      let down = stops_log o.services o in
      let fits' : leb (o.services * o.service_mib % 2 ^ 64) (o.guest_gb * 1024 % 2 ^ 64) ≡ true =
        ground arith in
      >>-Says [] [] _ (sleep 10000) _ (sleep-Says 10000 []) (
        >>-Says [] up _ (start_services harness o.service_mib o.services) _
          (start_services-Says o.service_mib o.services [] good.starts)
          (>>-Says up up _ (sleep 30000) _ (sleep-Says 30000 up) (
            >>-Says up down _ (stop_services harness o.services) _
              (stop_services-Says o.services up good.stops)
              (>>-Says down down (fleet_log o) (sleep 30000)
                (assert (leb (o.services * o.service_mib % 2 ^ 64) (o.guest_gb * 1024 % 2 ^ 64))
                    "attempt to subtract with overflow"
                  >> (set_balloon harness target >> sleep 30000))
                (sleep-Says 30000 down)
                (λ now l a. rw fits' (
                  >>-Says down (fleet_log o) (fleet_log o) (set_balloon harness target)
                    (sleep 30000) (set_balloon-Says target down good.balloons)
                    (sleep-Says 30000 (fleet_log o)) now l a))))))

  pub balloon-Returns :
      (o : VzOptions) (now : ℕ) (l : Link)
      → AnswersSteps harness o
      → o.touch_gb ≤ o.guest_gb
      → IsAfter now (free_log o.touch_gb) l
      → Returns
          (λ _. IsWatched 0 30 (balloon_log (touch_target o) (free_log o.touch_gb)))
          (balloon harness 31 o.guest_gb o.touch_gb l)
  unfolding balloon
  balloon-Returns o now l good le a =
      let log = free_log o.touch_gb in
      let target = touch_target o in
      let done = IsWatched 0 30 (balloon_log target log) in
      let room : leb o.touch_gb o.guest_gb ≡ true = ground arith in
      Returns->>= (guest_mem_available_kib harness) _
        (λ _ m. IsAfter l.now (write_request mem ∷ log) m) (λ _. done) l
        (guest_mem-Returns harness now log l good.figure a)
        (λ before m b. rw room (
          Returns->>= (set_balloon harness target) _ (λ _ u. IsAfter 0 (balloon_log target log) u)
            (λ _. done) m
            (set_balloon-Says target (write_request mem ∷ log) good.balloons 0 m
              (since 0 l.now (write_request mem ∷ log) m (omega arith) b))
            (λ _ u c.
              Returns->>= (λ (v : Link). watch harness 31 (v.now + balloon_timeout) before before v)
                _ (λ _. done) (λ _. done) u
                (watch-Returns harness 30 (u.now + balloon_timeout) before before 0
                  (balloon_log target log) u good.figures c (omega arith))
                (λ kib v w. record {
                  rounds = w.rounds;
                  few = w.few;
                  after = record {
                    quiet = (w.after).quiet;
                    logged = (w.after).logged;
                    forward = omega arith;
                  };
                }))))
