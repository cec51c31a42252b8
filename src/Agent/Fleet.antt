-- ===== src/Agent/Fleet.antt =====
-- The fleet session of crates/vz-ratchet/src/fleet.rs with the agent of guest-init/src/main.rs.
use macos_vm_memory_ratchet.Prelude.{
  ℕ, zero, suc, ◌+◌, ◌≡◌, refl, ap, sym, ◌∙◌, arith, some, List, [], ◌∷◌, ◌++◌, inl, inr,
  List-cases, Result-cases, length, length-append, ok,
}
use macos_vm_memory_ratchet.Agent.Sessions.{forked, serve-IsAccounted}
use macos_vm_memory_ratchet.Agent.{
  Agent, Os, Command, Reply, boot, fleet_start, fleet_stop_one, fleet_started, fleet_stopped,
  start_services, stop_services, handle, serve,
}
use mathlib.Core.List.{append-nil}

abbrev repeat : ℕ → Command → List Command
repeat zero c = []
repeat (suc n) c = c ∷ repeat n c

-- The commands of `run`: a `fleet start 1` for each service, then a `fleet stop-one` for each.
abbrev pub session : ℕ → ℕ → List Command
session services service_mib =
    repeat services (fleet_start 1 service_mib) ++ repeat services fleet_stop_one

-- The fleet goes up from `m` by one with each reply, and down to none.
abbrev pub started_up : ℕ → ℕ → List Reply
started_up m zero = []
started_up m (suc n) = fleet_started (m + 1) ∷ started_up (m + 1) n

abbrev pub stopped_down : ℕ → List Reply
stopped_down zero = []
stopped_down (suc n) = fleet_stopped n ∷ stopped_down n

module _ (os : Os) where
  -- One more command in front.
  serve-cons :
      (c : Command) (cs : List Command) (a b d : Agent) (x : Reply) (xs : List Reply)
      → handle os c a ≡ ok (x, b)
      → serve os cs b ≡ ok (xs, d)
      → serve os (c ∷ cs) a ≡ ok (x ∷ xs, d)
  unfolding serve
  serve-cons c cs a b d x xs h k = ground (arith, h, k)

  serve-append :
      (cs ds : List Command) (a b d : Agent) (rs us : List Reply)
      → serve os cs a ≡ ok (rs, b)
      → serve os ds b ≡ ok (us, d)
      → serve os (cs ++ ds) a ≡ ok (rs ++ us, d)
  unfolding serve
  serve-append [] ds a b d rs us h k = ground (arith, h, k)
  serve-append (c ∷ cs) ds a b d rs us h k = elim (Result-cases (handle os c a)) [
    | inl ((x, a'), e) ↦ elim (Result-cases (serve os cs a')) [
      | inl ((xs, b'), e') ↦
          let same : b' ≡ b = ground arith in
          let replies : x ∷ xs ≡ rs = ground arith in
          let more = serve-append cs ds a' b d xs us (e' ∙ ap (λ (q : Agent). ok (xs, q)) same) k in
          serve-cons c (cs ++ ds) a a' d x (xs ++ us) e more
          ∙ ap (λ (l : List Reply). ok (l ++ us, d)) replies
      | inr (inl (what, e')) ↦ absurd (ground arith)
      | inr (inr e') ↦ absurd (ground arith)
    ]
    | inr (inl (what, e)) ↦ absurd (ground arith)
    | inr (inr e) ↦ absurd (ground arith)
  ]

  starts :
      (pids : ℕ → ℕ) (forks : (i : ℕ) → os.fork i ≡ some (pids i)) (mib n : ℕ) (a : Agent)
      → (b : Agent) × (serve os (repeat n (fleet_start 1 mib)) a
          ≡ ok (started_up (length a.fleet) n, b))
        × (length b.fleet ≡ length a.fleet + n)
        × (b.forks ≡ a.forks + n)
  unfolding serve handle start_services
  starts pids forks mib zero a = (a, refl, omega arith, omega arith)
  starts pids forks mib (suc n) a =
      let a1 : Agent = record a { fleet = a.fleet ++ pids a.forks ∷ []; forks = suc (a.forks) } in
      let one : length a1.fleet ≡ length a.fleet + 1 = length-append a.fleet (pids a.forks ∷ []) in
      let (b, returns, size, count) = starts pids forks mib n a1 in
      let first : handle os (fleet_start 1 mib) a ≡ ok (fleet_started (length a.fleet + 1), a1) =
        ground (arith, forks a.forks, one) in
      (
        b,
        serve-cons (fleet_start 1 mib) (repeat n (fleet_start 1 mib)) a a1 b _ _ first
            (returns ∙ ap (λ (m : ℕ). ok (started_up m n, b)) one),
        omega (arith, size, one),
        omega (arith, count),
      )

  stops :
      (n : ℕ) (a : Agent)
      → length a.fleet ≡ n
      → (b : Agent) × (serve os (repeat n fleet_stop_one) a ≡ ok (stopped_down n, b))
        × (b.fleet ≡ [])
        × (b.forks ≡ a.forks)
  unfolding serve handle stop_services
  stops zero a e = elim (List-cases a.fleet) [
    | inl none_left ↦ (a, refl, none_left, refl)
    | inr (pid, (rest, more)) ↦ absurd (ground (arith, more))
  ]
  stops (suc n) a e = elim (List-cases a.fleet) [
    | inl none_left ↦ absurd (ground (arith, none_left))
    | inr (pid, (rest, more)) ↦
        let a1 : Agent = record a { fleet = rest; killed = a.killed ++ pid ∷ [] } in
        let size : length rest ≡ n = ground (arith, more, e) in
        let (b, returns, none_left, count) = stops n a1 size in
        let first : handle os fleet_stop_one a ≡ ok (fleet_stopped n, a1) =
          ground (arith, more, size) in
        (
          b,
          serve-cons fleet_stop_one (repeat n fleet_stop_one) a a1 b _ _ first returns,
          none_left,
          count,
        )
  ]

  -- If no `fork` fails, the whole session of `n` services returns: the replies count the fleet up to
  -- `n` and down to none, no process is left, and those killed are the `n` that were forked, in that
  -- order.
  pub serve-session :
      (pids : ℕ → ℕ) (forks : (i : ℕ) → os.fork i ≡ some (pids i)) (n mib : ℕ)
      → (a : Agent) × (serve os (session n mib) boot ≡ ok (started_up 0 n ++ stopped_down n, a))
        × (a.fleet ≡ [])
        × (a.killed ≡ forked os n)
  serve-session pids forks n mib =
      let (b, up, size, count) = starts pids forks mib n boot in
      let (d, down, none_left, same) = stops n b (omega (arith, size)) in
      let returns =
        serve-append (repeat n (fleet_start 1 mib)) (repeat n fleet_stop_one) boot b d _ _ up
          down in
      let account : d.killed ++ d.fleet ≡ forked os d.forks =
        serve-IsAccounted os (session n mib) d _ returns in
      (
        d,
        returns,
        none_left,
        sym (ap (λ (l : List ℕ). d.killed ++ l) none_left ∙ append-nil d.killed)
            ∙ (account ∙ ap (forked os) (omega (arith, same, count))),
      )
