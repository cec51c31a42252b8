-- ===== src/Soak/Bursts.antt =====
-- The thread of `run` of crates/hv-reclaim/src/soak.rs that turns memory pressure on and off until
-- it is told to stop. The clock counts milliseconds; how long `apply` takes, and what becomes of
-- the child that it starts, may depend on the time.
use macos_vm_memory_ratchet.Prelude.{
  ℕ, zero, suc, ◌+◌, ◌*◌, ◌≤◌, ◌<◌, ◌≡◌, ◌⊎◌, refl, ap, ◌∙◌, inl, inr, arith, Bool, true, false,
  ◌&&◌, List, [], ◌∷◌, ◌++◌, Option, none, some, ltb, if◌then◌else◌, Bool-cases,
}
use Prim.Native.String.{String}
use macos_vm_memory_ratchet.Ledger.Pressure.{
  Step, spawned, killed, reaped, Applied, guard, failed, child_after, apply, drop, apply-failed,
}

abbrev pub pressure_on : ℕ
pressure_on = 20 * 1000

abbrev pub pressure_off : ℕ
pressure_off = 20 * 1000

-- `drop` of what `apply` returned: of a guard, or of an error, which does nothing.
abbrev pub dropped : Applied → List Step → List Step
dropped guard steps = drop steps
dropped failed steps = steps

child_after-append :
    (there : Bool) (xs ys : List Step)
    → child_after there (xs ++ ys) ≡ child_after (child_after there xs) ys
child_after-append there [] ys = refl
child_after-append there (spawned ∷ xs) ys = child_after-append true xs ys
child_after-append there (killed ∷ xs) ys = child_after-append there xs ys
child_after-append there (reaped ∷ xs) ys = child_after-append false xs ys

none_left :
    (r : Applied × List Step)
    → (r.0 ≡ failed → child_after false r.1 ≡ false)
    → child_after false (dropped r.0 r.1) ≡ false
unfolding drop
none_left (guard, steps) h = child_after-append false steps (killed ∷ reaped ∷ [])
none_left (failed, steps) h = h refl

-- The flag is set at the time `stop`.
module _ (stop : ℕ) where
  -- `while Instant::now() < until && !stop`, and what the clock reads behind it.
  unfoldable pub wait : ℕ → ℕ → ℕ → Option ℕ
  wait zero now until = none
  wait (suc fuel) now until =
      let rest = wait fuel (now + 200) until in
      if ltb now until && ltb now stop then rest else some now

  -- Behind a wait the clock has reached `until` or the stop, and it has gone at most 200 milliseconds
  -- further than that.
  pub record IsWaited (now until t : ℕ) : Type 0 where
    pub reached : (until ≤ t) ⊎ (stop ≤ t)
    pub forward : now ≤ t
    pub prompt : (t ≡ now) ⊎ (t < stop + 200)

  wait_lem :
      (fuel now until : ℕ)
      → until ≤ now + 200 * fuel
      → (t : ℕ) × (wait (suc fuel) now until ≡ some t) × IsWaited now until t
  unfolding wait
  wait_lem zero now until enough =
      let over : (ltb now until && ltb now stop) ≡ false = ground (arith, enough) in
      (
        now,
        rw (over, if◌then◌else◌) refl,
        record { reached = inl (omega (arith, enough)); forward = omega arith; prompt = inl refl },
      )
  wait_lem (suc fuel) now until enough = elim (Bool-cases (ltb now until && ltb now stop)) [
    | inr over ↦ (
      now,
      rw (over, if◌then◌else◌) refl,
      record { reached = ground (arith, over); forward = omega arith; prompt = inl refl },
    )
    | inl still ↦
        let (t, e, is) = wait_lem fuel (now + 200) until (omega (arith, enough)) in
        (
          t,
          rw (still, e, if◌then◌else◌) refl,
          record {
            reached = is.reached;
            forward = omega (arith, is.forward);
            prompt = inr (ground (arith, still, is.prompt));
          },
        )
  ]

module _ (exe : Bool) (spawn : ℕ → String → Option (Option String)) (taken : ℕ → ℕ)
    (gb stop : ℕ) where
  -- The fuel of a wait is enough for its twenty seconds.
  unfoldable pub bursts : ℕ → ℕ → List Step → Option (ℕ × List Step)
  unfolding wait apply drop
  bursts zero now child = none
  bursts (suc fuel) now child =
      if ltb now stop
      then (let applied = apply exe (spawn now) gb in
          let holding = now + taken now in
          elim (wait stop 101 holding (holding + pressure_on)) [
            | none ↦ none
            | some t ↦ elim (wait stop 101 t (t + pressure_off)) [
              | none ↦ none
              | some u ↦ bursts fuel u (child ++ dropped applied.0 applied.1)
            ]
          ])
      else some (now, child)

  -- Whatever becomes of the child that `apply` starts, none is left behind the drop.
  dropped_lem :
      (now : ℕ) (child : List Step)
      → child_after false child ≡ false
      → child_after false
          (child ++ dropped (apply exe (spawn now) gb).0 (apply exe (spawn now) gb).1)
        ≡ false
  dropped_lem now child none_before =
      child_after-append false child
        (dropped (apply exe (spawn now) gb).0 (apply exe (spawn now) gb).1)
      ∙ ap (λ b. child_after b (dropped (apply exe (spawn now) gb).0 (apply exe (spawn now) gb).1))
          none_before
      ∙ none_left (apply exe (spawn now) gb) (apply-failed exe (spawn now) gb).1

  -- The thread ends: a round brings it 200 milliseconds nearer to the stop at least, so the fuel
  -- for the time to the stop is enough. It ends less than 200 milliseconds after the stop and the
  -- longest time that `apply` takes, unless it was started behind the stop and ends at once; and
  -- whatever became of the children that `apply` started, with or without their guard, it leaves
  -- none.
  pub bursts_lem :
      (fuel now longest : ℕ) (child : List Step)
      → ((t : ℕ) → taken t ≤ longest)
      → stop ≤ now + 200 * fuel
      → child_after false child ≡ false
      → (t : ℕ) × (steps : List Step) × (bursts (suc fuel) now child ≡ some (t, steps))
        × (stop ≤ t)
        × ((t ≡ now) ⊎ (t < stop + longest + 200))
        × (child_after false steps ≡ false)
  unfolding bursts
  bursts_lem zero now longest child quick enough none_before =
      let over : ltb now stop ≡ false = ground (arith, enough) in
      (now, child, rw (over, if◌then◌else◌) refl, omega (arith, enough), inl refl, none_before)
  bursts_lem (suc fuel) now longest child quick enough none_before =
      elim (Bool-cases (ltb now stop)) [
        | inr over ↦
            (now, child, rw (over, if◌then◌else◌) refl, ground (arith, over), inl refl, none_before)
        | inl early ↦
            let before : now < stop = ground (arith, early) in
            let holding = now + taken now in
            let (t, e, on) = wait_lem stop 100 holding (holding + pressure_on) (omega arith) in
            let (u, f, off) = wait_lem stop 100 t (t + pressure_off) (omega arith) in
            let further : stop ≤ u + 200 * fuel = omega (arith, on.reached, off.forward, enough) in
            let (v, steps, ran, late, prompt, none_left) =
              bursts_lem fuel u longest
                (child ++ dropped (apply exe (spawn now) gb).0 (apply exe (spawn now) gb).1) quick
                further (dropped_lem now child none_before) in
            (
              v,
              steps,
              rw (early, e, f, ran, if◌then◌else◌) refl,
              late,
              inr (omega (arith, prompt, on.prompt, off.prompt, quick now, before)),
              none_left,
            )
      ]
