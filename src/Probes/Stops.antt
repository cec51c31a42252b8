-- ===== src/Probes/Stops.antt =====
-- The callback of `hammer_check` in crates/hv-reclaim/src/main.rs: when it stops the hammer.
use macos_vm_memory_ratchet.Prelude.{
  ℕ, ◌+◌, ◌-◌, ◌≤◌, ◌≡◌, refl, ap, inl, inr, ◌∙◌, arith, Bool, Bool-cases, true, false, List, [],
  ◌∷◌, ◌++◌, some, none, ltb, leb, ok,
}
use macos_vm_memory_ratchet.Probes.Hold.{
  hold, tail, Seen, Phase, ready, empty, waiting, receive, poll, release, on_sweep, sweeping, Among,
  IsOrdered,
}

-- Neither within a call nor from one to the next the clock goes back.
abbrev pub IsClocked : ℕ → List Seen → Type 0
IsClocked now [] = Unit {0}
IsClocked now (e ∷ rest) = (now ≤ e.at_receive) × IsOrdered e × IsClocked e.at_tail rest

-- Calls at which the generator has not reported yet.
abbrev pub AllEmpty : List Seen → Type 0
AllEmpty [] = Unit {0}
AllEmpty (e ∷ rest) = (e.received ≡ empty) × AllEmpty rest

-- A run of the hammer says stop at one of the calls.
abbrev pub Stops : List Seen → Phase → Type 0
Stops es p = (q : Phase) × (sweeping es p ≡ ok (false, q))

on_sweep-Stops :
    (e : Seen) (rest : List Seen) (p q : Phase) (more : Bool)
    → on_sweep e p ≡ ok (more, q)
    → (more ≡ true → Stops rest q)
    → Stops (e ∷ rest) p
unfolding sweeping
on_sweep-Stops e rest p q true swept then_rest = rw (swept, sweeping) (then_rest refl)
on_sweep-Stops e rest p q false swept then_rest = (q, rw (swept, sweeping) refl)

later :
    (now : ℕ) (before : List Seen) (e : Seen) (rest : List Seen)
    → IsClocked now (before ++ e ∷ rest)
    → now ≤ e.at_release
later now [] e rest (le, o, clock) = omega (arith, o.0, o.1)
later now (d ∷ before) e rest (le, o, clock) =
    omega (arith, le, o.0, o.1, later d.at_tail before e rest clock)

Among-append : (before : List Seen) (e : Seen) (rest : List Seen) → Among e (before ++ e ∷ rest)
Among-append [] e rest = inl refl
Among-append (d ∷ before) e rest = inr (Among-append before e rest)

-- Once the pressure is released, the hammer stops at the end of the tail at the latest.
released-Stops :
    (r : ℕ) (es : List Seen) (e : Seen) (p : Phase)
    → p.released_at ≡ some r
    → Among e es
    → r + tail ≤ e.at_tail
    → Stops es p
unfolding on_sweep poll receive release
released-Stops r [] e p released at over = absurd at
released-Stops r (z ∷ zs) e p released at over =
    on_sweep-Stops z zs p p (ltb (z.at_tail - r) tail) (ground arith) (λ more. elim at [
      | inl here ↦ absurd (ground (arith, ap (λ (s : Seen). s.at_tail) here))
      | inr beyond ↦ released-Stops r zs e p released beyond over
    ])

abbrev let_go : Phase → ℕ → Phase
let_go p r = record p { guard = false; released_at = some r }

-- A call that holds the pressure keeps it, or releases it when it has been held long enough.
holds_on :
    (t : ℕ) (e : Seen) (p : Phase)
    → p.guard ≡ true
    → p.hold_since ≡ some t
    → p.released_at ≡ none
    → leb hold (e.at_hold - t) ≡ false
    → on_sweep e p ≡ ok (true, p)
unfolding on_sweep poll receive release
holds_on t e p g h r short = ground arith

lets_go :
    (t : ℕ) (e : Seen) (p : Phase)
    → p.guard ≡ true
    → p.hold_since ≡ some t
    → p.released_at ≡ none
    → leb hold (e.at_hold - t) ≡ true
    → on_sweep e p ≡ ok (ltb (e.at_tail - e.at_release) tail, let_go p e.at_release)
unfolding on_sweep poll receive release
lets_go t e p g h r long = ground arith

holding-Stops :
    (t now : ℕ) (ys zs rest : List Seen) (e2 e3 : Seen) (p : Phase)
    → p.guard ≡ true
    → p.hold_since ≡ some t
    → p.released_at ≡ none
    → IsClocked now (ys ++ e2 ∷ (zs ++ e3 ∷ rest))
    → t + hold ≤ e2.at_hold
    → e2.at_release + tail ≤ e3.at_tail
    → Stops (ys ++ e2 ∷ (zs ++ e3 ∷ rest)) p
holding-Stops t now [] zs rest e2 e3 p g h r clock held over =
    on_sweep-Stops e2 (zs ++ e3 ∷ rest) p (let_go p e2.at_release)
      (ltb (e2.at_tail - e2.at_release) tail) (lets_go t e2 p g h r (ground arith))
      (λ more.
        released-Stops e2.at_release (zs ++ e3 ∷ rest) e3 (let_go p e2.at_release) refl
          (Among-append zs e3 rest) over)
holding-Stops t now (y ∷ ys) zs rest e2 e3 p g h r (le, o, clock) held over =
    let left = ys ++ e2 ∷ (zs ++ e3 ∷ rest) in
    elim (Bool-cases (leb hold (y.at_hold - t))) [
      | inl long ↦
          on_sweep-Stops y left p (let_go p y.at_release) (ltb (y.at_tail - y.at_release) tail)
            (lets_go t y p g h r long)
            (λ more.
              released-Stops y.at_release left e3 (let_go p y.at_release) refl
                (Among-beyond ys e2 e3 zs rest)
                (omega (arith, o.1, later y.at_tail ys e2 (zs ++ e3 ∷ rest) clock, over)))
      | inr short ↦
          on_sweep-Stops y left p p true (holds_on t y p g h r short)
            (λ more. holding-Stops t y.at_tail ys zs rest e2 e3 p g h r clock held over)
    ]
  where
    Among-beyond :
        (ys : List Seen) (e2 e3 : Seen) (zs rest : List Seen)
        → Among e3 (ys ++ e2 ∷ (zs ++ e3 ∷ rest))
    Among-beyond [] e2 e3 zs rest = inr (Among-append zs e3 rest)
    Among-beyond (d ∷ ys) e2 e3 zs rest = inr (Among-beyond ys e2 e3 zs rest)

waits : (e : Seen) → e.received ≡ empty → on_sweep e waiting ≡ ok (true, waiting)
unfolding on_sweep poll receive release
waits e nothing = ground arith

abbrev reported : ℕ → Phase
reported t = record { guard = true; hold_since = some t; released_at = none }

-- A call at which the report comes in does the rest as one that holds the pressure already.
reports :
    (e : Seen) (rest : List Seen)
    → e.received ≡ ready
    → sweeping (e ∷ rest) waiting ≡ sweeping (e ∷ rest) (reported e.at_receive)
unfolding sweeping on_sweep poll receive
reports e rest report = rw report refl

-- A run of any number of calls, with a clock that does not go back within them or between them: the
-- channel is empty at first, then there is a call at which the generator reports, some time later
-- one at which the pressure has been held for eight seconds since the report, and some time later
-- one that ends two seconds or more after that. Then the hammer stops, whatever the channel holds
-- behind the report and however many calls lie between.
pub sweeping-Stops :
    (xs ys zs rest : List Seen) (e1 e2 e3 : Seen) (now : ℕ)
    → IsClocked now (xs ++ e1 ∷ (ys ++ e2 ∷ (zs ++ e3 ∷ rest)))
    → AllEmpty xs
    → e1.received ≡ ready
    → e1.at_receive + hold ≤ e2.at_hold
    → e2.at_release + tail ≤ e3.at_tail
    → Stops (xs ++ e1 ∷ (ys ++ e2 ∷ (zs ++ e3 ∷ rest))) waiting
sweeping-Stops [] ys zs rest e1 e2 e3 now clock quiet report held over =
    let (q, stops) =
      holding-Stops e1.at_receive now (e1 ∷ ys) zs rest e2 e3 (reported e1.at_receive) refl refl
        refl clock held over in
    (q, reports e1 (ys ++ e2 ∷ (zs ++ e3 ∷ rest)) report ∙ stops)
sweeping-Stops (x ∷ xs) ys zs rest e1 e2 e3 now (le, o, clock) (nothing, quiet) report held over =
    on_sweep-Stops x (xs ++ e1 ∷ (ys ++ e2 ∷ (zs ++ e3 ∷ rest))) waiting waiting true
      (waits x nothing)
      (λ more. sweeping-Stops xs ys zs rest e1 e2 e3 x.at_tail clock quiet report held over)
