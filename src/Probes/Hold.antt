-- ===== src/Probes/Hold.antt =====
-- The callback of `hammer_check` in crates/hv-reclaim/src/main.rs: it waits for the pressure
-- generator, holds the pressure, releases it, and lets the hammer go on for a tail.
use macos_vm_memory_ratchet.Prelude.{
  ℕ, ◌+◌, ◌-◌, ◌*◌, ◌≤◌, ◌≡◌, refl, ◌⊎◌, inl, inr, Bool-cases, arith, Bool, true, false, not, ◌&&◌,
  List, [], ◌∷◌, Option, none, some, ltb, leb, if◌then◌else◌, Result, ok, panicked, out_of_fuel,
}
use mathlib.Core.Path.{subst}

-- Instants are nanoseconds.
abbrev pub hold : ℕ
hold = 8 * 1_000_000_000

abbrev pub tail : ℕ
tail = 2 * 1_000_000_000

-- What `rx.try_recv()` gives.
pub data Received : Type 0 where
  ready failed empty disconnected : Received

-- The three captured variables; of the guard only whether there is one matters.
pub record Phase : Type 0 where
  pub guard : Bool
  pub hold_since : Option ℕ
  pub released_at : Option ℕ

-- What one call of the callback meets: the channel, and the clock at each place that reads it.
pub record Seen : Type 0 where
  pub received : Received
  pub at_receive : ℕ
  pub at_hold : ℕ
  pub at_release : ℕ
  pub at_tail : ℕ

abbrev is_none : Option ℕ → Bool
is_none none = true
is_none (some t) = false

-- `o.is_some_and(|t| t.elapsed() >= d)` and `o.is_none_or(|t| t.elapsed() < d)`.
abbrev elapsed_some : ℕ → ℕ → Option ℕ → Bool
elapsed_some now d none = false
elapsed_some now d (some t) = leb d (now - t)

abbrev not_elapsed : ℕ → ℕ → Option ℕ → Bool
not_elapsed now d none = true
not_elapsed now d (some t) = ltb (now - t) d

unfoldable pub receive : Seen → Phase → Received → Result Phase
receive e p ready = ok (record p { guard = true; hold_since = some e.at_receive })
receive e p failed = panicked "pressure generator"
receive e p empty = ok p
receive e p disconnected = panicked "pressure thread died"

unfoldable pub poll : Seen → Phase → Result Phase
poll e p = if not p.guard && is_none p.released_at then receive e p e.received else ok p

unfoldable pub release : Seen → Phase → Phase
release e p =
    if is_none p.released_at && elapsed_some e.at_hold hold p.hold_since
    then record p { guard = false; released_at = some e.at_release }
    else p

-- One call: whether to go on, and the variables after it.
unfoldable pub on_sweep : Seen → Phase → Result (Bool × Phase)
on_sweep e p = elim (poll e p) [
  | ok q ↦ ok (not_elapsed e.at_tail tail (release e q).released_at, release e q)
  | panicked what ↦ panicked what
  | out_of_fuel ↦ out_of_fuel
]

abbrev pub waiting : Phase
waiting = record { guard = false; hold_since = none; released_at = none }

-- The calls of a hammer run in order, up to the one that says stop.
unfoldable pub sweeping : List Seen → Phase → Result (Bool × Phase)
sweeping [] p = ok (true, p)
sweeping (e ∷ rest) p = elim (on_sweep e p) [
  | ok (true, q) ↦ sweeping rest q
  | ok (false, q) ↦ ok (false, q)
  | panicked what ↦ panicked what
  | out_of_fuel ↦ out_of_fuel
]

-- Within a call the clock does not go back.
abbrev pub IsOrdered : Seen → Type 0
IsOrdered e = (e.at_receive ≤ e.at_hold) × (e.at_hold ≤ e.at_release) × (e.at_release ≤ e.at_tail)

abbrev pub AllOrdered : List Seen → Type 0
AllOrdered [] = Unit {0}
AllOrdered (e ∷ rest) = IsOrdered e × AllOrdered rest

-- The guard is held from the generator's report to the release, and that is at least `hold` later.
pub data IsPhase (p : Phase) : Type 0 where
  is_waiting : p.guard ≡ false → p.hold_since ≡ none → p.released_at ≡ none → IsPhase p
  is_holding : (t : ℕ) → p.guard ≡ true → p.hold_since ≡ some t → p.released_at ≡ none → IsPhase p
  is_released :
      (t r : ℕ)
      → p.guard ≡ false
      → p.hold_since ≡ some t
      → p.released_at ≡ some r
      → t + hold ≤ r
      → IsPhase p

-- At the call `e` the pressure had been held for `hold` at least, it is released, and the tail is
-- over.
pub record IsOver (e : Seen) (p : Phase) : Type 0 where
  pub since : ℕ
  pub released : ℕ
  pub guard_lem : p.guard ≡ false
  pub since_lem : p.hold_since ≡ some since
  pub released_lem : p.released_at ≡ some released
  pub held : since + hold ≤ released
  pub tail_over : released + tail ≤ e.at_tail

release-IsPhase : (e : Seen) (p : Phase) → IsOrdered e → IsPhase p → IsPhase (release e p)
unfolding release
release-IsPhase e p o (is_waiting g h r) = is_waiting (ground arith) (ground arith) (ground arith)
release-IsPhase e p o (is_holding t g h r) = elim (Bool-cases (leb hold (e.at_hold - t))) [
  | inl long ↦
      is_released t e.at_release (ground arith) (ground arith) (ground arith) (ground arith)
  | inr short ↦ is_holding t (ground arith) (ground arith) (ground arith)
]
release-IsPhase e p o (is_released t u g h r le) =
    is_released t u (ground arith) (ground arith) (ground arith) le

poll-IsPhase : (e : Seen) (p q : Phase) → IsPhase p → poll e p ≡ ok q → IsPhase q
unfolding poll receive
poll-IsPhase e p q (is_waiting g h r) eq = go e.received refl
  where
    go : (k : Received) → e.received ≡ k → IsPhase q
    go ready k = is_holding e.at_receive (ground arith) (ground arith) (ground arith)
    go failed k = absurd (ground arith)
    go empty k = is_waiting (ground arith) (ground arith) (ground arith)
    go disconnected k = absurd (ground arith)
poll-IsPhase e p q (is_holding t g h r) eq =
    is_holding t (ground arith) (ground arith) (ground arith)
poll-IsPhase e p q (is_released t u g h r le) eq =
    is_released t u (ground arith) (ground arith) (ground arith) le

-- A stop comes only after the release and the tail.
stop-IsOver :
    (e : Seen) (p : Phase)
    → IsPhase p
    → not_elapsed e.at_tail tail p.released_at ≡ false
    → IsOver e p
stop-IsOver e p (is_waiting g h r) stop = absurd (ground arith)
stop-IsOver e p (is_holding t g h r) stop = absurd (ground arith)
stop-IsOver e p (is_released t u g h r le) stop = record {
  since = t;
  released = u;
  guard_lem = g;
  since_lem = h;
  released_lem = r;
  held = le;
  tail_over = ground arith;
}

on_sweep_lem :
    (e : Seen) (p q : Phase) (more : Bool)
    → IsOrdered e
    → IsPhase p
    → on_sweep e p ≡ ok (more, q)
    → IsPhase q × (more ≡ false → IsOver e q)
unfolding on_sweep
on_sweep_lem e p q more o i eq = go (poll e p) refl eq
  where
    go :
        (r : Result Phase)
        → poll e p ≡ r
        → (elim r as (λ _. Result (Bool × Phase)) [
          | ok q' ↦ ok (not_elapsed e.at_tail tail (release e q').released_at, release e q')
          | panicked what ↦ panicked what
          | out_of_fuel ↦ out_of_fuel
        ])
          ≡ ok (more, q)
        → IsPhase q × (more ≡ false → IsOver e q)
    go (ok q') polled eq' =
        let same : release e q' ≡ q = cc in
        let i' : IsPhase q =
          subst IsPhase same (release-IsPhase e q' o (poll-IsPhase e p q' i polled)) in
        (i', λ stop. stop-IsOver e q i' (cc))
    go (panicked what) polled eq' = absurd (cc)
    go out_of_fuel polled eq' = absurd (cc)

abbrev pub Among : Seen → List Seen → Type 0
Among e [] = ⊥
Among e (d ∷ rest) = (e ≡ d) ⊎ Among e rest

sweeping_from :
    (es : List Seen) (p q : Phase)
    → AllOrdered es
    → IsPhase p
    → sweeping es p ≡ ok (false, q)
    → (e : Seen) × Among e es × IsOver e q
unfolding sweeping
sweeping_from [] p q o i eq = absurd (cc)
sweeping_from (e ∷ rest) p q (o, os) i eq =
    go (on_sweep e p) refl eq λ p' i'. sweeping_from rest p' q os i'
  where
    go :
        (r : Result (Bool × Phase))
        → on_sweep e p ≡ r
        → (elim r as (λ _. Result (Bool × Phase)) [
          | ok (true, p') ↦ sweeping rest p'
          | ok (false, p') ↦ ok (false, p')
          | panicked what ↦ panicked what
          | out_of_fuel ↦ out_of_fuel
        ])
          ≡ ok (false, q)
        → ((p' : Phase)
            → IsPhase p'
            → sweeping rest p' ≡ ok (false, q)
            → (d : Seen) × Among d rest × IsOver d q)
        → (d : Seen) × Among d (e ∷ rest) × IsOver d q
    go (ok (true, p')) polled eq' ih =
        let (d, a, over) = ih p' (on_sweep_lem e p p' true o i polled).0 eq' in (d, inr a, over)
    go (ok (false, p')) polled eq' ih =
        let same : p' ≡ q = cc in
        (e, inl refl, subst (IsOver e) same ((on_sweep_lem e p p' false o i polled).1 refl))
    go (panicked what) polled eq' ih = absurd (cc)
    go out_of_fuel polled eq' ih = absurd (cc)

-- With a clock that does not go back within a call, the hammer stops only at a call where the
-- generator's pressure has been held for eight seconds at least, has been released, and the release
-- is two seconds back or more; the guard is dropped then.
pub sweeping-IsOver :
    (es : List Seen) (q : Phase)
    → AllOrdered es
    → sweeping es waiting ≡ ok (false, q)
    → (e : Seen) × Among e es × IsOver e q
sweeping-IsOver es q o eq = sweeping_from es waiting q o (is_waiting refl refl refl) eq
