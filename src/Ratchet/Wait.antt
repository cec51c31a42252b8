-- ===== src/Ratchet/Wait.antt =====
-- `wait` of crates/vz-ratchet/src/harness.rs: which line it takes, and when.
use macos_vm_memory_ratchet.Prelude.{
  ℕ, ◌+◌, ◌≤◌, ◌≡◌, ◌↔◌, ap, sym, ◌∙◌, inl, inr, arith, List, [], ◌∷◌, ◌++◌, none, some,
  Option-cases, Bool-cases, ltb, Result-cases, ok,
}
use Prim.Native.String.{String}
use macos_vm_memory_ratchet.Wire.{strip_prefix, trim}
use macos_vm_memory_ratchet.Ratchet.{Arrival, Link, later, receive, wait}

-- Lines without the prefix, in time for the deadline.
abbrev pub IsNoise : String → ℕ → List Arrival → Type 0
IsNoise prefix deadline [] = Unit {0}
IsNoise prefix deadline (a ∷ rest) =
    (strip_prefix prefix a.line ≡ none) × (a.at ≤ deadline) × IsNoise prefix deadline rest

-- The clock after these lines have been received.
abbrev pub clock : ℕ → List Arrival → ℕ
clock now [] = now
clock now (a ∷ rest) = clock (later now a.at) rest

-- `text` is the rest of the first line of the inbox that has the prefix, which is in time as are all
-- before it; `rest` are those behind it.
pub record IsTaken (prefix : String) (deadline : ℕ) (inbox : List Arrival) (text : String)
    (rest : List Arrival) : Type 0 where
  pub before : List Arrival
  pub taken : Arrival
  pub found : String
  pub whole : inbox ≡ before ++ taken ∷ rest
  pub noise : IsNoise prefix deadline before
  pub in_time : taken.at ≤ deadline
  pub hit : strip_prefix prefix taken.line ≡ some found
  pub same : text ≡ trim found

clock_mono : (now : ℕ) (before : List Arrival) → now ≤ clock now before
clock_mono now [] = omega arith
clock_mono now (a ∷ rest) = ground (arith, clock_mono (later now a.at) rest)

clock-le :
    (prefix : String) (deadline now : ℕ) (before : List Arrival)
    → now ≤ deadline
    → IsNoise prefix deadline before
    → clock now before ≤ deadline
clock-le prefix deadline now [] le noise = le
clock-le prefix deadline now (a ∷ rest) le (miss, intime, noise) =
    clock-le prefix deadline (later now a.at) rest (ground arith) noise

pub receive-first :
    (prefix : String) (deadline now : ℕ) (before : List Arrival) (a : Arrival) (rest : List Arrival)
    (found : String)
    → now ≤ deadline
    → IsNoise prefix deadline before
    → a.at ≤ deadline
    → strip_prefix prefix a.line ≡ some found
    → receive prefix deadline now (before ++ a ∷ rest)
      ≡ ok (trim found, (later (clock now before) a.at, rest))
unfolding receive
receive-first prefix deadline now [] a rest found le noise intime hit = ground (arith, hit)
receive-first prefix deadline now (b ∷ before) a rest found le (miss, btime, noise) intime hit =
    ground (
      arith,
      miss,
      receive-first prefix deadline (later now b.at) before a rest found (ground arith) noise intime
          hit,
    )

receive-IsTaken :
    (prefix : String) (deadline now : ℕ) (inbox : List Arrival) (text : String) (t : ℕ)
    (rest : List Arrival)
    → receive prefix deadline now inbox ≡ ok (text, (t, rest))
    → IsTaken prefix deadline inbox text rest
unfolding receive
receive-IsTaken prefix deadline now [] text t rest h = absurd (cc)
receive-IsTaken prefix deadline now (b ∷ inbox) text t rest h =
    elim (Bool-cases (ltb deadline now)) [
      | inl over ↦ absurd (ground arith)
      | inr open_still ↦ elim (Bool-cases (ltb deadline b.at)) [
        | inl over ↦ absurd (ground arith)
        | inr in_time ↦ elim (Option-cases (strip_prefix prefix b.line)) [
          | inl miss ↦
              let t =
                receive-IsTaken prefix deadline (later now b.at) inbox text t rest (ground arith) in
              record {
                before = b ∷ t.before;
                taken = t.taken;
                found = t.found;
                whole = ap (◌∷◌ b) t.whole;
                noise = (miss, ground arith, t.noise);
                in_time = t.in_time;
                hit = t.hit;
                same = t.same;
              }
          | inr (found, hit) ↦ record {
            before = [];
            taken = b;
            found = found;
            whole = ground arith;
            noise = tt;
            in_time = ground arith;
            hit = hit;
            same = ground arith;
          }
        ]
      ]
    ]

receive-of_IsTaken :
    (prefix : String) (deadline now : ℕ) (inbox : List Arrival) (text : String)
    (rest : List Arrival)
    → now ≤ deadline
    → IsTaken prefix deadline inbox text rest
    → (t : ℕ) × (receive prefix deadline now inbox ≡ ok (text, (t, rest)))
      × (now ≤ t)
      × (t ≤ deadline)
receive-of_IsTaken prefix deadline now inbox text rest le k = (
  later (clock now k.before) (k.taken).at,
  ap (receive prefix deadline now) k.whole
      ∙ (receive-first prefix deadline now k.before k.taken rest k.found le k.noise k.in_time k.hit
          ∙ ap (λ s. ok (s, (later (clock now k.before) (k.taken).at, rest))) (sym k.same)),
  ground (arith, clock_mono now k.before),
  ground (arith, clock-le prefix deadline now k.before le k.noise, k.in_time),
)

-- `wait` returns a text exactly if the lines that come in before the timeout have one with the
-- prefix: the text is then what the first of them has behind the prefix, trimmed, the lines behind
-- it are left for later, and the clock has not passed the deadline.
pub wait_lem :
    (prefix : String) (timeout : ℕ) (l : Link) (text : String) (rest : List Arrival)
    → ((t : ℕ) × (wait prefix timeout l ≡ ok (text, record l { now = t; inbox = rest }))
        × (l.now ≤ t)
        × (t ≤ l.now + timeout))
      ↔ IsTaken prefix (l.now + timeout) l.inbox text rest
unfolding wait
wait_lem prefix timeout l text rest = (
  λ w. receive-IsTaken prefix (l.now + timeout) l.now l.inbox text (w.0) rest (received w.0 w.1),
  λ k.
      let (t, returns, lo, hi) =
        receive-of_IsTaken prefix (l.now + timeout) l.now l.inbox text rest (omega arith) k in
      (t, rw (returns, wait), lo, hi),
)
  where
    received :
        (t : ℕ)
        → wait prefix timeout l ≡ ok (text, record l { now = t; inbox = rest })
        → receive prefix (l.now + timeout) l.now l.inbox ≡ ok (text, (t, rest))
    received t h = elim (Result-cases (receive prefix (l.now + timeout) l.now l.inbox)) [
      | inl ((found, (now, left)), e) ↦ ground arith
      | inr (inl (what, e)) ↦ absurd (ground arith)
      | inr (inr e) ↦ absurd (ground arith)
    ]
