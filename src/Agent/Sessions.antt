-- ===== src/Agent/Sessions.antt =====
-- The sessions that the host has with the agent of guest-init/src/main.rs.
use macos_vm_memory_ratchet.Prelude.{
  ℕ, zero, suc, ◌*◌, ◌%◌, ◌^◌, ◌≡◌, ◌↔◌, refl, ap, sym, ◌∙◌, arith, none, some, List, [], ◌∷◌, ◌++◌,
  inl, inr, Option-cases, List-cases, Result-cases, length, ok, panicked, out_of_fuel, Result,
}
use macos_vm_memory_ratchet.Agent.{
  Agent, Os, Command, Reply, boot, touch, free, mem, fleet_start, fleet_stop_one, fleet_stop,
  unknown, fleet_stopped, replying, start_services, stop_services, handle, serve,
}
use Prim.Native.String.{String}
use mathlib.Core.Path.{subst}
use mathlib.Core.List.{append_assoc}

-- The processes of the first `n` forks.
unfoldable pub forked : Os → ℕ → List ℕ
forked os zero = []
forked os (suc n) = elim (os.fork n) [ none ↦ forked os n | some pid ↦ forked os n ++ pid ∷ [] ]

-- The agent's account: every process that was forked has been killed or is in the fleet, in the order
-- of the forks.
abbrev pub IsAccounted : Os → Agent → Type 0
IsAccounted os a = a.killed ++ a.fleet ≡ forked os a.forks

forked-suc :
    (os : Os) (n pid : ℕ) → os.fork n ≡ some pid → forked os (suc n) ≡ forked os n ++ pid ∷ []
unfolding forked
forked-suc os n pid e = rw (forked, e)

start_services-IsAccounted :
    (os : Os) (k : ℕ) (a b : Agent)
    → IsAccounted os a
    → start_services os k a ≡ ok b
    → IsAccounted os b
unfolding start_services
start_services-IsAccounted os zero a b i h = let same : a ≡ b = cc in subst (IsAccounted os) same i
start_services-IsAccounted os (suc k) a b i h = elim (Option-cases (os.fork a.forks)) [
  | inl bad ↦ absurd (ground arith)
  | inr (pid, e) ↦
      start_services-IsAccounted os k
        (record a { fleet = a.fleet ++ pid ∷ []; forks = suc (a.forks) }) b
        (sym (append_assoc a.killed a.fleet (pid ∷ []))
          ∙ (ap (λ (l : List ℕ). l ++ pid ∷ []) i ∙ sym (forked-suc os a.forks pid e)))
        (ground arith)
]

stop_services-IsAccounted :
    (os : Os) (n : ℕ) (a b : Agent)
    → IsAccounted os a
    → stop_services os n a ≡ ok b
    → IsAccounted os b
unfolding stop_services
stop_services-IsAccounted os zero a b i h = let same : a ≡ b = cc in subst (IsAccounted os) same i
stop_services-IsAccounted os (suc n) a b i h = elim (List-cases a.fleet) [
  | inl e ↦ absurd (ground arith)
  | inr (pid, (rest, e)) ↦
      stop_services-IsAccounted os n (record a { fleet = rest; killed = a.killed ++ pid ∷ [] }) b
        (append_assoc a.killed (pid ∷ []) rest ∙ (ap (λ (l : List ℕ). a.killed ++ l) (sym e) ∙ i))
        (ground arith)
]

replying-ok :
    (os : Os) (reply : Agent → Reply) (r : Result Agent) (x : Reply) (b : Agent)
    → replying os reply r ≡ ok (x, b)
    → r ≡ ok b
replying-ok os reply (ok a) x b h = ground arith
replying-ok os reply (panicked what) x b h = absurd (ground arith)
replying-ok os reply out_of_fuel x b h = absurd (ground arith)

handle-IsAccounted :
    (os : Os) (c : Command) (a b : Agent) (x : Reply)
    → IsAccounted os a
    → handle os c a ≡ ok (x, b)
    → IsAccounted os b
unfolding handle
handle-IsAccounted os (touch gib) a b x i h =
    elim (Option-cases (os.mmap a (gib * 2 ^ 30 % 2 ^ 64))) [
      | inl bad ↦ absurd (ground arith)
      | inr (p, e) ↦
          let same : record a { held = a.held ++ (p, gib * 2 ^ 30 % 2 ^ 64) ∷ [] } ≡ b =
            ground arith in
          subst (IsAccounted os) same i
    ]
handle-IsAccounted os free a b x i h =
    let same : record a { held = []; unmapped = a.unmapped ++ a.held } ≡ b = ground arith in
    subst (IsAccounted os) same i
handle-IsAccounted os mem a b x i h =
    let same : a ≡ b = ground arith in subst (IsAccounted os) same i
handle-IsAccounted os (fleet_start k mib) a b x i h =
    start_services-IsAccounted os k a b i (replying-ok os _ _ x b h)
handle-IsAccounted os fleet_stop_one a b x i h =
    stop_services-IsAccounted os 1 a b i (replying-ok os _ _ x b h)
handle-IsAccounted os fleet_stop a b x i h =
    stop_services-IsAccounted os (length a.fleet) a b i (replying-ok os _ _ x b h)
handle-IsAccounted os (unknown line) a b x i h =
    let same : a ≡ b = ground arith in subst (IsAccounted os) same i

serve_from :
    (os : Os) (cs : List Command) (a b : Agent) (replies : List Reply)
    → IsAccounted os a
    → serve os cs a ≡ ok (replies, b)
    → IsAccounted os b
unfolding serve
serve_from os [] a b replies i h = let same : a ≡ b = ground arith in subst (IsAccounted os) same i
serve_from os (c ∷ rest) a b replies i h = elim (Result-cases (handle os c a)) [
  | inl ((x, d), e) ↦ elim (Result-cases (serve os rest d)) [
    | inl ((xs, d'), e') ↦
        let same : d' ≡ b = ground arith in
        subst (IsAccounted os) same
          (serve_from os rest d d' xs (handle-IsAccounted os c a d x i e) e')
    | inr (inl (what, e')) ↦ absurd (ground arith)
    | inr (inr e') ↦ absurd (ground arith)
  ]
  | inr (inl (what, e)) ↦ absurd (ground arith)
  | inr (inr e) ↦ absurd (ground arith)
]

-- Whatever commands the agent has served since it booted, the processes that it killed, followed by
-- those of its fleet, are exactly the processes that it forked, in the order of the forks: none is
-- lost, killed twice or killed out of order.
pub serve-IsAccounted :
    (os : Os) (cs : List Command) (a : Agent) (replies : List Reply)
    → serve os cs boot ≡ ok (replies, a)
    → IsAccounted os a
unfolding forked
serve-IsAccounted os cs a replies h = serve_from os cs boot a replies refl h

stop_all :
    (os : Os) (fleet : List ℕ) (a : Agent)
    → a.fleet ≡ fleet
    → (b : Agent) × (stop_services os (length fleet) a ≡ ok b) × (b.fleet ≡ [])
unfolding stop_services
stop_all os [] a e = (a, refl, e)
stop_all os (pid ∷ rest) a e =
    let (b, returns, none_left) =
      stop_all os rest (record a { fleet = rest; killed = a.killed ++ pid ∷ [] }) refl in
    (b, ground (arith, e, returns), none_left)

-- `fleet stop` never panics and leaves no fleet, and `fleet stop-one` panics exactly if there is none
-- to stop.
pub handle-fleet_stop_lem :
    (os : Os) (a : Agent)
    → ((b : Agent) × (handle os fleet_stop a ≡ ok (fleet_stopped 0, b)) × (b.fleet ≡ []))
      × (((what : String) × (handle os fleet_stop_one a ≡ panicked what)) ↔ (a.fleet ≡ []))
unfolding handle stop_services
handle-fleet_stop_lem os a = (
  (let (b, returns, none_left) = stop_all os a.fleet a refl in
      (b, ground (arith, returns, none_left), none_left)),
  (
    λ p. elim (List-cases a.fleet) [
      | inl e ↦ e
      | inr (pid, (rest, e)) ↦ absurd (ground (arith, p.1, e))
    ],
    λ e. ("range end index out of range", ground (arith, e)),
  ),
)
