-- ===== src/Soak/Crew/Safe.antt =====
-- The workers of crates/hv-reclaim/src/soak.rs in any order of their turns.
use macos_vm_memory_ratchet.Prelude.{
  ℕ, ◌+◌, ◌*◌, ◌≤◌, ◌<◌, ◌≡◌, ◌-◌, length, refl, ap, sym, ◌∙◌, arith, inl, inr, true, false, List,
  [], ◌∷◌, ◌==◌, if◌then◌else◌, Bool-cases, ok, Option,
}
use mathlib.Core.Path.{subst}
use macos_vm_memory_ratchet.Guest.Programs.{page}
use macos_vm_memory_ratchet.Guest.Turns.{vm}
use macos_vm_memory_ratchet.Guest.Hypervisor.{Hypervisor, IsDocumented}
use macos_vm_memory_ratchet.Reclaim.{Kernel, ReclaimMode, Trace}
use macos_vm_memory_ratchet.Reclaim.Stage2.{view, IsSafe, IsLinear}
use macos_vm_memory_ratchet.Reclaim.Returns.{IsCompliant}
use macos_vm_memory_ratchet.Soak.{Worker}
use macos_vm_memory_ratchet.Soak.Rounds.{IsBench}
use macos_vm_memory_ratchet.Soak.Crew.{Act, Thread, Crew, enter, leave, turn, turns}
use macos_vm_memory_ratchet.Soak.Crew.Acts.{IsDue, IsOrdered, IsDone}
use macos_vm_memory_ratchet.Soak.Crew.Each.{act-IsDone}
use macos_vm_memory_ratchet.Soak.Crew.Frame.{in_slot-apart, IsDue-stable}

-- Every thread only has turns that are in order, and finds its halves as it expects them; what is
-- shared is as it should be.
pub record IsUnder (start : ℕ → Option ℕ) (ram size slot half total vcpus : ℕ) (c : Crew)
    : Type 0 where
  pub mismatches : c.stats.mismatches ≡ 0
  pub linear : IsLinear ram size (view start c.calls)
  pub safe : IsSafe start c.calls
  pub ordered : (k : ℕ) → k < vcpus → IsOrdered (c.threads k).todo
  pub due : (k : ℕ) → k < vcpus → IsDue slot half total k (c.threads k).todo (enter c (c.threads k))

-- Every turn is one of a vCPU that there is.
abbrev pub AllBelow : ℕ → List ℕ → Type 0
AllBelow vcpus [] = Unit {0}
AllBelow vcpus (k ∷ rest) = (k < vcpus) × AllBelow vcpus rest

-- How often a thread has its turn.
abbrev pub occurrences : ℕ → List ℕ → ℕ
occurrences j [] = 0
occurrences j (k ∷ rest) = (if j == k then 1 else 0) + occurrences j rest

module _ (code : ℕ → ℕ) (size limit patience fuel : ℕ) (hv : Hypervisor)
    (laws : IsDocumented (vm code size) limit hv) (kernel : Kernel) (good : IsCompliant kernel)
    (left : Trace → ℕ → ℕ) (start : ℕ → Option ℕ) (ram slot half : ℕ) (mode : ReclaimMode)
    (advice total vcpus : ℕ)
    (benches : (k : ℕ) → k < vcpus → IsBench size limit patience fuel slot half k laws.settles)
    (fits : 2 * half ≤ slot) (two : page < half) where
  abbrev Under : Crew → Type 0
  Under = IsUnder start ram size slot half total vcpus

  mine :
      (c : Crew) (k : ℕ) (u : Worker) (rest : List Act)
      → (leave c k u rest).threads k ≡ record { worker = u; todo = rest }
  mine c k u rest = rw (same, if◌then◌else◌)
    where
      same : (k == k) ≡ true
      same = ground arith

  other :
      (c : Crew) (j k : ℕ) (u : Worker) (rest : List Act)
      → (j == k) ≡ false
      → (leave c k u rest).threads j ≡ c.threads j
  other c j k u rest ne = rw (ne, if◌then◌else◌)

  -- A turn that is done leaves all threads as they should be.
  leave-IsUnder :
      (c : Crew) (k : ℕ) (lt : k < vcpus) (a : Act) (rest : List Act) (u : Worker)
      → IsOrdered rest
      → IsDone code size limit patience fuel hv laws kernel good left start ram slot half mode
          advice k
          (benches k lt)
          total
          a
          rest
          (enter c (c.threads k))
          u
      → Under c
      → Under (leave c k u rest)
  leave-IsUnder c k lt a rest u order d under = record {
    mismatches = d.calm.mismatches;
    linear = d.calm.linear;
    safe = d.calm.safe;
    ordered = λ j below. elim (Bool-cases (j == k)) [
      | inl is ↦
          subst (λ i. IsOrdered ((leave c k u rest).threads i).todo) (sym (eq j is))
            (subst (λ (t : Thread). IsOrdered t.todo) (sym (mine c k u rest)) order)
      | inr ne ↦
          subst (λ (t : Thread). IsOrdered t.todo) (sym (other c j k u rest ne))
            (under.ordered j below)
    ];
    due = λ j below. elim (Bool-cases (j == k)) [
      | inl is ↦
          subst (λ i. Fine i ((leave c k u rest).threads i)) (sym (eq j is))
            (subst (Fine k) (sym (mine c k u rest)) d.due)
      | inr ne ↦ subst (Fine j) (sym (other c j k u rest ne)) (
          IsDue-stable slot half total j (c.threads j) c (leave c k u rest)
            (λ q h. d.outside q (in_slot-apart slot half fits j k q (ground arith) h))
            (under.due j below))
    ];
  }
    where
      Fine : ℕ → Thread → Type 0
      Fine i t = IsDue slot half total i t.todo (enter (leave c k u rest) t)

      eq : (j : ℕ) → (j == k) ≡ true → j ≡ k
      eq j is = ground arith

  -- What a thread has yet to do gets shorter by its turns.
  abbrev Shorter : Crew → Crew → (ℕ → ℕ) → Type 0
  Shorter c d had = (j : ℕ) → length (d.threads j).todo ≡ length (c.threads j).todo - had j

  untouched :
      (c : Crew) (j k : ℕ)
      → (j == k) ≡ false
      → length (c.threads j).todo ≡ length (c.threads j).todo - (if j == k then 1 else 0)
  untouched c j k ne = ground arith

  leave-Shorter :
      (c : Crew) (k : ℕ) (u : Worker) (a : Act) (rest : List Act)
      → (c.threads k).todo ≡ a ∷ rest
      → Shorter c (leave c k u rest) (λ j. if j == k then 1 else 0)
  leave-Shorter c k u a rest e j = elim (Bool-cases (j == k)) [
    | inl is ↦
        let eq : j ≡ k = ground arith in
        ap (λ i. length ((leave c k u rest).threads i).todo) eq
        ∙ (ap (λ (t : Thread). length t.todo) (mine c k u rest)
            ∙ (omega arith
                ∙ sym (
                    ap (λ b. length (c.threads j).todo - (if b then 1 else 0)) is
                    ∙ ap (λ n. n - 1) (ap (λ i. length (c.threads i).todo) eq ∙ ap length e))))
    | inr ne ↦ ap (λ (t : Thread). length t.todo) (other c j k u rest ne) ∙ untouched c j k ne
  ]

  -- A thread that is done stays as it is.
  idle-Shorter :
      (c : Crew) (k : ℕ) → (c.threads k).todo ≡ [] → Shorter c c (λ j. if j == k then 1 else 0)
  idle-Shorter c k e j = elim (Bool-cases (j == k)) [
    | inl is ↦
        let eq : j ≡ k = ground arith in
        let none_left : length (c.threads j).todo ≡ 0 =
          ap (λ i. length (c.threads i).todo) eq ∙ ap length e in
        omega (arith, none_left)
    | inr ne ↦ untouched c j k ne
  ]

  turn_lem :
      (k : ℕ) (c : Crew)
      → k < vcpus
      → Under c
      → (d : Crew) × (turn hv kernel left fuel ram slot half mode advice k c ≡ ok d)
        × Under d
        × Shorter c d (λ j. if j == k then 1 else 0)
  unfolding turn
  turn_lem k c lt under = go (c.threads k).todo refl
    where
      go :
          (l : List Act)
          → (c.threads k).todo ≡ l
          → (d : Crew) × (turn hv kernel left fuel ram slot half mode advice k c ≡ ok d)
            × Under d
            × Shorter c d (λ j. if j == k then 1 else 0)
      go [] e = (c, rw (e, turn), under, idle-Shorter c k e)
      go (a ∷ rest) e =
          let (first, order) = subst IsOrdered e (under.ordered k lt) in
          let (u, d) =
            act-IsDone code size limit patience fuel hv laws kernel good left start ram slot half
              mode advice k (benches k lt) total two a rest (enter c (c.threads k)) first
              (subst (λ l. IsDue slot half total k l (enter c (c.threads k))) e (under.due k lt))
              (record {
                mismatches = under.mismatches;
                linear = under.linear;
                safe = under.safe;
              }) in
          (
            leave c k u rest,
            rw (e, turn, d.returns),
            leave-IsUnder c k lt a rest u order d under,
            leave-Shorter c k u a rest e,
          )

  pub turns_lem :
      (ks : List ℕ) (c : Crew)
      → AllBelow vcpus ks
      → Under c
      → (d : Crew) × (turns hv kernel left fuel ram slot half mode advice ks c ≡ ok d)
        × Under d
        × Shorter c d (λ j. occurrences j ks)
  unfolding turns
  turns_lem [] c below under = (c, refl, under, λ j. omega arith)
  turns_lem (k ∷ rest) c (lt, below) under =
      let (d, e, under', first) = turn_lem k c lt under in
      let (f, e', under'', then_rest) = turns_lem rest d below under' in
      (f, rw (e, turns) e', under'', λ j. omega (arith, first j, then_rest j))
