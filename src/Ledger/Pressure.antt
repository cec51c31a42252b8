-- ===== src/Ledger/Pressure.antt =====
-- crates/ledger/src/pressure.rs: the generator, the child process that it runs in and the guard.
-- `mmap` of the generator's `i`-th chunk, and what becomes of the child, are parameters.
use macos_vm_memory_ratchet.Prelude.{
  ℕ, zero, suc, ◌+◌, ◌^◌, ◌≤◌, ◌<◌, ◌≡◌, ◌⊎◌, refl, ap, ◌∙◌, inl, inr, arith, Bool, true, false,
  List, [], ◌∷◌, ◌++◌, Option, none, some, Option-cases, length, length-append, get_elem?, ltb,
  Bool-cases, ◌↔◌, if◌then◌else◌, Result, ok, panicked, out_of_fuel,
}
use Prim.Native.String.{String}
use mathlib.Core.Path.{subst}
use macos_vm_memory_ratchet.Options.Numbers.{parse_usize, print_usize, parse_usize-print_usize}
use macos_vm_memory_ratchet.Wire.{equals}
use macos_vm_memory_ratchet.Ledger.Pages.{page, step_by, write_each}

abbrev pub chunk : ℕ
chunk = 2 ^ 30

-- A chunk at its address, with the word at each offset.
pub record Chunk : Type 0 where
  pub at : ℕ
  pub words : ℕ → ℕ

-- A chunk of zeros, dirtied.
unfoldable pub dirty : ℕ → Chunk
dirty ptr = record {
  at = ptr;
  words = write_each (λ off. 0xDEAD_0000 + off) (step_by 0 chunk page) (λ _. 0);
}

-- What a process does that calls `maybe_run_generator`: it goes on to its own work, or it holds the
-- chunks for good and has printed `HOLDING`.
pub data Outcome : Type 0 where
  own_work : Outcome
  holding : List Chunk → Outcome

-- How a call of `apply` has treated its child.
pub data Step : Type 0 where
  spawned killed reaped : Step

pub data Applied : Type 0 where
  guard failed : Applied

-- The child that is there after these steps, oldest first.
abbrev pub child_after : Bool → List Step → Bool
child_after there [] = there
child_after there (spawned ∷ steps) = child_after true steps
child_after there (killed ∷ steps) = child_after there steps
child_after there (reaped ∷ steps) = child_after false steps

-- The `match` on the first line of a child that has been started, and the failure to start one.
abbrev pub judge : Option (Option String) → Applied × List Step
judge none = (failed, [])
judge (some none) = (failed, spawned ∷ killed ∷ reaped ∷ [])
judge (some (some line)) =
    if equals line "HOLDING"
    then (guard, spawned ∷ [])
    else (failed, spawned ∷ killed ∷ reaped ∷ [])

-- `exe` is whether `current_exe` is found. `spawn` takes the variable's value and gives the first
-- line of the child's output, if the child starts and if it has one.
unfoldable pub apply : Bool → (String → Option (Option String)) → ℕ → Applied × List Step
apply exe spawn gb = if exe then judge (spawn (print_usize gb)) else (failed, [])

-- `drop` of the guard.
unfoldable pub drop : List Step → List Step
drop steps = steps ++ killed ∷ reaped ∷ []

get_elem?-front {ℓ} :
    {A : Type ℓ} (xs ys : List A) (i : ℕ) → i < length xs → get_elem? (xs ++ ys) i ≡ get_elem? xs i
get_elem?-front [] ys i lt = absurd (omega arith)
get_elem?-front (x ∷ xs) ys zero lt = refl
get_elem?-front (x ∷ xs) ys (suc i) lt = get_elem?-front xs ys i (omega arith)

get_elem?-last {ℓ} :
    {A : Type ℓ} (xs : List A) (y : A) → get_elem? (xs ++ y ∷ []) (length xs) ≡ some y
get_elem?-last [] y = refl
get_elem?-last (x ∷ xs) y = get_elem?-last xs y

module _ (mmap : ℕ → Option ℕ) where
  -- `for i in 0..gb`, from `i` on with `left` to go; a failure ends it with what it has.
  unfoldable pub dirty_chunks : ℕ → ℕ → List Chunk → List Chunk
  dirty_chunks i zero held = held
  dirty_chunks i (suc left) held = elim (mmap i) [
    | none ↦ held
    | some ptr ↦ dirty_chunks (i + 1) left (held ++ dirty ptr ∷ [])
  ]

  -- The argument is the value of RATCHET_PRESSURE_GEN_GB.
  unfoldable pub maybe_run_generator : Option String → Result Outcome
  unfolding dirty_chunks
  maybe_run_generator none = ok own_work
  maybe_run_generator (some gb) = elim (parse_usize gb) [
    | none ↦ panicked "pressure GiB"
    | some n ↦ ok (holding (dirty_chunks 0 n []))
  ]

  -- The child that `apply` starts: this program with the variable set.
  unfoldable pub child : String → Option (Option String)
  unfolding maybe_run_generator
  child value = elim (maybe_run_generator (some value)) [
    | ok (holding chunks) ↦ some (some "HOLDING")
    | ok own_work ↦ some none
    | panicked what ↦ some none
    | out_of_fuel ↦ some none
  ]

  -- The chunks are those of the first calls of `mmap` in order, each dirtied, up to the number that
  -- was asked for or the first call that failed.
  pub record IsHolding (gb : ℕ) (chunks : List Chunk) : Type 0 where
    pub few : length chunks ≤ gb
    pub each :
        (i : ℕ)
        → i < length chunks
        → (ptr : ℕ) × (mmap i ≡ some ptr) × (get_elem? chunks i ≡ some (dirty ptr))
    pub stop : (length chunks ≡ gb) ⊎ (mmap (length chunks) ≡ none)

  abbrev Given : List Chunk → Type 0
  Given chunks =
      (i : ℕ)
      → i < length chunks
      → (ptr : ℕ) × (mmap i ≡ some ptr) × (get_elem? chunks i ≡ some (dirty ptr))

  dirty_chunks-IsHolding :
      (i left : ℕ) (held : List Chunk)
      → length held ≡ i
      → Given held
      → IsHolding (i + left) (dirty_chunks i left held)
  unfolding dirty_chunks
  dirty_chunks-IsHolding i zero held size given = record {
    few = omega (arith, size);
    each = given;
    stop = inl (omega (arith, size));
  }
  dirty_chunks-IsHolding i (suc left) held size given = elim (Option-cases (mmap i)) [
    | inl e ↦
        rw (e, dirty_chunks)
          (record { few = omega (arith, size); each = given; stop = inr (ap mmap size ∙ e) })
    | inr (ptr, e) ↦
        rw (e, dirty_chunks)
          (subst (λ n. IsHolding n (dirty_chunks (i + 1) left (held ++ dirty ptr ∷ [])))
            (omega arith)
            (dirty_chunks-IsHolding (i + 1) left (held ++ dirty ptr ∷ [])
              (omega (arith, length-append held (dirty ptr ∷ []), size)) (given_more ptr e)))
  ]
    where
      given_more : (ptr : ℕ) → mmap i ≡ some ptr → Given (held ++ dirty ptr ∷ [])
      given_more ptr e j lt = elim (Bool-cases (ltb j i)) [
        | inl before ↦
            let (p, found, at) = given j (ground (arith, size)) in
            (p, found, get_elem?-front held (dirty ptr ∷ []) j (ground (arith, size)) ∙ at)
        | inr last ↦
            let same : j ≡ length held =
              ground (arith, size, length-append held (dirty ptr ∷ [])) in
            (
              ptr,
              ap mmap (same ∙ size) ∙ e,
              ap (get_elem? (held ++ dirty ptr ∷ [])) same ∙ get_elem?-last held (dirty ptr),
            )
      ]

  -- `apply` of a number of GiB that a `usize` holds, where the program can be found and started
  -- again, returns its guard with the child alive; the child holds, each page of them dirtied, as
  -- many chunks as were asked for or as `mmap` gave before it failed; and when the guard is dropped
  -- no child is left.
  pub apply_lem :
      (gb : ℕ)
      → gb < 2 ^ 64
      → (apply true child gb ≡ (guard, spawned ∷ []))
        × (child_after false (drop (spawned ∷ [])) ≡ false)
        × ((chunks : List Chunk) × (maybe_run_generator (some (print_usize gb))
              ≡ ok (holding chunks))
            × IsHolding gb chunks)
  unfolding apply drop child maybe_run_generator
  apply_lem gb lt = (
    ground (arith, parse_usize-print_usize gb lt),
    refl,
    (
      dirty_chunks 0 gb [],
      ground (arith, parse_usize-print_usize gb lt),
      subst (λ n. IsHolding n (dirty_chunks 0 gb [])) (omega arith)
          (dirty_chunks-IsHolding 0 gb [] refl (λ i lt. absurd (omega arith))),
    ),
  )

judge_lem :
    (r : Option (Option String))
    → (((judge r).0 ≡ guard)
        ↔ ((line : String) × (r ≡ some (some line)) × (equals line "HOLDING" ≡ true)))
      × ((judge r).0 ≡ failed → child_after false (judge r).1 ≡ false)
judge_lem none = ((λ h. cc, λ h. cc (h.1)), λ h. refl)
judge_lem (some none) = ((λ h. cc, λ h. cc (h.1)), λ h. refl)
judge_lem (some (some line)) = elim (Bool-cases (equals line "HOLDING")) [
  | inl e ↦ ((λ h. (line, refl, e), λ h. rw (e, if◌then◌else◌) refl), λ h. absurd (ground arith))
  | inr e ↦ (
    (
      λ h. absurd (ground arith),
      λ h. absurd (cc (h.2, e, ap (λ x. equals x "HOLDING") (line-eq h.0 h.1))),
    ),
    λ h. rw (e, if◌then◌else◌) refl,
  )
]
  where
    line-eq :
        (l : String)
        → ◌≡◌ {A = Option (Option String)} (some (some line)) (some (some l))
        → line ≡ l
    line-eq l h = cc

-- Whatever the child does, `apply` returns its guard exactly if the program is found, starts, and has
-- `HOLDING` as the first line of its output; if it fails, no child is left behind.
pub apply-failed :
    (exe : Bool) (spawn : String → Option (Option String)) (gb : ℕ)
    → (((apply exe spawn gb).0 ≡ guard) ↔ (
        (exe ≡ true)
        × ((line : String) × (spawn (print_usize gb) ≡ some (some line))
            × (equals line "HOLDING" ≡ true))))
      × ((apply exe spawn gb).0 ≡ failed → child_after false (apply exe spawn gb).1 ≡ false)
unfolding apply
apply-failed true spawn gb =
    let (guarded, clean) = judge_lem (spawn (print_usize gb)) in
    ((λ h. (refl, guarded.0 h), λ h. guarded.1 h.1), clean)
apply-failed false spawn gb = ((λ h. cc, λ h. cc (h.0)), λ h. refl)
