-- ===== src/AllocShape/Matrix.antt =====
-- The table of crates/hv-reclaim/src/alloc_shape.rs and what `run` concludes from it. The ledger's
-- numbers are floats that a child prints; of a row only counts whether it is credited with a release,
-- the closure `released` of the source, so that is the outcome of a cell here.
use macos_vm_memory_ratchet.Prelude.{
  ◌≡◌, ◌↔◌, ◌⊎◌, inl, inr, Bool-cases, refl, arith, Bool, true, false, not, ◌&&◌, ◌||◌, List, [],
  ◌∷◌, ◌++◌, if◌then◌else◌, Result, ok, panicked, out_of_fuel,
}
use macos_vm_memory_ratchet.AllocShape.{
  Shape, mmap_private, mmap_shared, hv_allocate, Toucher, host, guest, Sequence, in_place,
  unmap_first, unmap_only,
}

pub record Row : Type 0 where
  pub shape : Shape
  pub toucher : Toucher
  pub sequence : Sequence
  pub released : Bool

abbrev pub Outcome : Type 0
Outcome = Shape → Toucher → Sequence → Bool

abbrev pub shapes : List Shape
shapes = mmap_private ∷ mmap_shared ∷ hv_allocate ∷ []

abbrev pub touchers : List Toucher
touchers = host ∷ guest ∷ []

abbrev pub sequences : List Sequence
sequences = in_place ∷ unmap_first ∷ unmap_only ∷ []

-- A `for` loop that collects rows.
abbrev for_each {ℓ} : {A : Type ℓ} → List A → (A → List Row) → List Row
for_each [] body = []
for_each (a ∷ rest) body = body a ++ for_each rest body

-- The rows of the whole matrix, one child process each.
unfoldable pub run_cells : Outcome → List Row
run_cells outcome = for_each shapes λ s. for_each touchers λ t.
    for_each sequences
      λ q. record { shape = s; toucher = t; sequence = q; released = outcome s t q } ∷ []

abbrev same_shape : Shape → Shape → Bool
same_shape mmap_private mmap_private = true
same_shape mmap_shared mmap_shared = true
same_shape hv_allocate hv_allocate = true
same_shape _ _ = false

abbrev same_toucher : Toucher → Toucher → Bool
same_toucher host host = true
same_toucher guest guest = true
same_toucher _ _ = false

abbrev same_sequence : Sequence → Sequence → Bool
same_sequence in_place in_place = true
same_sequence unmap_first unmap_first = true
same_sequence unmap_only unmap_only = true
same_sequence _ _ = false

abbrev any : (Row → Bool) → List Row → Bool
any test [] = false
any test (r ∷ rest) = test r || any test rest

-- `rows.iter().find(…).expect("cell present")`.
unfoldable pub cell : List Row → Shape → Toucher → Sequence → Result Row
cell [] s t q = panicked "cell present"
cell (r ∷ rest) s t q =
    if same_shape r.shape s && same_toucher r.toucher t && same_sequence r.sequence q
    then ok r
    else cell rest s t q

-- The three verdicts: in-place advice releases guest-touched pages in some shape, something releases
-- hv_vm_allocate memory, and the advice is not what releases guest memory.
pub record Verdicts : Type 0 where
  pub shape_matters : Bool
  pub hv_released : Bool
  pub advice_idle : Bool

unfoldable pub verdicts : List Row → Result Verdicts
unfolding cell
verdicts rows = elim (cell rows hv_allocate guest in_place) [
  | ok hv ↦ elim (cell rows mmap_private guest unmap_first) [
    | ok with_advice ↦ elim (cell rows mmap_private guest unmap_only) [
      | ok without ↦ elim (cell rows mmap_private host unmap_only) [
        | ok host_only ↦ ok (record {
          shape_matters =
              any
                (λ r.
                  same_toucher r.toucher guest && same_sequence r.sequence in_place && r.released)
                rows;
          hv_released = any (λ r. same_shape r.shape hv_allocate && r.released) rows;
          advice_idle = without.released && with_advice.released && not host_only.released;
        })
        | panicked what ↦ panicked what
        | out_of_fuel ↦ out_of_fuel
      ]
      | panicked what ↦ panicked what
      | out_of_fuel ↦ out_of_fuel
    ]
    | panicked what ↦ panicked what
    | out_of_fuel ↦ out_of_fuel
  ]
  | panicked what ↦ panicked what
  | out_of_fuel ↦ out_of_fuel
]

-- Every cell of the matrix is in the table, with its own outcome.
pub cell-run_cells :
    (f : Outcome) (s : Shape) (t : Toucher) (q : Sequence)
    → cell (run_cells f) s t q
      ≡ ok (record { shape = s; toucher = t; sequence = q; released = f s t q })
unfolding cell run_cells
cell-run_cells f mmap_private host in_place = refl
cell-run_cells f mmap_private host unmap_first = refl
cell-run_cells f mmap_private host unmap_only = refl
cell-run_cells f mmap_private guest in_place = refl
cell-run_cells f mmap_private guest unmap_first = refl
cell-run_cells f mmap_private guest unmap_only = refl
cell-run_cells f mmap_shared host in_place = refl
cell-run_cells f mmap_shared host unmap_first = refl
cell-run_cells f mmap_shared host unmap_only = refl
cell-run_cells f mmap_shared guest in_place = refl
cell-run_cells f mmap_shared guest unmap_first = refl
cell-run_cells f mmap_shared guest unmap_only = refl
cell-run_cells f hv_allocate host in_place = refl
cell-run_cells f hv_allocate host unmap_first = refl
cell-run_cells f hv_allocate host unmap_only = refl
cell-run_cells f hv_allocate guest in_place = refl
cell-run_cells f hv_allocate guest unmap_first = refl
cell-run_cells f hv_allocate guest unmap_only = refl

any_shape :
    (g : Shape → Bool)
    → (g mmap_private || (g mmap_shared || (g hv_allocate || false)) ≡ true)
      ↔ ((s : Shape) × (g s ≡ true))
any_shape g = (
  λ h. elim (Bool-cases (g mmap_private)) [
    | inl e ↦ (mmap_private, e)
    | inr m1 ↦ elim (Bool-cases (g mmap_shared)) [
      | inl e ↦ (mmap_shared, e)
      | inr m2 ↦ (hv_allocate, ground arith)
    ]
  ],
  λ found. back (found.0) (found.1),
)
  where
    back :
        (s : Shape)
        → g s ≡ true
        → g mmap_private || (g mmap_shared || (g hv_allocate || false)) ≡ true
    back mmap_private e = ground arith
    back mmap_shared e = ground arith
    back hv_allocate e = ground arith

abbrev any_sequence : (Sequence → Bool) → Bool → Bool
any_sequence g rest = g in_place || (g unmap_first || (g unmap_only || rest))

any_sequence_lem :
    (g : Sequence → Bool) (rest : Bool)
    → (any_sequence g rest ≡ true) ↔ (((q : Sequence) × (g q ≡ true)) ⊎ (rest ≡ true))
any_sequence_lem g rest = (
  λ h. elim (Bool-cases (g in_place)) [
    | inl e ↦ inl (in_place, e)
    | inr m3 ↦ elim (Bool-cases (g unmap_first)) [
      | inl e ↦ inl (unmap_first, e)
      | inr m4 ↦ elim (Bool-cases (g unmap_only)) [
        | inl e ↦ inl (unmap_only, e)
        | inr m5 ↦ inr (ground arith)
      ]
    ]
  ],
  λ found. elim found [ inl (q, e) ↦ back q e | inr e ↦ ground arith ],
)
  where
    back : (q : Sequence) → g q ≡ true → any_sequence g rest ≡ true
    back in_place e = ground arith
    back unmap_first e = ground arith
    back unmap_only e = ground arith

any_cell :
    (g : Toucher → Sequence → Bool)
    → (any_sequence (g host) (any_sequence (g guest) false) ≡ true)
      ↔ ((t : Toucher) × ((q : Sequence) × (g t q ≡ true)))
any_cell g = (
  λ h. elim ((any_sequence_lem (g host) _).0 h) [
    | inl (q, e) ↦ (host, (q, e))
    | inr later ↦ elim ((any_sequence_lem (g guest) false).0 later) [
      | inl (q, e) ↦ (guest, (q, e))
      | inr never ↦ absurd (ground arith)
    ]
  ],
  λ found. back (found.0) (found.1.0) (found.1.1),
)
  where
    back :
        (t : Toucher) (q : Sequence)
        → g t q ≡ true
        → any_sequence (g host) (any_sequence (g guest) false) ≡ true
    back host q e = (any_sequence_lem (g host) _).1 (inl (q, e))
    back guest q e =
        (any_sequence_lem (g host) _).1 (inr ((any_sequence_lem (g guest) false).1 (inl (q, e))))

-- Over the whole matrix no lookup fails, and the verdicts say what they are printed for: the first
-- that in-place advice released guest-touched memory in some shape, the second that some cell with
-- hv_vm_allocate was released, the third that with private memory unmapping alone released what the
-- guest had touched, as did unmapping with the advice, and released nothing that the host had
-- touched.
pub verdicts-run_cells :
    (f : Outcome)
    → (v : Verdicts) × (verdicts (run_cells f) ≡ ok v)
      × ((v.shape_matters ≡ true) ↔ ((s : Shape) × (f s guest in_place ≡ true)))
      × ((v.hv_released ≡ true) ↔ ((t : Toucher) × ((q : Sequence) × (f hv_allocate t q ≡ true))))
      × ((v.advice_idle ≡ true) ↔ (
          (f mmap_private guest unmap_only ≡ true)
          × (f mmap_private guest unmap_first ≡ true)
          × (f mmap_private host unmap_only ≡ false)))
unfolding verdicts run_cells
verdicts-run_cells f = (
  record {
    shape_matters =
        f mmap_private guest in_place
        || (f mmap_shared guest in_place || (f hv_allocate guest in_place || false));
    hv_released =
        f hv_allocate host in_place
        || (f hv_allocate host unmap_first
            || (f hv_allocate host unmap_only
                || (f hv_allocate guest in_place
                    || (f hv_allocate guest unmap_first
                        || (f hv_allocate guest unmap_only || false)))));
    advice_idle =
        f mmap_private guest unmap_only
        && f mmap_private guest unmap_first
        && not (f mmap_private host unmap_only);
  },
  refl,
  any_shape (λ s. f s guest in_place),
  any_cell (f hv_allocate),
  ground arith,
)
