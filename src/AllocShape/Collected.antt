-- ===== src/AllocShape/Collected.antt =====
-- The matrix that `run` of crates/hv-reclaim/src/alloc_shape.rs collects is what its children
-- printed.
use macos_vm_memory_ratchet.Prelude.{
  ℕ, ◌≡◌, ◌↔◌, refl, ap, Bool, true, false, List, [], ◌∷◌, ◌++◌, Option, none, some, Result, ok,
}
use Prim.Native.String.{String}
use macos_vm_memory_ratchet.Wire.{strip_prefix, is_whitespace, split_whitespace}
use macos_vm_memory_ratchet.AllocShape.{
  Shape, mmap_private, hv_allocate, Toucher, host, guest, Sequence, in_place, unmap_first,
  unmap_only, shape_tag, toucher_name, sequence_tag,
}
use macos_vm_memory_ratchet.AllocShape.Spec.{spec}
use macos_vm_memory_ratchet.AllocShape.Matrix.{
  Verdicts, run_cells, verdicts-run_cells, shapes, touchers, sequences,
}
use macos_vm_memory_ratchet.AllocShape.Words.{
  IsWord, AllWords, split-join, tag-IsWord, name-IsWord, sequence-IsWord, status-IsWord,
}
use macos_vm_memory_ratchet.AllocShape.Collect.{
  Figures, Printed, alloc_failed, measured, status_text, join, Line, find_line, then_ok,
  figure_words, cell_line, figure, read_line, collect_one, for_each, collect, run,
}

-- No line in front of the child's own starts with `CELL `.
abbrev pub NoneStart : List String → Type 0
NoneStart [] = Unit {0}
NoneStart (line ∷ rest) = (strip_prefix "CELL " line ≡ none) × NoneStart rest

find_line-append :
    (front back : List String) (line : String) {found : String}
    → NoneStart front
    → strip_prefix "CELL " line ≡ some found
    → find_line (front ++ line ∷ back) ≡ some line
find_line-append [] back line h e = rw (e, find_line) refl
find_line-append (x ∷ front) back line (miss, h) e =
    rw (miss, find_line) (find_line-append front back line h e)

abbrev pub each {ℓ κ} : {X : Type κ} {A : Type ℓ} → List X → (X → List A) → List A
each [] body = []
each (x ∷ rest) body = body x ++ each rest body

-- One for each cell, in the order of the loops.
abbrev pub whole {ℓ} : {A : Type ℓ} → (Shape → Toucher → Sequence → A) → List A
whole f = each shapes λ s. each touchers λ t. each sequences λ q. f s t q ∷ []

module _ {F : Type 0} (show : F → String) (parse : String → Option F) (nil : F) where
  -- A float is printed as one word, which is read as the float rounded; `0` is read as zero.
  pub record IsPrinting (round : F → F) : Type 0 where
    pub shown : (x : F) → IsWord (show x)
    pub parsed : (x : F) → parse (show x) ≡ some (round x)
    pub zero : parse "0" ≡ some nil

  -- What the parent has of what a child printed.
  abbrev pub status_of : Printed F → String
  status_of alloc_failed = "alloc-failed"
  status_of (measured status f) = status_text status

  abbrev pub figures_of : (F → F) → Printed F → Figures F
  figures_of round alloc_failed = record { delta = nil; before = nil; idle = nil; reusable = nil }
  figures_of round (measured status f) = record {
    delta = round f.delta;
    before = round f.before;
    idle = round f.idle;
    reusable = round f.reusable;
  }

  abbrev pub row_of : (F → F) → Shape → Toucher → Sequence → Printed F → Line F
  row_of round s t q p = record {
    shape = s;
    toucher = t;
    sequence = q;
    status = status_of p;
    figures = figures_of round p;
  }

  module _ (round : F → F) (prints : IsPrinting round) where
    nought : IsWord "0"
    unfolding is_whitespace
    nought = ("0", "", refl, refl)

    words_lem : (p : Printed F) → AllWords (figure_words show p)
    unfolding is_whitespace
    words_lem alloc_failed =
        (("a", "lloc-failed", refl, refl), (nought, (nought, (nought, (nought, tt)))))
    words_lem (measured status f) = (
      status-IsWord status,
      (
        prints.shown f.delta,
        (prints.shown f.before, (prints.shown f.idle, (prints.shown f.reusable, tt))),
      ),
    )

    line_words :
        (s : Shape) (t : Toucher) (q : Sequence) (p : Printed F)
        → split_whitespace (cell_line show s t q p)
          ≡ "CELL" ∷ shape_tag s ∷ toucher_name t ∷ sequence_tag q ∷ figure_words show p
    unfolding cell_line is_whitespace
    line_words s t q p =
        split-join ("CELL" ∷ shape_tag s ∷ toucher_name t ∷ sequence_tag q ∷ figure_words show p) (
          ("C", "ELL", refl, refl),
          (tag-IsWord s, (name-IsWord t, (sequence-IsWord q, words_lem p))),
        )

    figure-some : (v : String) (x : F) → parse v ≡ some x → figure parse nil (some v) ≡ x
    figure-some v x e = rw (e, figure) refl

    read_line-cell_line :
        (s : Shape) (t : Toucher) (q : Sequence) (p : Printed F)
        → read_line parse nil s t q (cell_line show s t q p) ≡ ok (row_of round s t q p)
    unfolding read_line
    read_line-cell_line s t q alloc_failed =
        let zero = figure-some "0" nil prints.zero in
        rw (line_words s t q alloc_failed, read_line) (cc)
    read_line-cell_line s t q (measured status f) =
        let d = figure-some (show f.delta) (round f.delta) (prints.parsed f.delta) in
        let b = figure-some (show f.before) (round f.before) (prints.parsed f.before) in
        let i = figure-some (show f.idle) (round f.idle) (prints.parsed f.idle) in
        let r = figure-some (show f.reusable) (round f.reusable) (prints.parsed f.reusable) in
        rw (line_words s t q (measured status f), read_line) (cc)

    starts_line :
        (s : Shape) (t : Toucher) (q : Sequence) (p : Printed F)
        → strip_prefix "CELL " (cell_line show s t q p)
          ≡ some (join (shape_tag s ∷ toucher_name t ∷ sequence_tag q ∷ figure_words show p))
    unfolding strip_prefix cell_line
    starts_line s t q p = refl

    module _ (child : String → Option (List String)) (size_gb : ℕ)
        (answer : Shape → Toucher → Sequence → Printed F) where
      -- A child prints its cell's line, and before that none like it.
      abbrev pub IsAnswered : Shape → Toucher → Sequence → Type 0
      IsAnswered s t q =
          (front back : List String) × NoneStart front
          × (child (spec s t q size_gb)
              ≡ some (front ++ cell_line show s t q (answer s t q) ∷ back))

      collect_one-ok :
          (s : Shape) (t : Toucher) (q : Sequence)
          → IsAnswered s t q
          → collect_one parse nil child size_gb s t q ≡ ok (row_of round s t q (answer s t q))
      unfolding collect_one
      collect_one-ok s t q (front, back, none_start, e) =
          let found : find_line (front ++ cell_line show s t q (answer s t q) ∷ back)
              ≡ some (cell_line show s t q (answer s t q)) =
            find_line-append front back (cell_line show s t q (answer s t q)) none_start
              (starts_line s t q (answer s t q)) in
          rw (e, found, collect_one) (read_line-cell_line s t q (answer s t q))

      for_each-ok {κ} :
          {X : Type κ} (xs : List X) (body : X → Result (List (Line F))) (g : X → List (Line F))
          → ((x : X) → body x ≡ ok (g x))
          → for_each parse nil child size_gb xs body ≡ ok (each xs g)
      for_each-ok [] body g h = refl
      for_each-ok (x ∷ rest) body g h = rw (h x, for_each-ok rest body g h, for_each, then_ok) refl

      collect-ok :
          ((s : Shape) (t : Toucher) (q : Sequence) → IsAnswered s t q)
          → collect parse nil child size_gb ≡ ok (whole λ s t q. row_of round s t q (answer s t q))
      unfolding collect
      collect-ok answered = for_each-ok shapes _ _ λ s. for_each-ok touchers _ _ λ t.
          for_each-ok sequences _ (λ q. row_of round s t q (answer s t q) ∷ [])
            λ q. ap (λ r. then_ok r λ row. ok (row ∷ [])) (collect_one-ok s t q (answered s t q))

      -- Where each child prints the line of its cell, and before that no line that starts with
      -- `CELL `: the table has a row for each cell of the matrix, in the order of the loops, with
      -- the status that its child printed and the figures that it printed, rounded as their text
      -- has them, or zeros where the memory could not be had. No lookup of the verdicts fails, and
      -- of the rows that `credited` credits with a release, as `released_of` does with the
      -- arithmetic of the floats, they say: whether in-place advice releases guest-touched pages in
      -- some shape, whether anything releases hv_vm_allocate memory, and whether of private memory
      -- unmapping releases guest-touched pages with the advice and without it but nothing
      -- host-touched. It is assumed that a float is printed as one word that reads as a float
      -- again.
      pub run_table :
          ((s : Shape) (t : Toucher) (q : Sequence) → IsAnswered s t q)
          → (credited : Figures F → Bool)
          → (v : Verdicts) × (run parse nil child size_gb credited
              ≡ ok (whole (λ s t q. row_of round s t q (answer s t q)), v))
            × ((v.shape_matters ≡ true)
                ↔ ((s : Shape) × (credited (figures_of round (answer s guest in_place)) ≡ true)))
            × ((v.hv_released ≡ true) ↔ (
                (t : Toucher) × ((q : Sequence) × (credited
                      (figures_of round (answer hv_allocate t q))
                    ≡ true))))
            × ((v.advice_idle ≡ true) ↔ (
                (credited (figures_of round (answer mmap_private guest unmap_only)) ≡ true)
                × (credited (figures_of round (answer mmap_private guest unmap_first)) ≡ true)
                × (credited (figures_of round (answer mmap_private host unmap_only)) ≡ false)))
      unfolding run run_cells
      run_table answered credited =
          let (v, e, one, two, three) =
            verdicts-run_cells (λ s t q. credited (figures_of round (answer s t q))) in
          (v, rw (collect-ok answered, e, run, then_ok) refl, one, two, three)
