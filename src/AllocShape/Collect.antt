-- ===== src/AllocShape/Collect.antt =====
-- How `run` of crates/hv-reclaim/src/alloc_shape.rs collects the matrix from its children, and the
-- line that `run_cell` prints for it. The floats are a parameter: how they are printed (`{:.1}`)
-- and read. `child` gives the lines of a child's output, if it can be started.
use macos_vm_memory_ratchet.Prelude.{
  ℕ, Bool, ◌&&◌, List, [], ◌∷◌, ◌++◌, map, Option, none, some, get_elem?, Result, ok, panicked,
  out_of_fuel,
}
use Prim.Native.String.{String}
use macos_vm_memory_ratchet.Options.Numbers.{print_usize}
use macos_vm_memory_ratchet.Wire.{strip_prefix, split_whitespace, prepend}
use macos_vm_memory_ratchet.AllocShape.{
  Shape, Toucher, Sequence, shape_tag, toucher_name, sequence_tag,
}
use macos_vm_memory_ratchet.AllocShape.Cell.{Status, skipped, done, failed}
use macos_vm_memory_ratchet.AllocShape.Spec.{spec}
use macos_vm_memory_ratchet.AllocShape.Matrix.{Row, Verdicts, verdicts, shapes, touchers, sequences}

-- What a child has to say: that there is no memory, or a status with the four figures.
pub record Figures (F : Type 0) : Type 0 where
  pub delta : F
  pub before : F
  pub idle : F
  pub reusable : F

pub data Printed (F : Type 0) : Type 0 where
  alloc_failed : Printed F
  measured : Status → Figures F → Printed F

-- A failed call of `madvise` is named by its errno.
abbrev pub status_text : Status → String
status_text skipped = "none"
status_text done = "ok"
status_text (failed errno) = prepend "errno" (print_usize errno)

-- Words with a space between them.
abbrev pub join : List String → String
join [] = ""
join (w ∷ []) = w
join (w ∷ rest) = prepend w (prepend " " (join rest))

-- A row of the table, `Row`.
pub record Line (F : Type 0) : Type 0 where
  pub shape : Shape
  pub toucher : Toucher
  pub sequence : Sequence
  pub status : String
  pub figures : Figures F

-- The arithmetic of `f64` that the table uses.
pub record Floats (F : Type 0) : Type 0 where
  pub minus : F → F → F
  pub times : F → F → F
  pub negate : F → F
  pub at_least : F → F → Bool
  pub at_most : F → F → Bool
  pub sixty_four : F
  pub half : F

-- The closure `released` of the table: the ledger moved by half of what the cell was charged for, and
-- that is 64 MiB or more.
unfoldable pub released_of : {F : Type 0} → Floats F → Figures F → Bool
released_of m f =
    let charged = m.minus f.before f.idle in
    m.at_least charged m.sixty_four && m.at_most f.delta (m.negate (m.times charged m.half))

-- A row as the verdicts see it.
abbrev pub credit : {F : Type 0} → (Figures F → Bool) → Line F → Row
credit credited r = record {
  shape = r.shape;
  toucher = r.toucher;
  sequence = r.sequence;
  released = credited r.figures;
}

-- The first line that starts with `CELL `.
abbrev pub find_line : List String → Option String
find_line [] = none
find_line (line ∷ rest) = elim (strip_prefix "CELL " line) [
  | some _ ↦ some line
  | none ↦ find_line rest
]

-- `f[i]`.
abbrev pub index : List String → ℕ → Result String
index f i = elim (get_elem? f i) [ some s ↦ ok s | none ↦ panicked "index out of bounds" ]

abbrev pub then_ok {ℓ κ} : {A : Type ℓ} {B : Type κ} → Result A → (A → Result B) → Result B
then_ok (ok a) f = f a
then_ok (panicked what) f = panicked what
then_ok out_of_fuel f = out_of_fuel

module _ {F : Type 0} (show : F → String) where
  -- The words of the line that `run_cell` prints.
  abbrev pub figure_words : Printed F → List String
  figure_words alloc_failed = "alloc-failed" ∷ "0" ∷ "0" ∷ "0" ∷ "0" ∷ []
  figure_words (measured status f) =
      status_text status ∷ show f.delta ∷ show f.before ∷ show f.idle ∷ show f.reusable ∷ []

  unfoldable pub cell_line : Shape → Toucher → Sequence → Printed F → String
  cell_line s t q printed =
      join ("CELL" ∷ shape_tag s ∷ toucher_name t ∷ sequence_tag q ∷ figure_words printed)

module _ {F : Type 0} (parse : String → Option F) (nil : F) where
  -- `v.parse().unwrap_or(0.0)`, of a word that may be missing too.
  abbrev pub figure : Option String → F
  figure none = nil
  figure (some v) = elim (parse v) [ some x ↦ x | none ↦ nil ]

  unfoldable pub read_line : Shape → Toucher → Sequence → String → Result (Line F)
  read_line s t q line =
      let f = split_whitespace line in
      then_ok (index f 4) λ status. then_ok (index f 5) λ delta. ok (record {
        shape = s;
        toucher = t;
        sequence = q;
        status = status;
        figures = record {
          delta = figure (some delta);
          before = figure (get_elem? f 6);
          idle = figure (get_elem? f 7);
          reusable = figure (get_elem? f 8);
        };
      })

  module _ (child : String → Option (List String)) (size_gb : ℕ) where
    -- The body of the innermost loop.
    unfoldable pub collect_one : Shape → Toucher → Sequence → Result (Line F)
    unfolding read_line
    collect_one s t q = elim (child (spec s t q size_gb)) [
      | none ↦ panicked "spawn cell"
      | some stdout ↦ elim (find_line stdout) [
        | none ↦ panicked "cell produced no result"
        | some line ↦ read_line s t q line
      ]
    ]

    -- A `for` loop that pushes rows.
    abbrev pub for_each {ℓ} :
        {A : Type ℓ} → List A → (A → Result (List (Line F))) → Result (List (Line F))
    for_each [] body = ok []
    for_each (a ∷ rest) body =
        then_ok (body a) λ rows. then_ok (for_each rest body) λ more. ok (rows ++ more)

    unfoldable pub collect : Result (List (Line F))
    unfolding collect_one
    collect = for_each shapes λ s.
        for_each touchers
          λ t. for_each sequences λ q. then_ok (collect_one s t q) λ row. ok (row ∷ [])

    -- The table and the verdicts.
    unfoldable pub run : (Figures F → Bool) → Result (List (Line F) × Verdicts)
    unfolding collect
    run credited =
        then_ok collect λ rows. then_ok (verdicts (map (credit credited) rows)) λ v. ok (rows, v)
