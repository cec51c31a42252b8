-- ===== src/Session/Process.antt =====
-- What a process of hv-reclaim does, `main` of crates/hv-reclaim/src/main.rs from its first line:
-- it is a pressure child (crates/ledger/src/pressure.rs), a cell of the matrix (`maybe_run_cell` of
-- crates/hv-reclaim/src/alloc_shape.rs), or a run with the options of its command line.
use macos_vm_memory_ratchet.Prelude.{
  ℕ, ◌*◌, ◌%◌, ◌^◌, ◌<◌, ◌≡◌, List, [], Option, none, some, Result, ok, panicked, out_of_fuel, Run,
  pure, ◌>>=◌, ◌>>◌, >>=-ok,
}
use Prim.Native.String.{String}
use macos_vm_memory_ratchet.Ledger.Pages.{page}
use macos_vm_memory_ratchet.Ledger.Reading.{assert_host_page_size}
use macos_vm_memory_ratchet.Ledger.Pressure
use macos_vm_memory_ratchet.Ledger.Pressure.{
  Chunk, own_work, maybe_run_generator, IsHolding, apply_lem,
}
use macos_vm_memory_ratchet.Options.{Options, parse_args}
use macos_vm_memory_ratchet.Options.Numbers.{print_usize}
use macos_vm_memory_ratchet.AllocShape.{Shape, Toucher, Sequence}
use macos_vm_memory_ratchet.AllocShape.Spec.{spec, parse_cell, parse_cell-spec}
use macos_vm_memory_ratchet.AllocShape.Cell.{reported}
use macos_vm_memory_ratchet.Session.{History, World, main}
use macos_vm_memory_ratchet.Session.Rules.{IsGranting}
use macos_vm_memory_ratchet.Session.Modes.{IsReady}
use macos_vm_memory_ratchet.Session.Whole.{IsOver, main_lem}
use macos_vm_memory_ratchet.Session.Cell.{Allocator, Report, released, run_cell}
use macos_vm_memory_ratchet.Session.Cell.Laws.{IsEnd, run_cell_lem}

-- What a process is started with: the variables RATCHET_PRESSURE_GEN_GB and that of a cell, if they
-- are set, the host's page size, and the arguments.
pub record Start : Type 0 where
  pub generator : Option String
  pub cell : Option String
  pub page_size : ℕ
  pub args : List String

-- How it ends, or that it holds memory until it is killed.
pub data End : Type 0 where
  holding : List Chunk → End
  of_cell : Report → End
  of_run : End

abbrev pub lift {ℓ} : {A : Type ℓ} → Result A → Run History A
lift (ok a) es = ok (a, es)
lift (panicked what) es = panicked what
lift out_of_fuel es = out_of_fuel

module _ (w : World) (alloc : Allocator) (chunk_at : ℕ → Option ℕ) where
  -- `maybe_run_cell` where its variable is set.
  unfoldable pub run_child : String → Run History End
  unfolding run_cell
  run_child text = do
    c ← lift (parse_cell text)
    report ← run_cell w alloc c.shape c.toucher c.sequence c.size
    pure (of_cell report)

  unfoldable pub run_parent : ℕ → List String → Run History End
  unfolding parse_args main assert_host_page_size
  run_parent page_size args = do
    lift (assert_host_page_size page_size)
    o ← lift (parse_args args)
    main w o
    pure of_run

  unfoldable pub process : Start → Run History End
  unfolding run_child run_parent maybe_run_generator
  process start es = elim (maybe_run_generator chunk_at start.generator) [
    | ok (Pressure.holding chunks) ↦ ok (holding chunks, es)
    | ok own_work ↦ elim (start.cell) [
      | some text ↦ run_child text es
      | none ↦ run_parent start.page_size start.args es
    ]
    | panicked what ↦ panicked what
    | out_of_fuel ↦ out_of_fuel
  ]

module _ (w : World) (grants : IsGranting w) (alloc : Allocator) (chunk_at : ℕ → Option ℕ) (sys : ℕ)
    (args : List String) where
  run_parent-main :
      (o : Options) (after : History)
      → parse_args args ≡ ok o
      → main w o [] ≡ ok (tt, after)
      → run_parent w alloc chunk_at page args [] ≡ ok (of_run, after)
  unfolding run_parent assert_host_page_size
  run_parent-main o after parsed returns = rw (parsed) (>>=-ok (main w o) _ [] after tt returns)

  run_child-spec :
      (shape : Shape) (toucher : Toucher) (q : Sequence) (size_gb : ℕ) (after : History)
      → size_gb < 2 ^ 64
      → run_cell w alloc shape toucher q (size_gb * 2 ^ 30 % 2 ^ 64) []
        ≡ ok (released (reported q), after)
      → run_child w alloc chunk_at (spec shape toucher q size_gb) []
        ≡ ok (of_cell (released (reported q)), after)
  unfolding run_child
  run_child-spec shape toucher q size_gb after lt returns =
      rw (parse_cell-spec shape toucher q size_gb lt) (
        >>=-ok (run_cell w alloc shape toucher q (size_gb * 2 ^ 30 % 2 ^ 64)) _ [] after
          (released (reported q)) returns)

  -- On a system that grants every call, a process of hv-reclaim is one of three things. With
  -- neither variable set, on a host of 16 KiB pages and with arguments that parse to options of
  -- which only the system can fail, it is a run, which leaves nothing behind and did nothing that
  -- was not allowed. With the text of a cell set by its parent, of which the size is above zero and
  -- the allocator gives it memory, it runs just that cell: it reports the status of the cell's
  -- sequence, leaves nothing behind, and did nothing that was not allowed exactly if the cell does
  -- not advise in place. And with the number of a pressure child set, it holds that many chunks, or
  -- those that there were, dirtied, whatever else is set, and makes no VM.
  pub process_lem :
      (o : Options)
      → parse_args args ≡ ok o
      → IsReady o
      → (shape : Shape) (toucher : Toucher) (q : Sequence) (size_gb ram : ℕ) → size_gb < 2 ^ 64
      → 0 < size_gb * 2 ^ 30 % 2 ^ 64
      → alloc [] shape (size_gb * 2 ^ 30 % 2 ^ 64) ≡ some ram
      → (gb : ℕ) (cell : Option String) → gb < 2 ^ 64
      → ((after : History) × (process w alloc chunk_at
              (record { generator = none; cell = none; page_size = page; args = args })
              []
            ≡ ok (of_run, after))
          × IsOver after)
        × ((after : History) × (process w alloc chunk_at
                (record {
                  generator = none;
                  cell = some (spec shape toucher q size_gb);
                  page_size = sys;
                  args = args;
                })
                []
              ≡ ok (of_cell (released (reported q)), after))
            × IsEnd q after)
        × ((chunks : List Chunk) × (process w alloc chunk_at
                (record {
                  generator = some (print_usize gb);
                  cell = cell;
                  page_size = sys;
                  args = args;
                })
                []
              ≡ ok (holding chunks, []))
            × IsHolding chunk_at gb chunks)
  unfolding process maybe_run_generator
  process_lem o parsed ready shape toucher q size_gb ram lt pos got gb cell small =
      let (over, runs, is) = main_lem w grants o ready in
      let (after, reports, ends) =
        run_cell_lem w grants alloc shape toucher q (size_gb * 2 ^ 30 % 2 ^ 64) ram pos got in
      let (chunks, holds, held) = (apply_lem chunk_at gb small).2 in
      (
        (over, run_parent-main o over parsed runs, is),
        (after, run_child-spec shape toucher q size_gb after lt reports, ends),
        (chunks, rw (holds, process), held),
      )
