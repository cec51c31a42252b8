-- ===== src/Session/Cell/Laws.antt =====
-- What a cell's process, `run_cell` of crates/hv-reclaim/src/alloc_shape.rs, leaves behind, and
-- whether it handed to the kernel memory in reach of the guest.
use macos_vm_memory_ratchet.Prelude.{
  ℕ, ◌<◌, ◌≡◌, ◌↔◌, refl, sym, ap, ◌∙◌, inl, inr, arith, Bool, false, ◌||◌, [], ◌∷◌, some, ok,
  Returns, Returns->>=, Returns-ok, >>=-ok, if◌then◌else◌, Bool-cases,
}
use mathlib.Core.Path.{subst}
use macos_vm_memory_ratchet.Ledger.Pages.{page}
use macos_vm_memory_ratchet.Guest.Programs.{code_gpa, ram_gpa}
use macos_vm_memory_ratchet.Reclaim.Stage2.{within, IsUnmapped, IsLinear}
use macos_vm_memory_ratchet.AllocShape.{
  Shape, mmap_private, mmap_shared, hv_allocate, Toucher, Sequence, in_place, unmap_first,
  unmap_only,
}
use macos_vm_memory_ratchet.AllocShape.Cell.{
  release_cell, calls_of, reported, is_in_place, release_cell-returns, keeps_IsSafe, not-IsSafe,
}
use macos_vm_memory_ratchet.Session.{
  munmap, write_code_page, hv_vm_create, hv_vm_destroy, hv_vcpu_create, hv_vcpu_set_cpsr, hv_vm_map,
  read_exec, read_write, guest, touch, reclaimed, History, World, note,
}
use macos_vm_memory_ratchet.Session.Rules.{
  absent, idle, stage, held, held_after, view, IsSound, IsGranting, IsHeld, IsAllowed,
}
use macos_vm_memory_ratchet.Session.Bring.{
  IsUp, IsUp-IsLinear, check->>, check_lem, note->>, mmap_anon->>=, guest-IsUp, ram-IsHeld,
}
use macos_vm_memory_ratchet.Session.Whole.{
  IsAlone, brought, brought-IsUp, stage-IsUp, destroyed-IsUp,
}
use macos_vm_memory_ratchet.Session.Cell.{
  Allocator, allocated, freed, Report, released, releasing, dirty_cell, on_ram, run_cell,
}

-- Nothing is left, and the run was sound exactly if its sequence does not advise in place.
pub record IsEnd (q : Sequence) (after : History) : Type 0 where
  pub gone : stage after ≡ absent
  pub left : (p : ℕ) → held after p ≡ false
  pub fair : IsSound after ↔ (is_in_place q ≡ false)

module _ (w : World) (grants : IsGranting w) (alloc : Allocator) (shape : Shape) (toucher : Toucher)
    (q : Sequence) (size ram : ℕ) where
  abbrev one : History
  one = allocated shape ram size ∷ []

  alone : (s : Shape) → IsAlone ram size (allocated s ram size ∷ [])
  alone mmap_private = record {
    no_vm = refl;
    unseen = λ p. refl;
    only = λ p. ground arith;
    calm = refl;
    fair = (tt, tt);
  }
  alone mmap_shared = record {
    no_vm = refl;
    unseen = λ p. refl;
    only = λ p. ground arith;
    calm = refl;
    fair = (tt, tt);
  }
  alone hv_allocate = record {
    no_vm = refl;
    unseen = λ p. refl;
    only = λ p. ground arith;
    calm = refl;
    fair = (tt, tt);
  }

  dirty_cell-Returns :
      (t : Toucher) (code : ℕ) (es : History)
      → IsUp code size idle ram es
      → Returns (λ _. IsUp code size idle ram) (dirty_cell w alloc t ram size es)
  unfolding dirty_cell note
  dirty_cell-Returns Toucher.host code es up = record {
    apart = up.apart;
    stands = up.stands;
    seen = up.seen;
    kept = up.kept;
    calm = up.calm;
    sound = (ram-IsHeld code size ram es idle up, up.sound);
  }
  dirty_cell-Returns Toucher.guest code es up =
      let made = hv_vcpu_set_cpsr ∷ hv_vcpu_create ∷ es in
      let done = guest touch 0 size ∷ made in
      rw (check->> w grants hv_vcpu_create) (
        rw (check->> w grants hv_vcpu_set_cpsr) (
          rw (check->> w grants (guest touch 0 size)) (
            rw (check_lem w grants, Returns)
              (destroyed-IsUp code size ram done (
                guest-IsUp code size ram made touch 0 size (omega arith)
                  (stage-IsUp code size ram es up))))))

  -- The release as one event.
  releasing_lem :
      (code : ℕ) (es : History)
      → IsUp code size idle ram es
      → releasing w alloc (λ k. release_cell k ram size q) es
        ≡ ok (reported q, reclaimed (calls_of q ram size []) ∷ es)
  unfolding releasing
  releasing_lem code es up =
      let e =
        release_cell-returns (w.kernel es) (view es) ram size [] (grants.compliant es)
          (IsUp-IsLinear code size ram es idle up) q in
      rw (e, releasing)

  -- What follows the release.
  abbrev end_of : ℕ → History → History
  end_of code es =
      munmap code page
      ∷ freed shape ram size
      ∷ hv_vm_destroy
      ∷ reclaimed (calls_of q ram size [])
      ∷ es

  held-calls_of :
      (s : Sequence) (start : ℕ → Bool) (p : ℕ)
      → held_after start (calls_of s ram size []) p ≡ start p
  held-calls_of in_place start p = refl
  held-calls_of unmap_first start p = refl
  held-calls_of unmap_only start p = refl

  held-freed :
      (s : Shape) (es : History) (p : ℕ)
      → held (freed s ram size ∷ es) p ≡ (if within ram size p then false else held es p)
  held-freed mmap_private es p = refl
  held-freed mmap_shared es p = refl
  held-freed hv_allocate es p = refl

  stage-freed : (s : Shape) (es : History) → stage (freed s ram size ∷ es) ≡ stage es
  stage-freed mmap_private es = refl
  stage-freed mmap_shared es = refl
  stage-freed hv_allocate es = refl

  view-freed : (s : Shape) (es : History) (p : ℕ) → view (freed s ram size ∷ es) p ≡ view es p
  view-freed mmap_private es p = refl
  view-freed mmap_shared es p = refl
  view-freed hv_allocate es p = refl

  -- Any shape may be freed once the VM is gone.
  freed-IsAllowed :
      (s : Shape) (es : History)
      → IsHeld es ram size
      → IsUnmapped (view es) ram size
      → IsAllowed (freed s ram size) es
  freed-IsAllowed mmap_private es h u = (h, u)
  freed-IsAllowed mmap_shared es h u = (h, u)
  freed-IsAllowed hv_allocate es h u = (h, u)

  module _ (pos : 0 < size) (code : ℕ) (es : History) (up : IsUp code size idle ram es) where
    abbrev rest : History
    rest = hv_vm_destroy ∷ reclaimed (calls_of q ram size []) ∷ es

    held-rest : (p : ℕ) → held rest p ≡ (within ram size p || within code page p)
    held-rest p = held-calls_of q (held es) p ∙ up.kept p

    linear : IsLinear ram size (view es)
    linear = IsUp-IsLinear code size ram es idle up

    end-IsSound : is_in_place q ≡ false → IsSound (end_of code es)
    end-IsSound elsewhere = (
      (
        λ p h. held-freed shape rest p ∙ ground (arith, held-rest p, up.apart p),
        λ p h e. cc (e, view-freed shape rest p),
      ),
      (
        freed-IsAllowed shape rest (λ p h. ground (arith, held-rest p)) (λ p h e. cc),
        (
          up.stands,
          (
            (
              λ e. cc (up.stands),
              keeps_IsSafe (w.kernel es) (view es) ram size [] (grants.compliant es) linear q
                  elsewhere tt,
            ),
            up.sound,
          ),
        ),
      ),
    )

    end_of-IsEnd : IsEnd q (end_of code es)
    end_of-IsEnd = record {
      gone = stage-freed shape rest;
      left = λ p. ground (arith, held-freed shape rest p, held-rest p);
      fair = (
        λ s. elim (Bool-cases (is_in_place q)) [
          | inl at_place ↦ absurd (
              not-IsSafe (w.kernel es) (view es) ram size [] (grants.compliant es) linear q pos
                at_place (s.1.1.1).0.1)
          | inr elsewhere ↦ elsewhere
        ],
        end-IsSound,
      );
    }

  abbrev Ended : Report → History → Type 0
  Ended r after = (r ≡ released (reported q)) × IsEnd q after

  on_ram-Returns : 0 < size → Returns Ended (on_ram w alloc shape toucher q size ram one)
  unfolding on_ram note
  on_ram-Returns pos =
      let code = w.placed one page in
      let up = brought-IsUp code size ram one (alone shape) (grants.fresh one page) in
      rw (mmap_anon->>= w grants page) (
        rw (note->> w grants (write_code_page code)) (
          rw (check->> w grants hv_vm_create) (
            rw (check->> w grants (hv_vm_map code code_gpa page read_exec)) (
              rw (check->> w grants (hv_vm_map ram ram_gpa size read_write)) (
                Returns->>= (dirty_cell w alloc toucher ram size) _ (λ _. IsUp code size idle ram)
                  Ended (brought code size ram one)
                  (dirty_cell-Returns toucher code (brought code size ram one) up)
                  (λ _ es dirty.
                    subst (Returns Ended)
                      (sym (
                        >>=-ok (releasing w alloc (λ k. release_cell k ram size q)) _ es
                          (reclaimed (calls_of q ram size []) ∷ es) (reported q)
                          (releasing_lem code es dirty)))
                      (rw (check->> w grants hv_vm_destroy)
                        (refl, end_of-IsEnd pos code es dirty))))))))

  run_cell-on_ram :
      alloc [] shape size ≡ some ram
      → run_cell w alloc shape toucher q size [] ≡ on_ram w alloc shape toucher q size ram one
  unfolding run_cell
  run_cell-on_ram got = rw (got, run_cell)

  -- On a system that grants every call and an allocator that gives the cell memory, a cell of a
  -- size above zero returns with the status of its sequence, no VM is left and no host memory is
  -- held, whatever its shape and whoever dirties it. On the way nothing was handed to the kernel in
  -- reach of the guest, and nothing else was done that was not allowed, exactly if the cell does
  -- not advise in place.
  pub run_cell_lem :
      0 < size
      → alloc [] shape size ≡ some ram
      → (after : History) × (run_cell w alloc shape toucher q size []
          ≡ ok (released (reported q), after))
        × IsEnd q after
  run_cell_lem pos got =
      let (r, (after, returns, (same, ended))) =
        Returns-ok Ended (on_ram w alloc shape toucher q size ram one) (on_ram-Returns pos) in
      (after, run_cell-on_ram got ∙ (returns ∙ ap (λ (x : Report). ok (x, after)) same), ended)
