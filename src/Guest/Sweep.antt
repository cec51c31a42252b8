-- ===== src/Guest/Sweep.antt =====
-- A visit of every page of a range, in two forms: page after page, as the guest loops of
-- crates/hv-reclaim/src/guest.rs go, and in closed form for one address.
use macos_vm_memory_ratchet.Prelude.{
  ℕ, zero, suc, ◌+◌, ◌-◌, ◌*◌, ◌%◌, ◌<◌, ◌≡◌, refl, Bool, ◌&&◌, arith, ltb, leb, ◌==◌,
  if◌then◌else◌, fun_ext,
}
use macos_vm_memory_ratchet.Guest.Isa.{update}
use macos_vm_memory_ratchet.Guest.Programs.{page}

-- `visit q v` is the word that a visit leaves at `q` where it found `v`.
unfoldable pub sweep : (ℕ → ℕ → ℕ) → ℕ → ℕ → (ℕ → ℕ) → ℕ → ℕ
sweep visit a zero ram = ram
sweep visit a (suc n) ram = sweep visit (a + page) n (update ram a (visit a (ram a)))

-- The sum of `tally q (ram q)` over the pages.
unfoldable pub tally_pages : (ℕ → ℕ → ℕ) → ℕ → ℕ → (ℕ → ℕ) → ℕ
tally_pages tally a zero ram = 0
tally_pages tally a (suc n) ram = tally a (ram a) + tally_pages tally (a + page) n ram

-- `q` is the first word of one of the `n` pages from `a`.
abbrev pub covers : ℕ → ℕ → ℕ → Bool
covers a n q = leb a q && ltb q (a + n * page) && (q - a) % page == 0

pub sweep_at :
    (visit : ℕ → ℕ → ℕ) (n a q : ℕ) (ram : ℕ → ℕ)
    → sweep visit a n ram q ≡ (if covers a n q then visit q (ram q) else ram q)
unfolding sweep
sweep_at visit zero a q ram = ground arith
sweep_at visit (suc n) a q ram =
    ground (arith, sweep_at visit n (a + page) q (update ram a (visit a (ram a))))

pub tally_pages-update :
    (tally : ℕ → ℕ → ℕ) (n b a v : ℕ) (ram : ℕ → ℕ)
    → a < b
    → tally_pages tally b n (update ram a v) ≡ tally_pages tally b n ram
unfolding tally_pages
tally_pages-update tally zero b a v ram h = refl
tally_pages-update tally (suc n) b a v ram h =
    ground (arith, tally_pages-update tally n (b + page) a v ram)

pub update_self : (f : ℕ → ℕ) (a : ℕ) → update f a (f a) ≡ f
update_self f a = fun_ext λ q. ground arith
