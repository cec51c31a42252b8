-- ===== src/Guest/After.antt =====
-- Runs of the guest one after the other.
use macos_vm_memory_ratchet.Prelude.{ℕ, zero, suc, ◌+◌, ◌≡◌, arith, ◌∙◌}
use macos_vm_memory_ratchet.Guest.Isa.{
  Guest, Step, running, aborted, idle, unsupported, Mapping, step, after,
}
use Prim.Native.Nat.add

pub after-add :
    (m : Mapping) (j k : ℕ) (g h : Guest)
    → after m j g ≡ running h
    → after m (j + k) g ≡ after m k h
unfolding after
after-add m zero k g h e = rw add.zero (ground arith)
after-add m (suc j) k g h e = rw add.suc (go (step m g) e (λ u e'. after-add m j k u h e'))
  where
    go :
        (s : Step)
        → (elim s [
          | running u ↦ after m j u
          | aborted a u ↦ aborted a u
          | idle u ↦ idle u
          | unsupported ↦ unsupported
        ])
          ≡ running h
        → ((u : Guest) → after m j u ≡ running h → after m (j + k) u ≡ after m k h)
        → (elim s [
          | running u ↦ after m (j + k) u
          | aborted a u ↦ aborted a u
          | idle u ↦ idle u
          | unsupported ↦ unsupported
        ])
          ≡ after m k h
    go (running u) e' ih = ih u e'
    go (aborted a u) e' ih = cc
    go (idle u) e' ih = cc
    go unsupported e' ih = cc

-- The lengths of two runs add up.
pub after_trans :
    (m : Mapping) (j k : ℕ) (g h t : Guest)
    → after m j g ≡ running h
    → after m k h ≡ running t
    → after m (j + k) g ≡ running t
after_trans m j k g h t p q = after-add m j k g h p ∙ q
