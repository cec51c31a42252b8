-- ===== src/Session/Reclaims.antt =====
-- What the reclaim sequences of crates/hv-reclaim/src do to a VM that is up: the memory of the
-- process and the mapping of the guest are as before.
use macos_vm_memory_ratchet.Prelude.{
  ℕ, ◌+◌, ◌*◌, ◌≤◌, ◌<◌, ◌≡◌, refl, sym, ap, ◌∙◌, arith, Bool, true, false, List, [], ◌∷◌, ok, Run,
  >>-eq-ok, Returns,
}
use native.Mathlib.Nat.{zero-mul}
use macos_vm_memory_ratchet.Ledger.Pages.{All, offsets, step_by}
use macos_vm_memory_ratchet.Reclaim.{
  Trace, Kernel, ReclaimMode, reusable, unmapping, reclaim, reclaim_range, reclaim_each,
  reclaim_extents, stop_services, madv_free_reusable,
}
use macos_vm_memory_ratchet.Reclaim.Stage2.{within}
use macos_vm_memory_ratchet.Reclaim.Safe.{triple, IsKept, reclaim_range-triple, reclaim_each-IsKept}
use macos_vm_memory_ratchet.Reclaim.Extents.{
  extent_of, extents_of, extents-fit, offsets-fit, reclaim_extents_lem,
}
use macos_vm_memory_ratchet.Reclaim.Services.{stop_services-reclaim_each}
use macos_vm_memory_ratchet.Reclaim.Returns.{triples, reclaim_each-returns}
use macos_vm_memory_ratchet.Reclaim.Trap.{reclaim-reclaim_range, reclaim_lem}
use macos_vm_memory_ratchet.Session.{History, World, reclaiming}
use macos_vm_memory_ratchet.Session.Rules.{running, held, held_after, view, IsGranting}
use macos_vm_memory_ratchet.Session.Bring.{IsUp, IsUp-IsLinear}

-- The process holds `size` bytes at `ram`, after the calls.
abbrev HasRam : (ℕ → Bool) → ℕ → ℕ → Trace → Type 0
HasRam start ram size calls = (q : ℕ) → within ram size q ≡ true → held_after start calls q ≡ true

module _ (k : Kernel) (start : ℕ → Bool) (ram size : ℕ) (mode : ReclaimMode) (advice : ℕ) where
  held-triple :
      (off len q : ℕ) (calls : Trace)
      → off + len ≤ size
      → HasRam start ram size calls
      → held_after start (triple ram off len mode advice calls) q ≡ held_after start calls q
  held-triple off len q calls fits has = go mode
    where
      go :
          (m : ReclaimMode)
          → held_after start (triple ram off len m advice calls) q ≡ held_after start calls q
      go reusable = refl
      go unmapping = ground (arith, has q)

  held-reclaim_range :
      (off len q : ℕ) (calls after : Trace)
      → off + len ≤ size
      → HasRam start ram size calls
      → reclaim_range k ram off len mode advice calls ≡ ok (tt, after)
      → held_after start after q ≡ held_after start calls q
  held-reclaim_range off len q calls after fits has h =
      ap (λ t. held_after start t q) (reclaim_range-triple k ram off len mode advice calls after h)
      ∙ held-triple off len q calls fits has

  held-reclaim_each :
      (extent q : ℕ) (offs : List ℕ) (calls after : Trace)
      → All (λ off. off + extent ≤ size) offs
      → HasRam start ram size calls
      → reclaim_each k ram extent mode advice offs calls ≡ ok (tt, after)
      → held_after start after q ≡ held_after start calls q
  unfolding reclaim_each
  held-reclaim_each extent q [] calls after fit has h =
      let same : calls ≡ after = cc in ap (λ t. held_after start t q) (sym same)
  held-reclaim_each extent q (off ∷ rest) calls after (fit, fits) has h =
      let (mid, first, then_rest) =
        >>-eq-ok (reclaim_range k ram off extent mode advice)
          (reclaim_each k ram extent mode advice rest) calls after h in
      let kept = λ (p : ℕ). held-reclaim_range off extent p calls mid fit has first in
      held-reclaim_each extent q rest mid after fits (λ p e. kept p ∙ has p e) then_rest ∙ kept q

module _ (w : World) (grants : IsGranting w) (code size ram : ℕ) (es : History)
    (up : IsUp code size running ram es) where
  has : HasRam (held es) ram size []
  has q h = ground (arith, up.kept q)

  -- A sequence that keeps the guest's mapping and the process's memory keeps the VM up.
  reclaiming-Returns :
      (sequence : Kernel → Run Trace (Unit {0})) (after : Trace)
      → sequence (w.kernel es) [] ≡ ok (tt, after)
      → IsKept (view es) [] after
      → ((q : ℕ) → held_after (held es) after q ≡ held es q)
      → Returns (λ _. IsUp code size running ram) (reclaiming w sequence es)
  unfolding reclaiming
  reclaiming-Returns sequence after returns kept same =
      rw (returns, Returns)
        (record {
          apart = up.apart;
          stands = up.stands;
          seen = λ q. kept.same_view q ∙ up.seen q;
          kept = λ q. same q ∙ up.kept q;
          calm = up.calm;
          sound = ((λ e. cc (up.stands), kept.safe.1 tt), up.sound);
        })

  pub reclaim-Returns :
      (advice : ℕ)
      → Returns
          (λ _. IsUp code size running ram)
          (reclaiming w (λ k. reclaim k ram size false advice) es)
  reclaim-Returns advice =
      let k = w.kernel es in
      let (after, returns, kept, _) =
        reclaim_lem k (view es) ram size advice [] (grants.compliant es)
          (IsUp-IsLinear code size ram es running up) in
      reclaiming-Returns (λ k. reclaim k ram size false advice) after returns kept
        (λ q.
          held-reclaim_range k (held es) ram size reusable advice 0 size q [] after (omega arith)
            has (sym (reclaim-reclaim_range k ram size advice []) ∙ returns))

  pub reclaim_extents-Returns :
      (kb n : ℕ) (mode : ReclaimMode) (advice : ℕ)
      → extents_of size kb ≡ ok n
      → 0 < extent_of size kb
      → Returns
          (λ _. IsUp code size running ram)
          (reclaiming w (λ k. reclaim_extents k ram size (extent_of size kb) mode advice) es)
  unfolding reclaim_extents
  reclaim_extents-Returns kb n mode advice accepted pos =
      let k = w.kernel es in
      let (after, returns, kept, _) =
        reclaim_extents_lem k (view es) ram size kb mode advice n [] (grants.compliant es) accepted
          pos (IsUp-IsLinear code size ram es running up) in
      reclaiming-Returns (λ k. reclaim_extents k ram size (extent_of size kb) mode advice) after
        returns kept
        (λ q.
          held-reclaim_each k (held es) ram size mode advice (extent_of size kb) q
            (step_by 0 size (extent_of size kb)) [] after (extents-fit size kb n accepted pos) has
            returns)

  pub stop_services-Returns :
      (region services : ℕ)
      → region * services ≤ size
      → Returns
          (λ _. IsUp code size running ram)
          (reclaiming w (λ k. stop_services k ram region 0 services) es)
  stop_services-Returns region services fits =
      let k = w.kernel es in
      let good = grants.compliant es in
      let offs = offsets services 0 region in
      let in_ram = offsets-fit services 0 region size (grind arith) in
      let each = reclaim_each-returns k ram reusable madv_free_reusable good region offs [] in
      let after = triples k ram reusable madv_free_reusable good region offs [] in
      reclaiming-Returns (λ k. stop_services k ram region 0 services) after
        (stop_services-reclaim_each k ram region 0 services []
          ∙ (ap
                (λ o.
                  reclaim_each k ram region reusable madv_free_reusable (offsets services o region)
                    [])
                (zero-mul region)
              ∙ each))
        (reclaim_each-IsKept k (view es) ram size reusable madv_free_reusable region offs [] after
          in_ram (IsUp-IsLinear code size ram es running up) each)
        (λ q.
          held-reclaim_each k (held es) ram size reusable madv_free_reusable region q offs [] after
            in_ram has each)
