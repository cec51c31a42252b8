-- ===== src/Discard/Laws.antt =====
-- What the two controls rely on of the system, and what their steps come to under that.
use macos_vm_memory_ratchet.Prelude.{
  ℕ, ◌+◌, ◌<◌, ◌≡◌, ◌≢◌, ◌⊎◌, refl, ap, arith, Bool, true, false, List, [], ◌∷◌, ◌==◌, ◌||◌,
  if◌then◌else◌, ok,
}
use Prim.Native.String.{String}
use macos_vm_memory_ratchet.Ledger.Pages.{page}
use macos_vm_memory_ratchet.Ledger.Reading.{Ledger, read}
use macos_vm_memory_ratchet.Ledger.Pressure.{child}
use macos_vm_memory_ratchet.Options.{Advice}
use macos_vm_memory_ratchet.Discard.Host.{
  Call, mapped, advised, Host, System, within, held, freeable, put, mmap_anon, madvise, read_ledger,
}

abbrev pub in_any : List (ℕ × ℕ) → ℕ → Bool
in_any [] q = false
in_any (r ∷ rest) q = within r.0 r.1 q || in_any rest q

-- A system that grants every call: a new mapping lies apart from those that are there, memory that is
-- not advised MADV_FREE keeps its words, and a word in memory that is may become zero at any time.
pub record IsGranting (sys : System) : Type 0 where
  pub page_lem : sys.page_size ≡ page
  pub maps : (calls : List Call) (len : ℕ) → sys.mmap calls len ≢ sys.map_failed
  pub apart :
      (calls : List Call) (len q : ℕ)
      → in_any (held calls) q ≡ true
      → within (sys.mmap calls len) len q ≡ false
  pub advises :
      (calls : List Call) (at len : ℕ) (advice : Advice) → sys.madvise calls at len advice ≡ 0
  pub unmaps : (calls : List Call) (at len : ℕ) → sys.munmap calls at len ≡ 0
  pub keeps : (h : Host) (ms q : ℕ) → freeable h.calls q ≡ false → sys.later h ms q ≡ h.words q
  pub frees : (h : Host) (ms q : ℕ) → (sys.later h ms q ≡ h.words q) ⊎ (sys.later h ms q ≡ 0)
  pub reads : (h : Host) → (l : Ledger) × (read (sys.task_info h) ≡ ok l)
  pub exe_lem : sys.exe ≡ true
  pub spawns : (value : String) → sys.spawn value ≡ child sys.chunk value

module _ (sys : System) (grants : IsGranting sys) where
  pub mmap_anon-ok :
      (size : ℕ) (h : Host)
      → mmap_anon sys size h
        ≡ ok (
          sys.mmap h.calls size,
          record h {
            words = put h.words (sys.mmap h.calls size) size (λ _. 0);
            calls = mapped (sys.mmap h.calls size) size ∷ h.calls;
          },
        )
  unfolding mmap_anon
  mmap_anon-ok size h =
      let e : (sys.mmap h.calls size == sys.map_failed) ≡ false =
        ground (arith, grants.maps h.calls size) in
      rw (e, if◌then◌else◌) refl

  pub madvise-ok :
      (what : String) (at size : ℕ) (advice : Advice) (h : Host)
      → madvise sys what at size advice h
        ≡ ok (tt, record h { calls = advised at size advice ∷ h.calls })
  unfolding madvise
  madvise-ok what at size advice h = rw (grants.advises h.calls at size advice) refl

  -- A reading changes nothing.
  pub read_ledger-ok :
      (h : Host) → (l : Ledger) × (read (sys.task_info h) ≡ ok l) × (read_ledger sys h ≡ ok (l, h))
  unfolding read_ledger
  read_ledger-ok h = let (l, e) = grants.reads h in (l, e, rw (e, read_ledger) refl)

-- Inside a buffer, and outside.
in_range : (at size off : ℕ) → off < size → within at size (at + off) ≡ true
in_range at size off lt = ground arith

pub put-inside :
    (words : ℕ → ℕ) (at size : ℕ) (buffer : ℕ → ℕ) (off : ℕ)
    → off < size
    → put words at size buffer (at + off) ≡ buffer off
put-inside words at size buffer off lt =
    rw (in_range at size off lt, if◌then◌else◌) (ap buffer (omega arith))

pub put-outside :
    (words : ℕ → ℕ) (at size : ℕ) (buffer : ℕ → ℕ) (q : ℕ)
    → within at size q ≡ false
    → put words at size buffer q ≡ words q
put-outside words at size buffer q out = rw (out, if◌then◌else◌) refl
