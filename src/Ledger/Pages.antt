-- ===== src/Ledger/Pages.antt =====
-- The page loops of the repository, `for off in (lo..hi).step_by(PAGE)`: the offsets that they
-- visit, a write at each and a count over them (PAGE is crates/ledger/src/lib.rs).
use macos_vm_memory_ratchet.Prelude.{
  ℕ, zero, suc, ◌+◌, ◌-◌, ◌*◌, ◌/◌, ◌%◌, ◌≤◌, ◌<◌, ◌≡◌, refl, ap, ◌∙◌, arith, Bool, true, false,
  ◌||◌, ◌&&◌, List, [], ◌∷◌, ltb, leb, ◌==◌, length, if◌then◌else◌,
}

abbrev pub page : ℕ
page = 16 * 1024

-- The offset that `n` steps start from, and so on.
unfoldable pub offsets : ℕ → ℕ → ℕ → List ℕ
offsets zero off stride = []
offsets (suc n) off stride = off ∷ offsets n (off + stride) stride

-- `(lo..hi).step_by(stride)`.
unfoldable pub step_by : ℕ → ℕ → ℕ → List ℕ
unfolding offsets
step_by lo hi stride = offsets ((hi - lo + (stride - 1)) / stride) lo stride

-- A buffer is the word at each offset.
abbrev pub store : (ℕ → ℕ) → ℕ → ℕ → ℕ → ℕ
store words off value q = if q == off then value else words q

-- `for off in … { *(ptr + off) = value off }`.
unfoldable pub write_each : (ℕ → ℕ) → List ℕ → (ℕ → ℕ) → ℕ → ℕ
write_each value [] words = words
write_each value (off ∷ rest) words = write_each value rest (store words off (value off))

abbrev pub contains : List ℕ → ℕ → Bool
contains [] q = false
contains (off ∷ rest) q = q == off || contains rest q

-- How many of the offsets satisfy a test.
abbrev pub count : (ℕ → Bool) → List ℕ → ℕ
count test [] = 0
count test (off ∷ rest) = (if test off then 1 else 0) + count test rest

abbrev pub All : (ℕ → Type 0) → List ℕ → Type 0
All P [] = Unit {0}
All P (off ∷ rest) = P off × All P rest

pub write_each_at :
    (value : ℕ → ℕ) (offs : List ℕ) (words : ℕ → ℕ) (q : ℕ)
    → write_each value offs words q ≡ (if contains offs q then value q else words q)
unfolding write_each
write_each_at value [] words q = refl
write_each_at value (off ∷ rest) words q =
    ground (arith, write_each_at value rest (store words off (value off)) q)

pub All-mono : (P Q : ℕ → Type 0) (offs : List ℕ) → ((q : ℕ) → P q → Q q) → All P offs → All Q offs
All-mono P Q [] h a = tt
All-mono P Q (off ∷ rest) h (p, a) = (h off p, All-mono P Q rest h a)

pub All-both :
    (P Q : ℕ → Type 0) (offs : List ℕ) → All P offs → All Q offs → All (λ q. P q × Q q) offs
All-both P Q [] a b = tt
All-both P Q (off ∷ rest) (p, a) (q, b) = ((p, q), All-both P Q rest a b)

pub All-contains : (offs : List ℕ) → All (λ q. contains offs q ≡ true) offs
All-contains [] = tt
All-contains (off ∷ rest) =
    (ground arith, All-mono _ _ rest (λ q h. ground arith) (All-contains rest))

pub count_congr :
    (p q : ℕ → Bool) (offs : List ℕ) → All (λ off. p off ≡ q off) offs → count p offs ≡ count q offs
count_congr p q [] h = refl
count_congr p q (off ∷ rest) (h, hs) = ground (arith, count_congr p q rest hs)

pub count-All :
    (p : ℕ → Bool) (offs : List ℕ) → All (λ off. p off ≡ true) offs → count p offs ≡ length offs
count-All p [] h = refl
count-All p (off ∷ rest) (h, hs) = ground (arith, count-All p rest hs)

pub length-offsets : (n off stride : ℕ) → length (offsets n off stride) ≡ n
unfolding offsets
length-offsets zero off stride = refl
length-offsets (suc n) off stride = ap suc (length-offsets n (off + stride) stride)

contains-offsets :
    (n off q : ℕ)
    → contains (offsets n off page) q
      ≡ (leb off q && ltb q (off + n * page) && (q - off) % page == 0)
unfolding offsets
contains-offsets zero off q = ground arith
contains-offsets (suc n) off q = ground (arith, contains-offsets n (off + page) q)

-- The offsets of a page loop are those of its range that are whole pages from its start.
pub contains-step_by :
    (lo hi q : ℕ) → contains (step_by lo hi page) q ≡ (leb lo q && ltb q hi && (q - lo) % page == 0)
unfolding step_by
contains-step_by lo hi q = contains-offsets ((hi - lo + (page - 1)) / page) lo q ∙ ground arith

pub step_by-page :
    (lo hi : ℕ) → All (λ q. (lo ≤ q) × (q < hi) × ((q - lo) % page ≡ 0)) (step_by lo hi page)
step_by-page lo hi =
    All-mono _ _ (step_by lo hi page) (λ q h. ground (arith, contains-step_by lo hi q))
      (All-contains (step_by lo hi page))

-- A loop over whole pages goes round once for each.
pub length-step_by : (pages : ℕ) → length (step_by 0 (pages * page) page) ≡ pages
unfolding step_by
length-step_by pages = length-offsets _ 0 page ∙ omega arith
