-- ===== src/Prelude/Panics.antt =====
-- What a Rust call comes to: a value, or a panic with the fixed text of its message. A loop of the
-- model that runs on fuel may also stop for want of it.
use Prim.Native.String.{String}
use mathlib.Core.Logic.{◌⊎◌, inl, inr}
use mathlib.Core.Bool.{Bool, true, false}
use mathlib.Core.Path.{◌≡◌, refl, ap, fun_ext}

pub data Result {ℓ} (A : Type ℓ) : Type ℓ where
  ok : A → Result A
  panicked : String → Result A
  out_of_fuel : Result A

-- The computations of a thread over a state that it alone changes.
abbrev pub Run {ℓ κ} : Type ℓ → Type κ → Type (ℓ ⊔ κ)
Run S A = S → Result (A × S)

abbrev pub pure {ℓ κ} : {S : Type ℓ} {A : Type κ} → A → Run S A
pure a s = ok (a, s)

infixl 5 ◌>>=◌ ◌>>◌
abbrev pub ◌>>=◌ {ℓ κ μ} :
    {S : Type ℓ} {A : Type κ} {B : Type μ} → Run S A → (A → Run S B) → Run S B
◌>>=◌ m f s = elim (m s) [
  | ok (a, t) ↦ f a t
  | panicked what ↦ panicked what
  | out_of_fuel ↦ out_of_fuel
]

abbrev pub ◌>>◌ {ℓ κ} : {S : Type ℓ} {B : Type κ} → Run S (Unit {0}) → Run S B → Run S B
m >> k = m >>= λ _. k

-- `assert!`.
abbrev pub assert {ℓ} : {S : Type ℓ} → Bool → String → Run S (Unit {0})
assert true what s = ok (tt, s)
assert false what s = panicked what

-- A first step that returns.
pub >>=-ok {ℓ κ μ} :
    {S : Type ℓ} {A : Type κ} {B : Type μ} (m : Run S A) (f : A → Run S B) (s t : S) (a : A)
    → m s ≡ ok (a, t)
    → (m >>= f) s ≡ f a t
>>=-ok m f s t a e = rw (e, ◌>>=◌)

-- If two steps return, so does the first.
pub >>-eq-ok {ℓ κ} :
    {S : Type ℓ} {B : Type κ} (m : Run S (Unit {0})) (f : Run S B) (s t : S) {b : B}
    → (m >> f) s ≡ ok (b, t)
    → (u : S) × (m s ≡ ok (tt, u)) × (f u ≡ ok (b, t))
>>-eq-ok {S = S} {B = B} m f s t {b = b} h = go (m s) refl h
  where
    go :
        (r : Result (Unit {0} × S))
        → m s ≡ r
        → (elim r as (λ _. Result (B × S)) [
          | ok (a, u) ↦ f u
          | panicked what ↦ panicked what
          | out_of_fuel ↦ out_of_fuel
        ])
          ≡ ok (b, t)
        → (u : S) × (m s ≡ ok (tt, u)) × (f u ≡ ok (b, t))
    go (ok (a, u)) e h' = (u, e, h')
    go (panicked what) e h' = absurd (cc)
    go out_of_fuel e h' = absurd (cc)

pub >>-congr {ℓ κ} :
    {S : Type ℓ} {B : Type κ} (m : Run S (Unit {0})) (f g : Run S B) (s : S)
    → ((t : S) → f t ≡ g t)
    → (m >> f) s ≡ (m >> g) s
>>-congr {B = B} m f g s h = ap (λ k. (m >> k) s) (fun_ext h)

pub Result-cases {ℓ} :
    {A : Type ℓ} (r : Result A)
    → ((a : A) × (r ≡ ok a)) ⊎ (((what : String) × (r ≡ panicked what)) ⊎ (r ≡ out_of_fuel))
Result-cases (ok a) = inl (a, refl)
Result-cases (panicked what) = inr (inl (what, refl))
Result-cases out_of_fuel = inr (inr refl)

-- A computation that returns, with what then holds.
abbrev pub Returns {ℓ κ} : {S : Type ℓ} {A : Type κ} → (A → S → Type 0) → Result (A × S) → Type 0
Returns Q (ok (a, s)) = Q a s
Returns Q (panicked what) = ⊥
Returns Q out_of_fuel = ⊥

pub Returns->>= {ℓ κ μ} :
    {S : Type ℓ} {A : Type κ} {B : Type μ} (m : Run S A) (f : A → Run S B) (Q : A → S → Type 0)
    (R : B → S → Type 0) (s : S)
    → Returns Q (m s)
    → ((a : A) (t : S) → Q a t → Returns R (f a t))
    → Returns R ((m >>= f) s)
Returns->>= {S = S} {A = A} {B = B} m f Q R s h next = go (m s) h
  where
    go :
        (r : Result (A × S))
        → Returns Q r
        → Returns R (elim r as (λ _. Result (B × S)) [
          | ok (a, u) ↦ f a u
          | panicked what ↦ panicked what
          | out_of_fuel ↦ out_of_fuel
        ])
    go (ok (a, u)) q = next a u q
    go (panicked what) q = elim q [ ]
    go out_of_fuel q = elim q [ ]

-- A computation that returns has a result to show.
pub Returns-ok {ℓ κ} :
    {S : Type ℓ} {A : Type κ} (Q : A → S → Type 0) (r : Result (A × S))
    → Returns Q r
    → (a : A) × ((s : S) × (r ≡ ok (a, s)) × Q a s)
Returns-ok Q (ok (a, s)) q = (a, (s, refl, q))
Returns-ok Q (panicked what) q = elim q [ ]
Returns-ok Q out_of_fuel q = elim q [ ]

pub Returns-mono {ℓ κ} :
    {S : Type ℓ} {A : Type κ} (Q R : A → S → Type 0) (r : Result (A × S))
    → ((a : A) (s : S) → Q a s → R a s)
    → Returns Q r
    → Returns R r
Returns-mono Q R (ok (a, s)) h q = h a s q
Returns-mono Q R (panicked what) h q = q
Returns-mono Q R out_of_fuel h q = q
