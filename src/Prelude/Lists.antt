-- ===== src/Prelude/Lists.antt =====
-- Lists over the native numbers, and predicates on lists by recursion.
use Prim.Native.Nat.{ℕ, zero, suc, ◌+◌, ◌≤◌}
use mathlib.Core.Path.{◌≡◌, refl, ap}
use mathlib.Core.Bool.{Bool}
use mathlib.Core.Logic.{◌≢◌, ◌⊎◌, inl, inr}
use mathlib.Core.Option.{Option, none, some}
use mathlib.Core.List.{List, [], ◌∷◌, ◌++◌, map}
use native.Mathlib.Omega.{arith}
use taas_server_py.Prelude.Tests.{if◌then◌else◌}

module _ {ℓ} {A : Type ℓ} where
  abbrev pub length : List A → ℕ
  length [] = 0
  length (x ∷ xs) = suc (length xs)

  abbrev pub get_elem? : List A → ℕ → Option A
  get_elem? [] i = none
  get_elem? (x ∷ xs) zero = some x
  get_elem? (x ∷ xs) (suc i) = get_elem? xs i

  -- Applies `f` at one position; out of range nothing changes.
  abbrev pub modify_at : ℕ → (A → A) → List A → List A
  modify_at i f [] = []
  modify_at zero f (x ∷ xs) = f x ∷ xs
  modify_at (suc i) f (x ∷ xs) = x ∷ modify_at i f xs

  abbrev pub keep : (A → Bool) → List A → List A
  keep p [] = []
  keep p (x ∷ xs) = let rest = keep p xs in if p x then x ∷ rest else rest

  abbrev pub count : (A → Bool) → List A → ℕ
  count p [] = 0
  count p (x ∷ xs) = (if p x then 1 else 0) + count p xs

  abbrev pub take : ℕ → List A → List A
  take zero xs = []
  take (suc n) [] = []
  take (suc n) (x ∷ xs) = x ∷ take n xs

  pub length-append : (xs ys : List A) → length (xs ++ ys) ≡ length xs + length ys
  length-append [] ys = omega arith
  length-append (x ∷ xs) ys = omega (arith, length-append xs ys)

  pub length-take : (n : ℕ) (xs : List A) → length (take n xs) ≤ n
  length-take zero xs = omega arith
  length-take (suc n) [] = omega arith
  length-take (suc n) (x ∷ xs) = omega (arith, length-take n xs)

  pub count-le-length : (p : A → Bool) (xs : List A) → count p xs ≤ length xs
  count-le-length p [] = omega arith
  count-le-length p (x ∷ xs) = ground (arith, count-le-length p xs)

  pub count-append : (p : A → Bool) (xs ys : List A) → count p (xs ++ ys) ≡ count p xs + count p ys
  count-append p [] ys = omega arith
  count-append p (x ∷ xs) ys = omega (arith, count-append p xs ys)

  pub get_elem?-concat :
      (i : ℕ) (x y : A) (xs : List A)
      → get_elem? (xs ++ x ∷ []) i ≡ some y
      → (get_elem? xs i ≡ some y) ⊎ ((i ≡ length xs) × (y ≡ x))
  get_elem?-concat zero x y [] h = inr (refl, cc)
  get_elem?-concat (suc i) x y [] h = absurd cc
  get_elem?-concat zero x y (z ∷ xs) h = inl h
  get_elem?-concat (suc i) x y (z ∷ xs) h = elim (get_elem?-concat i x y xs h) [
    | inl old ↦ inl old
    | inr (last, same) ↦ inr (omega (arith, last), same)
  ]

  pub get_elem?-append :
      (i : ℕ) (xs ys : List A) {x : A} → get_elem? xs i ≡ some x → get_elem? (xs ++ ys) i ≡ some x
  get_elem?-append i [] ys h = absurd cc
  get_elem?-append zero (x ∷ xs) ys h = h
  get_elem?-append (suc i) (x ∷ xs) ys h = get_elem?-append i xs ys h

  pub get_elem?-modify_at_self :
      (i : ℕ) (f : A → A) (xs : List A) {x : A}
      → get_elem? xs i ≡ some x
      → get_elem? (modify_at i f xs) i ≡ some (f x)
  get_elem?-modify_at_self i f [] h = absurd cc
  get_elem?-modify_at_self zero f (x ∷ xs) h = cc
  get_elem?-modify_at_self (suc i) f (x ∷ xs) h = get_elem?-modify_at_self i f xs h

  pub get_elem?-modify_at_other :
      (i j : ℕ) (f : A → A) (xs : List A) {x : A}
      → i ≢ j
      → get_elem? xs j ≡ some x
      → get_elem? (modify_at i f xs) j ≡ some x
  get_elem?-modify_at_other i j f [] other h = absurd cc
  get_elem?-modify_at_other zero zero f (x ∷ xs) other h = absurd (other refl)
  get_elem?-modify_at_other zero (suc j) f (x ∷ xs) other h = h
  get_elem?-modify_at_other (suc i) zero f (x ∷ xs) other h = h
  get_elem?-modify_at_other (suc i) (suc j) f (x ∷ xs) other h =
      get_elem?-modify_at_other i j f xs (λ e. other (ap suc e)) h

  -- what stands at `j` after a change at `i`
  pub get_elem?-modify_at :
      (i j : ℕ) (f : A → A) (y : A) (xs : List A)
      → get_elem? (modify_at i f xs) j ≡ some y
      → ((i ≡ j) × ((x : A) × (get_elem? xs j ≡ some x) × (y ≡ f x)))
        ⊎ ((i ≢ j) × (get_elem? xs j ≡ some y))
  get_elem?-modify_at i j f y [] h = absurd cc
  get_elem?-modify_at zero zero f y (x ∷ xs) h = inl (refl, (x, refl, cc))
  get_elem?-modify_at zero (suc j) f y (x ∷ xs) h = inr (λ e. absurd (omega (arith, e)), h)
  get_elem?-modify_at (suc i) zero f y (x ∷ xs) h = inr (λ e. absurd (omega (arith, e)), h)
  get_elem?-modify_at (suc i) (suc j) f y (x ∷ xs) h = elim (get_elem?-modify_at i j f y xs h) [
    | inl (same, found) ↦ inl (ap suc same, found)
    | inr (other, found) ↦ inr (λ e. other (omega (arith, e)), found)
  ]

  pub count-modify_at :
      (p : A → Bool) (i : ℕ) (f : A → A) (x : A) (xs : List A)
      → get_elem? xs i ≡ some x
      → count p (modify_at i f xs) + (if p x then 1 else 0)
        ≡ count p xs + (if p (f x) then 1 else 0)
  count-modify_at p i f x [] h = absurd cc
  count-modify_at p zero f x (z ∷ xs) h = let same : z ≡ x = cc in rw same (omega arith)
  count-modify_at p (suc i) f x (z ∷ xs) h = omega (arith, count-modify_at p i f x xs h)

module _ {ℓ κ} {A : Type ℓ} (P : A → Type κ) where
  abbrev pub All : List A → Type κ
  All [] = Unit
  All (x ∷ xs) = P x × All xs

  pub All-append : (xs ys : List A) → All xs → All ys → All (xs ++ ys)
  All-append [] ys hx hy = hy
  All-append (x ∷ xs) ys hx hy = (hx.0, All-append xs ys hx.1 hy)

-- Two lists of the same length whose entries are related one by one.
module _ {ℓ κ} {A : Type ℓ} (R : A → A → Type κ) where
  pub data Pointwise : List A → List A → Type (ℓ ⊔ κ) where
    done : Pointwise [] []
    also : {x y : A} {xs ys : List A} → R x y → Pointwise xs ys → Pointwise (x ∷ xs) (y ∷ ys)

module _ {ℓ κ} {A : Type ℓ} {R : A → A → Type κ} where
  pub Pointwise-map :
      (f : A → A) → ((x : A) → R x (f x)) → (xs : List A) → Pointwise R xs (map f xs)
  Pointwise-map f h [] = done
  Pointwise-map f h (x ∷ xs) = also (h x) (Pointwise-map f h xs)

  pub Pointwise-refl : ((x : A) → R x x) → (xs : List A) → Pointwise R xs xs
  Pointwise-refl h [] = done
  Pointwise-refl h (x ∷ xs) = also (h x) (Pointwise-refl h xs)

pub Pointwise-All {ℓ κ μ} :
    {A : Type ℓ} {R : A → A → Type κ} (P : A → Type μ)
    → ((x y : A) → R x y → P x → P y)
    → {xs ys : List A} → Pointwise R xs ys
    → All P xs
    → All P ys
Pointwise-All P keeps done h = h
Pointwise-All P keeps (also {x} {y} r rest) h = (keeps x y r h.0, Pointwise-All P keeps rest h.1)

pub Pointwise-trans {ℓ κ} :
    {A : Type ℓ} {R S T : A → A → Type κ}
    → ((x y z : A) → R x y → S y z → T x z)
    → {xs ys zs : List A} → Pointwise R xs ys
    → Pointwise S ys zs
    → Pointwise T xs zs
Pointwise-trans t done done = done
Pointwise-trans t (also {x = x} {y = y} r rest) (also {y = z} s more) =
    also (t x y z r s) (Pointwise-trans t rest more)

pub Pointwise-map-All {ℓ κ μ} :
    {A : Type ℓ} {R : A → A → Type κ} (P : A → Type μ) (f : A → A)
    → ((x : A) → P x → R x (f x))
    → (xs : List A) → All P xs
    → Pointwise R xs (map f xs)
Pointwise-map-All P f h [] hs = done
Pointwise-map-All P f h (x ∷ xs) hs = also (h x hs.0) (Pointwise-map-All P f h xs hs.1)
