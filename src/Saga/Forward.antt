-- ===== src/Saga/Forward.antt =====
-- The forward part of a saga: running the steps that succeed.
use native.Mathlib.Nat.{zero-add, add-zero}
use taas_server_py.Prelude.{
  ap, ℕ, suc, ◌+◌, String, Bool, none, List, [], ◌∷◌, map, get_elem?, modify_at, length, ◌≡◌, refl,
  arith, ap, ◌∙◌, sym,
}
use taas_server_py.Exec.{Result, ok}
use taas_server_py.Saga.{
  Step, Definition, StepRecord, Instance, Run, pending_record, forward, begin, checkpoint, set_step,
  running, completed,
}

-- `onto xs ys` is the reversal of `xs`, followed by `ys`.
abbrev pub onto {ℓ} : {A : Type ℓ} → List A → List A → List A
onto [] ys = ys
onto (x ∷ xs) ys = onto xs (x ∷ ys)

add-suc_shift : (m n : ℕ) → suc m + n ≡ m + suc n
add-suc_shift m n = omega arith

pub get_elem?-onto {ℓ} :
    {A : Type ℓ} (xs ys : List A) (n : ℕ) → get_elem? (onto xs ys) (length xs + n) ≡ get_elem? ys n
get_elem?-onto [] ys n = rw zero-add
get_elem?-onto (x ∷ xs) ys n = rw (add-suc_shift (length xs) n) (get_elem?-onto xs (x ∷ ys) (suc n))

pub modify_at-onto {ℓ} :
    {A : Type ℓ} (f : A → A) (xs ys : List A) (n : ℕ)
    → modify_at (length xs + n) f (onto xs ys) ≡ onto xs (modify_at n f ys)
modify_at-onto f [] ys n = rw zero-add
modify_at-onto f (x ∷ xs) ys n =
    rw (add-suc_shift (length xs) n) (modify_at-onto f xs (x ∷ ys) (suc n))

-- the same at the position where `onto` joins its lists
pub get_elem?_here {ℓ} :
    {A : Type ℓ} (xs ys : List A) (k : ℕ)
    → k ≡ length xs
    → get_elem? (onto xs ys) k ≡ get_elem? ys 0
get_elem?_here xs ys k h = rw (h ∙ sym (add-zero (length xs))) (get_elem?-onto xs ys 0)

pub modify_at_here {ℓ} :
    {A : Type ℓ} (f : A → A) (xs ys : List A) (k : ℕ)
    → k ≡ length xs
    → modify_at k f (onto xs ys) ≡ onto xs (modify_at 0 f ys)
modify_at_here f xs ys k h = rw (h ∙ sym (add-zero (length xs))) (modify_at-onto f xs ys 0)

pub length-map {ℓ κ} :
    {A : Type ℓ} {B : Type κ} (f : A → B) (xs : List A) → length (map f xs) ≡ length xs
length-map f [] = refl
length-map f (x ∷ xs) = ap suc (length-map f xs)

pub map-onto {ℓ κ} :
    {A : Type ℓ} {B : Type κ} (f : A → B) (xs ys : List A)
    → map f (onto xs ys) ≡ onto (map f xs) (map f ys)
map-onto f [] ys = refl
map-onto f (x ∷ xs) ys = map-onto f xs (x ∷ ys)

abbrev pub completed_record : {C : Type 0} → Step C → StepRecord
completed_record step = record { name = step.name; status = completed; error = none }

-- `Performed done c d`: the actions of the steps `done`, of which the latest comes first, all
-- succeed and take `c` to `d`.
abbrev pub Performed : {C : Type 0} → List (Step C) → C → C → Type 0
Performed [] c d = c ≡ d
Performed {C} (step ∷ earlier) c d = (m : C) × Performed earlier c m × (step.action m ≡ (ok tt, d))

module _ {C : Type 0} (raise_on_abort : Bool) (clock : C → ℕ) (definition : Definition C) where
  -- the run has come to the step behind `done`, with `rest` to do
  pub record Reached (id : String) (done rest : List (Step C)) (c : C) (r : Run C) : Type 0 where
    pub steps : r.inst.steps ≡ onto (map completed_record done) (map pending_record rest)
    pub status : r.inst.status ≡ running
    pub identity : r.inst.id ≡ id
    pub context : r.context ≡ c

  abbrev go : ℕ → List (Step C) → Run C → Result Instance × Run C
  go = forward raise_on_abort clock definition

  abbrev start : String → C → Run C
  start = begin raise_on_abort clock definition

  -- the state after the step at position `i` has succeeded
  abbrev moved : ℕ → C → Run C → Run C
  moved i d r = checkpoint raise_on_abort clock definition (
      set_step raise_on_abort clock definition i (λ s. record s { status = completed })
        (record r { context = d }))

  forward_step :
      (i : ℕ) (step : Step C) (rest : List (Step C)) (d : C) (r : Run C)
      → step.action r.context ≡ (ok tt, d)
      → go i (step ∷ rest) r ≡ go (suc i) rest (moved i d r)
  unfolding forward
  forward_step i step rest d r e = ground arith

  moved-Reached :
      (id : String) (step : Step C) (earlier rest : List (Step C)) (c d : C) (r : Run C)
      → Reached id earlier (step ∷ rest) c r
      → Reached id (step ∷ earlier) rest d (moved (length earlier) d r)
  moved-Reached id step earlier rest c d r h = record {
    steps =
        ap (modify_at (length earlier) (λ s. record s { status = completed })) h.steps
        ∙ modify_at_here (λ s. record s { status = completed }) (map completed_record earlier)
            (pending_record step ∷ map pending_record rest) (length earlier)
            (sym (length-map completed_record earlier));
    status = h.status;
    identity = h.identity;
    context = refl;
  }

  pub forward-Performed :
      (id : String) (done rest : List (Step C)) (c d : C)
      → definition.steps ≡ onto done rest
      → Performed done c d
      → (r : Run C) × Reached id done rest d r
        × (go 0 (onto done rest) (start id c) ≡ go (length done) rest r)
  forward-Performed id [] rest c d h p =
      (start id c, record { steps = rw h; status = refl; identity = refl; context = p }, refl)
  forward-Performed id (step ∷ earlier) rest c d h (m, p, e) =
      let (r, reached, same) = forward-Performed id earlier (step ∷ rest) c m h p in
      (
        moved (length earlier) d r,
        moved-Reached id step earlier rest m d r reached,
        same ∙ forward_step (length earlier) step rest d r (rw reached.context e),
      )
