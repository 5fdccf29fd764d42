-- ===== src/Saga/Saved.antt =====
-- Every run of a saga comes to a final status, and the last save holds its final state.
use mathlib.Core.Path.{subst₂}
use taas_server_py.Prelude.{
  inr, inl, ◌&&◌, Bool-cases, ℕ, zero, suc, ◌+◌, ◌≤◌, ◌<◌, String, Bool, true, false, Option, none,
  some, List, [], ◌∷◌, ◌++◌, get_elem?, modify_at, length, ◌≡◌, refl, arith, ap, ◌∙◌, sym,
}
use taas_server_py.Exec.{Exn, Result, ok, err, Action}
use taas_server_py.Saga.{
  is_aborted, compensated_with, SagaStatus, StepStatus, Step, Definition, Instance, Run, compensate,
  compensate_step, compensate_with, checkpoint, set_step, forward, abort, settle, run,
  pending_record,
}
use taas_server_py.Saga.Forward.{length-map}

abbrev pub get_last? {ℓ} : {A : Type ℓ} → List A → Option A
get_last? [] = none
get_last? (x ∷ []) = some x
get_last? (x ∷ y ∷ ys) = get_last? (y ∷ ys)

get_last?-append {ℓ} : {A : Type ℓ} (xs : List A) (y : A) → get_last? (xs ++ y ∷ []) ≡ some y
get_last?-append [] y = refl
get_last?-append (x ∷ []) y = refl
get_last?-append (x ∷ z ∷ xs) y = get_last?-append (z ∷ xs) y

length-modify_at {ℓ} :
    {A : Type ℓ} (i : ℕ) (f : A → A) (xs : List A) → length (modify_at i f xs) ≡ length xs
length-modify_at i f [] = refl
length-modify_at zero f (x ∷ xs) = refl
length-modify_at (suc i) f (x ∷ xs) = ap suc (length-modify_at i f xs)

get_elem?_total {ℓ} :
    {A : Type ℓ} (xs : List A) (i : ℕ) → i < length xs → (x : A) × (get_elem? xs i ≡ some x)
get_elem?_total [] i h = absurd (omega arith)
get_elem?_total (x ∷ xs) zero h = (x, refl)
get_elem?_total (x ∷ xs) (suc i) h = get_elem?_total xs i (omega arith)

abbrev pub IsFinal : SagaStatus → Type 0
IsFinal SagaStatus.running = ⊥
IsFinal SagaStatus.compensating = ⊥
IsFinal _ = Unit

pub record Settled {C : Type 0} (r : Run C) : Type 0 where
  pub final : IsFinal r.inst.status
  pub saved : get_last? r.journal ≡ some (r.inst, r.context)

module _ {C : Type 0} (raise_on_abort : Bool) (clock : C → ℕ) (definition : Definition C) where
  checkpoint-Settled :
      (r : Run C) → IsFinal r.inst.status → Settled (checkpoint raise_on_abort clock definition r)
  checkpoint-Settled r h = record { final = h; saved = get_last?-append r.journal _ }

  abbrev Fits : Run C → Type 0
  Fits r = length r.inst.steps ≡ length definition.steps

  -- after a round the undoing goes on, or the run has settled
  abbrev Continues : Result (Unit {0}) × Run C → Type 0
  Continues (ok _, r) = Fits r
  Continues (err exn, r) = Settled r

  compensated_with-Continues :
      (i : ℕ) (step : Step C) (ended : Result (Unit {0}) × C) (r : Run C)
      → Fits r
      → Continues (compensated_with raise_on_abort clock definition i step ended r)
  compensated_with-Continues i step (ok _, c) r fits = length-modify_at i _ r.inst.steps ∙ fits
  compensated_with-Continues i step (err exn, c) r fits = record {
    final = tt;
    saved = get_last?-append r.journal _;
  }

  compensate_with-Continues :
      (i : ℕ) (step : Step C) (done : Bool) (found : Option (Action C (Unit {0}))) (r : Run C)
      → Fits r
      → Continues (compensate_with raise_on_abort clock definition i step done found r)
  compensate_with-Continues i step true (some undo) r fits =
      compensated_with-Continues i step (undo r.context) r fits
  compensate_with-Continues i step true none r fits = fits
  compensate_with-Continues i step false found r fits = fits

  abbrev round : ℕ → Run C → Result (Unit {0}) × Run C
  round i r =
      compensate_step raise_on_abort clock definition i (get_elem? definition.steps i)
        (get_elem? r.inst.steps i) r

  round-Continues :
      (i : ℕ) (r : Run C) → i < length definition.steps → Fits r → Continues (round i r)
  round-Continues i r h fits =
      let (step, es) = get_elem?_total definition.steps i h in
      let (rec, er) = get_elem?_total r.inst.steps i (omega arith) in
      subst₂ (λ a b. Continues (compensate_step raise_on_abort clock definition i a b r)) (sym es)
        (sym er) (compensate_with-Continues i step _ step.compensation r fits)

  abbrev after_round : ℕ → Result (Unit {0}) × Run C → Result (Unit {0}) × Run C
  after_round i (res, r') = elim res [
    | ok _ ↦ compensate raise_on_abort clock definition i r'
    | err exn ↦ (err exn, r')
  ]

  go_on :
      (i : ℕ) (p : Result (Unit {0}) × Run C)
      → Continues p
      → ((r : Run C) → Fits r → Settled (compensate raise_on_abort clock definition i r).1)
      → Settled (after_round i p).1
  go_on i (ok _, r) fits rest = rest r fits
  go_on i (err exn, r) settled rest = settled

  compensate-Settled :
      (i : ℕ) (r : Run C)
      → i ≤ length definition.steps
      → Fits r
      → Settled (compensate raise_on_abort clock definition i r).1
  unfolding compensate
  compensate-Settled zero r h fits = record { final = tt; saved = get_last?-append r.journal _ }
  compensate-Settled (suc i) r h fits =
      go_on i (round i r) (round-Continues i r h fits)
        (λ r' fits'. compensate-Settled i r' (omega arith) fits')

  settle-Settled :
      (step : Step C) (exn : Exn) (p : Result (Unit {0}) × Run C)
      → Settled p.1
      → Settled (let (res, r) = p in settle raise_on_abort clock definition step exn res r).1
  settle-Settled step exn (ok _, r) h =
      elim (Bool-cases
        (raise_on_abort && is_aborted raise_on_abort clock definition r.inst.status)) [
          | inl raising ↦ rw raising h
          | inr returning ↦ rw returning h
        ]
  settle-Settled step exn (err x, r) h = h

  abort-Settled :
      (i : ℕ) (step : Step C) (exn : Exn) (r : Run C)
      → i ≤ length definition.steps
      → Fits r
      → Settled (abort raise_on_abort clock definition i step exn r).1
  unfolding abort
  abort-Settled i step exn r h fits =
      settle-Settled step exn _
        (compensate-Settled i _ h (length-modify_at i _ r.inst.steps ∙ fits))

  abbrev pub after_step :
      ℕ → Step C → List (Step C) → Run C → Result (Unit {0}) → C → Result Instance × Run C
  after_step i step steps r res c = elim res [
    | ok _ ↦ forward raise_on_abort clock definition (suc i) steps (
        checkpoint raise_on_abort clock definition (
          set_step raise_on_abort clock definition i
            (λ s. record s { status = StepStatus.completed }) (record r { context = c })))
    | err exn ↦ abort raise_on_abort clock definition i step exn (record r { context = c })
  ]

  forward-Settled :
      (i : ℕ) (steps : List (Step C)) (r : Run C)
      → i + length steps ≡ length definition.steps
      → Fits r
      → Settled (forward raise_on_abort clock definition i steps r).1
  unfolding forward
  forward-Settled i [] r h fits = record { final = tt; saved = get_last?-append r.journal _ }
  forward-Settled i (step ∷ steps) r h fits =
      moved (step.action r.context).0 (step.action r.context).1
        (λ r' fits'. forward-Settled (suc i) steps r' (omega arith) fits')
    where
      moved :
          (res : Result (Unit {0})) (c : C)
          → ((r' : Run C)
              → Fits r'
              → Settled (forward raise_on_abort clock definition (suc i) steps r').1)
          → Settled (after_step i step steps r res c).1
      moved (ok _) c rest = rest _ (length-modify_at i _ r.inst.steps ∙ fits)
      moved (err exn) c rest =
          abort-Settled i step exn (record r { context = c }) (omega arith) fits

  -- Whatever its steps do, a run ends as completed, aborted or failed, and what was saved last is
  -- its final instance, with the final context.
  pub run-Settled : (id : String) (c : C) → Settled (run raise_on_abort clock definition id c).1
  unfolding run
  run-Settled id c =
      forward-Settled 0 definition.steps _ (omega arith)
        (length-map pending_record definition.steps)
