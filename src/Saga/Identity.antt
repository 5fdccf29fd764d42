-- ===== src/Saga/Identity.antt =====
-- Every state that a run saves has the id, the name and the creation time with which it began.
use taas_server_py.Prelude.{
  ℕ, zero, suc, String, Bool, true, false, Option, none, some, List, [], ◌∷◌, ◌++◌, All, All-append,
  get_elem?, ◌≡◌, refl, ◌∙◌, Bool-cases, inl, inr, ◌&&◌,
}
use taas_server_py.Exec.{Exn, Result, ok, err, Action}
use taas_server_py.Saga.Saved.{after_step}
use taas_server_py.Saga.{
  Step, StepRecord, Instance, Run, Definition, compensated_with, compensate_with, compensate_step,
  compensate, abort, settle, forward, run, is_aborted, begin,
}

-- a saved state belongs to the saga that began
pub record IsOf (id name : String) (created : ℕ) (i : Instance) : Type 0 where
  pub same_id : i.id ≡ id
  pub same_name : i.name ≡ name
  pub same_creation : i.created_at ≡ created

module _ {C : Type 0} (raise_on_abort : Bool) (clock : C → ℕ) (definition : Definition C)
    (id name : String) (created : ℕ) where
  pub record RunIsOf (r : Run C) : Type 0 where
    pub current : IsOf id name created r.inst
    pub saved : All (λ s. IsOf id name created s.0) r.journal

  -- a run that changes nothing of the identity, and saves nothing or its instance
  kept :
      (r r' : Run C)
      → RunIsOf r
      → r'.inst.id ≡ r.inst.id
      → r'.inst.name ≡ r.inst.name
      → r'.inst.created_at ≡ r.inst.created_at
      → r'.journal ≡ r.journal
      → RunIsOf r'
  kept r r' h i n c j = record {
    current = record {
      same_id = i ∙ h.current.same_id;
      same_name = n ∙ h.current.same_name;
      same_creation = c ∙ h.current.same_creation;
    };
    saved = rw j h.saved;
  }

  grown :
      (r r' : Run C)
      → RunIsOf r
      → r'.inst.id ≡ r.inst.id
      → r'.inst.name ≡ r.inst.name
      → r'.inst.created_at ≡ r.inst.created_at
      → r'.journal ≡ r.journal ++ (r'.inst, r'.context) ∷ []
      → RunIsOf r'
  grown r r' h i n c j =
      let now : IsOf id name created r'.inst = record {
        same_id = i ∙ h.current.same_id;
        same_name = n ∙ h.current.same_name;
        same_creation = c ∙ h.current.same_creation;
      } in
      record {
        current = now;
        saved = rw j (All-append (λ s. IsOf id name created s.0) r.journal _ h.saved (now, tt));
      }

  compensated_with-RunIsOf :
      (i : ℕ) (step : Step C) (ended : Result (Unit {0}) × C) (r : Run C)
      → RunIsOf r
      → RunIsOf (compensated_with raise_on_abort clock definition i step ended r).1
  compensated_with-RunIsOf i step (ok _, c) r h = kept r _ h refl refl refl refl
  compensated_with-RunIsOf i step (err exn, c) r h = grown r _ h refl refl refl refl

  compensate_with-RunIsOf :
      (i : ℕ) (step : Step C) (done : Bool) (found : Option (Action C (Unit {0}))) (r : Run C)
      → RunIsOf r
      → RunIsOf (compensate_with raise_on_abort clock definition i step done found r).1
  compensate_with-RunIsOf i step true (some undo) r h =
      compensated_with-RunIsOf i step (undo r.context) r h
  compensate_with-RunIsOf i step true none r h = h
  compensate_with-RunIsOf i step false found r h = h

  compensate_step-RunIsOf :
      (i : ℕ) (step : Option (Step C)) (rec : Option StepRecord) (r : Run C)
      → RunIsOf r
      → RunIsOf (compensate_step raise_on_abort clock definition i step rec r).1
  compensate_step-RunIsOf i (some step) (some rec) r h =
      compensate_with-RunIsOf i step _ step.compensation r h
  compensate_step-RunIsOf i (some step) none r h = h
  compensate_step-RunIsOf i none rec r h = h

  compensate-RunIsOf :
      (i : ℕ) (r : Run C) → RunIsOf r → RunIsOf (compensate raise_on_abort clock definition i r).1
  unfolding compensate
  compensate-RunIsOf zero r h = grown r _ h refl refl refl refl
  compensate-RunIsOf (suc i) r h =
      go_on _
        (compensate_step-RunIsOf i (get_elem? definition.steps i) (get_elem? r.inst.steps i) r h)
        (λ r' h'. compensate-RunIsOf i r' h')
    where
      go_on :
          (p : Result (Unit {0}) × Run C)
          → RunIsOf p.1
          → ((r' : Run C)
              → RunIsOf r'
              → RunIsOf (compensate raise_on_abort clock definition i r').1)
          → RunIsOf
              (elim p.0 as (λ _. Result (Unit {0}) × Run C) [
                | ok _ ↦ compensate raise_on_abort clock definition i p.1
                | err exn ↦ (err exn, p.1)
              ]).1
      go_on (ok _, r') h' rest = rest r' h'
      go_on (err exn, r') h' rest = h'

  settle-RunIsOf :
      (step : Step C) (exn : Exn) (p : Result (Unit {0}) × Run C)
      → RunIsOf p.1
      → RunIsOf (let (res, r) = p in settle raise_on_abort clock definition step exn res r).1
  settle-RunIsOf step exn (ok _, r) h =
      elim (Bool-cases
        (raise_on_abort && is_aborted raise_on_abort clock definition r.inst.status)) [
          | inl raising ↦ rw raising h
          | inr returning ↦ rw returning h
        ]
  settle-RunIsOf step exn (err e, r) h = h

  abort-RunIsOf :
      (i : ℕ) (step : Step C) (exn : Exn) (r : Run C)
      → RunIsOf r
      → RunIsOf (abort raise_on_abort clock definition i step exn r).1
  unfolding abort
  abort-RunIsOf i step exn r h =
      settle-RunIsOf step exn _ (compensate-RunIsOf i _ (grown r _ h refl refl refl refl))

  forward-RunIsOf :
      (i : ℕ) (steps : List (Step C)) (r : Run C)
      → RunIsOf r
      → RunIsOf (forward raise_on_abort clock definition i steps r).1
  unfolding forward
  forward-RunIsOf i [] r h = grown r _ h refl refl refl refl
  forward-RunIsOf i (step ∷ steps) r h =
      moved (step.action r.context).0 (step.action r.context).1
        (λ r' h'. forward-RunIsOf (suc i) steps r' h')
    where
      moved :
          (res : Result (Unit {0})) (c : C)
          → ((r' : Run C)
              → RunIsOf r'
              → RunIsOf (forward raise_on_abort clock definition (suc i) steps r').1)
          → RunIsOf (after_step raise_on_abort clock definition i step steps r res c).1
      moved (ok _) c rest = rest _ (grown r _ h refl refl refl refl)
      moved (err exn) c rest =
          abort-RunIsOf i step exn (record r { context = c }) (kept r _ h refl refl refl refl)

pub run-RunIsOf :
    {C : Type 0} (raise_on_abort : Bool) (clock : C → ℕ) (definition : Definition C) (id : String)
    (c : C)
    → RunIsOf raise_on_abort clock definition id definition.name
        (clock c)
        (run raise_on_abort clock definition id c).1
unfolding run
run-RunIsOf raise_on_abort clock definition id c =
    let now : IsOf id definition.name (clock c) (begin raise_on_abort clock definition id c).inst =
      record { same_id = refl; same_name = refl; same_creation = refl } in
    forward-RunIsOf raise_on_abort clock definition id definition.name (clock c) 0 definition.steps
      _ (record { current = now; saved = (now, tt) })
