-- ===== src/Saga.antt =====
-- libs/foundation/src/foundation/resiliant/saga.py: `SagaService`. `C` is what steps act on: the
-- context dictionary and the outside world. `ISagaRepository.save` appends to a journal here, so
-- the journal is the sequence of persisted states; a save that fails is not modelled.
pub mod Forward
pub mod Compensation
pub mod Outcome
pub mod Saved
pub mod Identity
use taas_server_py.Prelude.{
  ◌&&◌, if◌then◌else◌, ℕ, zero, suc, ◌+◌, String, Bool, true, false, Option, none, some, List, [],
  ◌∷◌, ◌++◌, map, get_elem?, modify_at,
}
use taas_server_py.Exec.{
  index_error, Exn, saga_aborted, saga_compensation, value_error, Result, ok, err, Action, pure,
  raise,
}

pub data SagaStatus : Type 0 where
  running completed compensating aborted failed : SagaStatus

pub data StepStatus : Type 0 where
  pending completed compensated failed : StepStatus

module _ (C : Type 0) where
  -- `SagaStep`
  pub record Step : Type 0 where
    pub name : String
    pub action : Action C (Unit {0})
    pub compensation : Option (Action C (Unit {0}))

  -- `SagaDefinition`
  pub record Definition : Type 0 where
    pub name : String
    pub steps : List Step

-- `repr(exc)` of a failed action, and `f"compensation failed: {exc!r}"`
pub data StepError : Type 0 where
  action_failed compensation_failed : Exn → StepError

-- `SagaStepRecord`
pub record StepRecord : Type 0 where
  pub name : String
  pub status : StepStatus
  pub error : Option StepError

-- `SagaInstance` without its context, which stands in the state of the run
pub record Instance : Type 0 where
  pub id : String
  pub name : String
  pub status : SagaStatus
  pub steps : List StepRecord
  pub created_at : ℕ
  pub updated_at : ℕ

-- a run: its instance, what the steps act on, and what was saved so far, oldest first
pub record Run (C : Type 0) : Type 0 where
  pub inst : Instance
  pub context : C
  pub journal : List (Instance × C)

-- `SagaDefinition.__init__`
pub define : {C : Type 0} → String → List (Step C) → Result (Definition C)
define name [] = err value_error
define name (step ∷ steps) = ok (record { name = name; steps = step ∷ steps })

abbrev pub pending_record : {C : Type 0} → Step C → StepRecord
pending_record step = record { name = step.name; status = pending; error = none }

-- `raise_on_abort` is the policy of `SagaConfig`, `clock` is `time.time`.
module _ {C : Type 0} (raise_on_abort : Bool) (clock : C → ℕ) (definition : Definition C) where
  -- `self._repository.save(instance)`
  abbrev save : Run C → Run C
  save r = record r { journal = r.journal ++ (r.inst, r.context) ∷ [] }

  -- `instance.updated_at = time.time()` and a save
  abbrev pub checkpoint : Run C → Run C
  checkpoint r = save (record r { inst = record r.inst { updated_at = clock r.context } })

  abbrev set_status : SagaStatus → Run C → Run C
  set_status status r = record r { inst = record r.inst { status = status } }

  abbrev set_step : ℕ → (StepRecord → StepRecord) → Run C → Run C
  set_step i f r = record r { inst = record r.inst { steps = modify_at i f r.inst.steps } }

  abbrev is_completed : StepStatus → Bool
  is_completed completed = true
  is_completed _ = false

  -- `await step.compensation(instance.context)` and what follows it
  abbrev compensated_with : ℕ → Step C → Result (Unit {0}) × C → Action (Run C) (Unit {0})
  compensated_with i step (ok _, c) r =
      (ok tt, set_step i (λ s. record s { status = compensated }) (record r { context = c }))
  compensated_with i step (err exn, c) r = (
    err (saga_compensation step.name),
    checkpoint (
        set_status failed (
          set_step i (λ s. record s { error = some (compensation_failed exn) })
            (record r { context = c }))),
  )

  abbrev compensate_with :
      ℕ → Step C → Bool → Option (Action C (Unit {0})) → Action (Run C) (Unit {0})
  compensate_with i step true (some undo) r = compensated_with i step (undo r.context) r
  compensate_with i step _ _ r = (ok tt, r)

  -- one round of the loop of `_compensate`
  abbrev compensate_step : ℕ → Option (Step C) → Option StepRecord → Action (Run C) (Unit {0})
  compensate_step i (some step) (some rec) r =
      compensate_with i step (is_completed rec.status) step.compensation r
  compensate_step i _ _ r = (err index_error, r)

  -- `_compensate`, from the step below the given index down to the first
  pub compensate : ℕ → Action (Run C) (Unit {0})
  compensate zero r = (ok tt, checkpoint (set_status aborted r))
  compensate (suc i) r =
      let (res, r') =
        compensate_step i (get_elem? definition.steps i) (get_elem? r.inst.steps i) r in
      elim res [ ok _ ↦ compensate i r' | err exn ↦ (err exn, r') ]

  abbrev is_aborted : SagaStatus → Bool
  is_aborted aborted = true
  is_aborted _ = false

  -- the end of the `except` block of `run`
  abbrev settle : Step C → Exn → Result (Unit {0}) → Action (Run C) Instance
  settle step exn (err compensation) r = (err compensation, r)
  settle step exn (ok _) r =
      if raise_on_abort && is_aborted r.inst.status
      then (err (saga_aborted r.inst.id step.name exn), r)
      else (ok r.inst, r)

  -- the `except` block of `run`
  pub abort : ℕ → Step C → Exn → Action (Run C) Instance
  unfolding compensate
  abort i step exn r =
      let (res, r') = compensate i (
        checkpoint (
          set_status compensating (
            set_step i (λ s. record s { status = failed; error = some (action_failed exn) }) r))) in
      settle step exn res r'

  -- the loop of `run` and what follows it
  pub forward : ℕ → List (Step C) → Action (Run C) Instance
  unfolding abort
  forward i [] r = let r' = checkpoint (set_status completed r) in (ok r'.inst, r')
  forward i (step ∷ steps) r =
      let (res, c) = step.action r.context in
      elim res [
        | ok _ ↦ forward (suc i) steps (
            checkpoint
              (set_step i (λ s. record s { status = completed }) (record r { context = c })))
        | err exn ↦ abort i step exn (record r { context = c })
      ]

  abbrev pub begin : String → C → Run C
  begin id c = save (record {
    inst = record {
      id = id;
      name = definition.name;
      status = running;
      steps = map pending_record definition.steps;
      created_at = clock c;
      updated_at = clock c;
    };
    context = c;
    journal = [];
  })

  -- `run`, with the id that was given or made
  pub run : String → C → Result Instance × Run C
  unfolding forward
  run id c = forward 0 definition.steps (begin id c)
