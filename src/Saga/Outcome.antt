-- ===== src/Saga/Outcome.antt =====
-- How a whole saga ends, for a run in which every step and compensation is known.
use taas_server_py.Prelude.{
  ℕ, String, Bool, some, List, [], ◌∷◌, ◌++◌, map, modify_at, length, ◌≡◌, refl, arith, ap, ◌∙◌,
  sym, if◌then◌else◌,
}
use taas_server_py.Exec.{Exn, Result, ok, err, Action, saga_compensation, saga_aborted}
use taas_server_py.Saga.{
  StepStatus, Step, Definition, StepRecord, Instance, Run, action_failed, compensate, checkpoint,
  set_step, set_status, aborted, completed, compensating, failed, forward, settle, run, begin,
  pending_record,
}
use taas_server_py.Saga.Forward.{
  onto, modify_at_here, length-map, completed_record, Performed, forward-Performed,
}
use taas_server_py.Saga.Compensation.{
  Undone, undone_record, stuck_record, Undoing, compensate-Undone, compensate_raises,
}

-- the record of the step whose action raised
abbrev pub failed_record : {C : Type 0} → Step C → Exn → StepRecord
failed_record step exn = record {
  name = step.name;
  status = StepStatus.failed;
  error = some (action_failed exn);
}

module _ {C : Type 0} (raise_on_abort : Bool) (clock : C → ℕ) (definition : Definition C) where
  abbrev pub run_saga : String → C → Result Instance × Run C
  run_saga = run raise_on_abort clock definition

  -- If every action succeeds, they run in order, the saga is completed and returned, and every
  -- step is marked as completed.
  pub run_completes :
      (id : String) (done : List (Step C)) (c d : C)
      → definition.steps ≡ onto done []
      → Performed done c d
      → (r : Run C) × (run_saga id c ≡ (ok r.inst, r))
        × (r.inst.status ≡ completed)
        × (r.inst.steps ≡ onto (map completed_record done) [])
        × (r.context ≡ d)
  unfolding run forward
  run_completes id done c d h p =
      let (r, reached, same) =
        forward-Performed raise_on_abort clock definition id done [] c d h p in
      (
        checkpoint raise_on_abort clock definition
            (set_status raise_on_abort clock definition completed r),
        ap
              (λ (steps : List (Step C)).
                forward raise_on_abort clock definition 0 steps
                  (begin raise_on_abort clock definition id c))
              h
            ∙ same,
        refl,
        reached.steps,
        reached.context,
      )

  -- the state in which the undoing begins
  abbrev broken : ℕ → Exn → C → Run C → Run C
  broken i exn n r = checkpoint raise_on_abort clock definition (
      set_status raise_on_abort clock definition compensating (
        set_step raise_on_abort clock definition i
          (λ s. record s { status = StepStatus.failed; error = some (action_failed exn) })
          (record r { context = n })))

  abbrev undo_and_settle : ℕ → Step C → Exn → Run C → Result Instance × Run C
  undo_and_settle i bad exn r =
      let (res, r') = compensate raise_on_abort clock definition i r in
      settle raise_on_abort clock definition bad exn res r'

  raise_step :
      (i : ℕ) (bad : Step C) (rest : List (Step C)) (exn : Exn) (n : C) (r : Run C)
      → bad.action r.context ≡ (err exn, n)
      → forward raise_on_abort clock definition i (bad ∷ rest) r
        ≡ undo_and_settle i bad exn (broken i exn n r)
  unfolding forward
  raise_step i bad rest exn n r e = ground arith

  run_breaks :
      (id : String) (done rest : List (Step C)) (bad : Step C) (exn : Exn) (c m n : C)
      → definition.steps ≡ onto done (bad ∷ rest)
      → Performed done c m
      → bad.action m ≡ (err exn, n)
      → (r : Run C) × Undoing raise_on_abort clock definition id done
          (failed_record bad exn ∷ map pending_record rest)
          n
          r
        × (run_saga id c ≡ undo_and_settle (length done) bad exn r)
  unfolding run
  run_breaks id done rest bad exn c m n h p raises =
      let (r, reached, same) =
        forward-Performed raise_on_abort clock definition id done (bad ∷ rest) c m h p in
      (
        broken (length done) exn n r,
        record {
          steps =
              ap
                (modify_at (length done)
                  (λ s. record s { status = StepStatus.failed; error = some (action_failed exn) }))
                reached.steps
              ∙ modify_at_here
                  (λ s. record s { status = StepStatus.failed; error = some (action_failed exn) })
                  (map completed_record done) (pending_record bad ∷ map pending_record rest)
                  (length done) (sym (length-map completed_record done));
          identity = reached.identity;
          context = refl;
        },
        ap
              (λ (steps : List (Step C)).
                forward raise_on_abort clock definition 0 steps
                  (begin raise_on_abort clock definition id c))
              h
            ∙ same
            ∙ raise_step (length done) bad rest exn n r (rw reached.context raises),
      )

  settled :
      {id : String} (bad : Step C) (exn : Exn) (r : Run C)
      → r.inst.id ≡ id
      → r.inst.status ≡ aborted
      → settle raise_on_abort clock definition bad exn (ok tt) r
        ≡ ((if raise_on_abort then err (saga_aborted id bad.name exn) else ok r.inst), r)
  settled bad exn r identity status = ground arith

  -- If one action raises and the compensations of the steps before it succeed, these run in
  -- reverse order and the saga is aborted: the policy decides between the error and the instance.
  -- The records say which steps were completed, compensated, failed or never begun.
  pub run_aborts :
      (id : String) (done rest : List (Step C)) (bad : Step C) (exn : Exn) (c m n d : C)
      → definition.steps ≡ onto done (bad ∷ rest)
      → Performed done c m
      → bad.action m ≡ (err exn, n)
      → Undone done n d
      → (r : Run C) × (run_saga id c
          ≡ ((if raise_on_abort then err (saga_aborted id bad.name exn) else ok r.inst), r))
        × (r.inst.status ≡ aborted)
        × (r.inst.steps
            ≡ onto (map undone_record done) (failed_record bad exn ∷ map pending_record rest))
        × (r.context ≡ d)
  run_aborts id done rest bad exn c m n d h p raises undone =
      let (r₁, undoing, same) = run_breaks id done rest bad exn c m n h p raises in
      let (r₂, e₂, identity, status, steps, context) =
        compensate-Undone raise_on_abort clock definition id done (bad ∷ rest)
          (failed_record bad exn ∷ map pending_record rest) n d r₁ h undoing undone in
      (
        r₂,
        same
            ∙ ap
                (λ (p : Result (Unit {0}) × Run C).
                  let (res, r') = p in settle raise_on_abort clock definition bad exn res r')
                e₂
            ∙ settled bad exn r₂ identity status,
        status,
        steps,
        context,
      )

  -- If a compensation raises after those of the later steps have run, the saga is failed and the
  -- earlier steps stay as they were.
  pub run_fails :
      (id : String) (later earlier rest : List (Step C)) (bad stuck : Step C)
      (undo : Action C (Unit {0})) (exn reason : Exn) (c m n o d : C)
      → definition.steps ≡ onto (later ++ stuck ∷ earlier) (bad ∷ rest)
      → Performed (later ++ stuck ∷ earlier) c m
      → bad.action m ≡ (err exn, n)
      → Undone later n o
      → stuck.compensation ≡ some undo
      → undo o ≡ (err reason, d)
      → (r : Run C) × (run_saga id c ≡ (err (saga_compensation stuck.name), r))
        × (r.inst.status ≡ failed)
        × (r.inst.steps
            ≡ onto (map completed_record earlier) (
                stuck_record stuck reason
                ∷ onto (map undone_record later) (failed_record bad exn ∷ map pending_record rest)))
        × (r.context ≡ d)
  run_fails id later earlier rest bad stuck undo exn reason c m n o d h p raises undone has fails =
      let (r₁, undoing, same) =
        run_breaks id (later ++ stuck ∷ earlier) rest bad exn c m n h p raises in
      let (r₂, e₂, status, steps, context) =
        compensate_raises raise_on_abort clock definition id later stuck undo reason earlier
          (bad ∷ rest) (failed_record bad exn ∷ map pending_record rest) n o d r₁ h undoing undone
          has fails in
      (
        r₂,
        same
            ∙ ap
                (λ (p : Result (Unit {0}) × Run C).
                  let (res, r') = p in settle raise_on_abort clock definition bad exn res r')
                e₂,
        status,
        steps,
        context,
      )
