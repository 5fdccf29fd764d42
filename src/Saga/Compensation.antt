-- ===== src/Saga/Compensation.antt =====
-- The backward part of a saga: undoing completed steps, the latest first.
use taas_server_py.Prelude.{
  String, ℕ, Bool, true, Option, none, some, List, [], ◌∷◌, ◌++◌, map, get_elem?, modify_at, length,
  ◌≡◌, refl, ap, ap₂, ◌∙◌, sym,
}
use taas_server_py.Exec.{Exn, Result, ok, err, Action, saga_compensation}
use taas_server_py.Saga.{
  StepStatus, Step, Definition, StepRecord, Run, compensation_failed, compensate, compensate_step,
  compensate_with, compensated_with, checkpoint, set_step, set_status, aborted, compensated, failed,
}
use taas_server_py.Saga.Forward.{onto, get_elem?_here, modify_at_here, length-map, completed_record}

-- `c` to `d` by one compensation; a step without one is passed over.
abbrev pub Undoes : {C : Type 0} → Option (Action C (Unit {0})) → C → C → Type 0
Undoes none c d = c ≡ d
Undoes (some undo) c d = undo c ≡ (ok tt, d)

-- The compensations of `done` all succeed, the first of the list first, and take `c` to `d`.
abbrev pub Undone : {C : Type 0} → List (Step C) → C → C → Type 0
Undone [] c d = c ≡ d
Undone {C} (step ∷ earlier) c d = (m : C) × Undoes step.compensation c m × Undone earlier m d

abbrev undone_status : {A : Type 0} → Option A → StepStatus
undone_status none = StepStatus.completed
undone_status (some undo) = compensated

-- the record of a completed step after its compensation
abbrev pub undone_record : {C : Type 0} → Step C → StepRecord
undone_record step = record {
  name = step.name;
  status = undone_status step.compensation;
  error = none;
}

-- the record of a step whose compensation raised
abbrev pub stuck_record : {C : Type 0} → Step C → Exn → StepRecord
stuck_record step exn = record {
  name = step.name;
  status = StepStatus.completed;
  error = some (compensation_failed exn);
}

module _ {C : Type 0} (raise_on_abort : Bool) (clock : C → ℕ) (definition : Definition C) where
  abbrev undo_from : ℕ → Run C → Result (Unit {0}) × Run C
  undo_from = compensate raise_on_abort clock definition

  abbrev round : ℕ → Run C → Result (Unit {0}) × Run C
  round i r =
      compensate_step raise_on_abort clock definition i (get_elem? definition.steps i)
        (get_elem? r.inst.steps i) r

  -- the run stands at the compensation of `done`; `tail` are the records of the later steps
  pub record Undoing (id : String) (done : List (Step C)) (tail : List StepRecord) (c : C)
      (r : Run C) : Type 0 where
    pub steps : r.inst.steps ≡ onto (map completed_record done) tail
    pub identity : r.inst.id ≡ id
    pub context : r.context ≡ c

  -- the records that a round finds and leaves
  abbrev Found : List (Step C) → StepRecord → List StepRecord → Run C → Type 0
  Found earlier rec tail r = r.inst.steps ≡ onto (map completed_record earlier) (rec ∷ tail)

  modify_Found :
      (f : StepRecord → StepRecord) (earlier : List (Step C)) (rec : StepRecord)
      (tail : List StepRecord) (r : Run C)
      → Found earlier rec tail r
      → modify_at (length earlier) f r.inst.steps
        ≡ onto (map completed_record earlier) (f rec ∷ tail)
  modify_Found f earlier rec tail r found =
      ap (modify_at (length earlier) f) found
      ∙ modify_at_here f (map completed_record earlier) (rec ∷ tail) (length earlier)
          (sym (length-map completed_record earlier))

  -- what a round does with the step below the ones that are undone
  round_lem :
      (step : Step C) (earlier rest : List (Step C)) (tail : List StepRecord) (r : Run C)
      → definition.steps ≡ onto earlier (step ∷ rest)
      → Found earlier (completed_record step) tail r
      → round (length earlier) r
        ≡ compensate_with raise_on_abort clock definition
            (length earlier)
            step
            true
            step.compensation
            r
  round_lem step earlier rest tail r h found =
      ap₂ (λ a b. compensate_step raise_on_abort clock definition (length earlier) a b r)
        (ap (λ (xs : List (Step C)). get_elem? xs (length earlier)) h
          ∙ get_elem?_here earlier (step ∷ rest) (length earlier) refl)
        (ap (λ (xs : List StepRecord). get_elem? xs (length earlier)) found
          ∙ get_elem?_here (map completed_record earlier) (completed_record step ∷ tail)
              (length earlier) (sym (length-map completed_record earlier)))

  undo_with :
      (id : String) (found : Option (Action C (Unit {0}))) (step : Step C) (earlier : List (Step C))
      (tail : List StepRecord) (c m : C) (r : Run C)
      → Undoing id (step ∷ earlier) tail c r
      → Undoes found c m
      → (r' : Run C) × Undoing id earlier
          (record { name = step.name; status = undone_status found; error = none } ∷ tail)
          m
          r'
        × (compensate_with raise_on_abort clock definition (length earlier) step true found r
            ≡ (ok tt, r'))
  undo_with id none step earlier tail c m r u same =
      (r, record { steps = u.steps; identity = u.identity; context = u.context ∙ same }, refl)
  undo_with id (some undo) step earlier tail c m r u e = (
    set_step raise_on_abort clock definition (length earlier)
        (λ s. record s { status = compensated }) (record r { context = m }),
    record {
      steps =
          modify_Found (λ s. record s { status = compensated }) earlier (completed_record step) tail
            r u.steps;
      identity = u.identity;
      context = refl;
    },
    ap (λ p. compensated_with raise_on_abort clock definition (length earlier) step p r)
        {y = (ok tt, m)} (rw u.context e),
  )

  abbrev continue : List (Step C) → Result (Unit {0}) × Run C → Result (Unit {0}) × Run C
  continue earlier p =
      let (res, r') = p in
      elim res [ ok _ ↦ undo_from (length earlier) r' | err exn ↦ (err exn, r') ]

  -- If the compensations of the completed steps succeed, they run in reverse order, the saga is
  -- aborted, and each of these steps that has a compensation is marked.
  pub compensate-Undone :
      (id : String) (done rest : List (Step C)) (tail : List StepRecord) (c d : C) (r : Run C)
      → definition.steps ≡ onto done rest
      → Undoing id done tail c r
      → Undone done c d
      → (r' : Run C) × (undo_from (length done) r ≡ (ok tt, r'))
        × (r'.inst.id ≡ id)
        × (r'.inst.status ≡ aborted)
        × (r'.inst.steps ≡ onto (map undone_record done) tail)
        × (r'.context ≡ d)
  unfolding compensate
  compensate-Undone id [] rest tail c d r h u same = (
    checkpoint raise_on_abort clock definition
        (set_status raise_on_abort clock definition aborted r),
    refl,
    u.identity,
    refl,
    u.steps,
    u.context ∙ same,
  )
  compensate-Undone id (step ∷ earlier) rest tail c d r h u (m, one, more) =
      let (r₁, u₁, e₁) = undo_with id step.compensation step earlier tail c m r u one in
      let (r₂, e₂, identity, status, steps, context) =
        compensate-Undone id earlier (step ∷ rest) (undone_record step ∷ tail) m d r₁ h u₁ more in
      (
        r₂,
        ap (continue earlier) (round_lem step earlier rest tail r h u.steps ∙ e₁) ∙ e₂,
        identity,
        status,
        steps,
        context,
      )

  -- the state after the compensation of the step above `earlier` has raised
  abbrev stuck : List (Step C) → Exn → C → Run C → Run C
  stuck earlier exn d r = checkpoint raise_on_abort clock definition (
      set_status raise_on_abort clock definition failed (
        set_step raise_on_abort clock definition (length earlier)
          (λ s. record s { error = some (compensation_failed exn) }) (record r { context = d })))

  round_raises :
      (id : String) (bad : Step C) (undo : Action C (Unit {0})) (exn : Exn)
      (earlier : List (Step C)) (tail : List StepRecord) (c d : C) (r : Run C)
      → Undoing id (bad ∷ earlier) tail c r
      → bad.compensation ≡ some undo
      → undo c ≡ (err exn, d)
      → compensate_with raise_on_abort clock definition (length earlier) bad true bad.compensation r
        ≡ (err (saga_compensation bad.name), stuck earlier exn d r)
  round_raises id bad undo exn earlier tail c d r u has raises =
      ap (λ o. compensate_with raise_on_abort clock definition (length earlier) bad true o r) has
      ∙ ap (λ p. compensated_with raise_on_abort clock definition (length earlier) bad p r)
          {y = (err exn, d)} (rw u.context raises)

  -- A compensation that raises ends the undoing: the saga is failed, the later steps are undone
  -- and the earlier ones are not touched.
  pub compensate_raises :
      (id : String) (later : List (Step C)) (bad : Step C) (undo : Action C (Unit {0})) (exn : Exn)
      (earlier rest : List (Step C)) (tail : List StepRecord) (c m d : C) (r : Run C)
      → definition.steps ≡ onto (later ++ bad ∷ earlier) rest
      → Undoing id (later ++ bad ∷ earlier) tail c r
      → Undone later c m
      → bad.compensation ≡ some undo
      → undo m ≡ (err exn, d)
      → (r' : Run C) × (undo_from (length (later ++ bad ∷ earlier)) r
          ≡ (err (saga_compensation bad.name), r'))
        × (r'.inst.status ≡ failed)
        × (r'.inst.steps
            ≡ onto
                (map completed_record earlier)
                (stuck_record bad exn ∷ onto (map undone_record later) tail))
        × (r'.context ≡ d)
  unfolding compensate
  compensate_raises id [] bad undo exn earlier rest tail c m d r h u same has raises = (
    stuck earlier exn d r,
    ap (continue earlier) (
        round_lem bad earlier rest tail r h u.steps
        ∙ round_raises id bad undo exn earlier tail c d r u has (rw same raises)),
    refl,
    modify_Found (λ s. record s { error = some (compensation_failed exn) }) earlier
        (completed_record bad) tail r u.steps,
    refl,
  )
  compensate_raises id (step ∷ later) bad undo exn earlier rest tail c m d r h u (n, one, more) has
        raises =
      let (r₁, u₁, e₁) =
        undo_with id step.compensation step (later ++ bad ∷ earlier) tail c n r u one in
      let (r₂, e₂, status, steps, context) =
        compensate_raises id later bad undo exn earlier (step ∷ rest) (undone_record step ∷ tail) n
          m d r₁ h u₁ more has raises in
      (
        r₂,
        ap (continue (later ++ bad ∷ earlier))
              (round_lem step (later ++ bad ∷ earlier) rest tail r h u.steps ∙ e₁)
            ∙ e₂,
        status,
        steps,
        context,
      )
