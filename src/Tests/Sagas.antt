-- ===== src/Tests/Sagas.antt =====
-- The saga executor of libs/foundation/src/foundation/resiliant/saga.py at concrete inputs: a
-- context is a number, and each step adds to it.
use taas_server_py.Prelude.{ℕ, ◌+◌, ◌-◌, true, none, some, List, [], ◌∷◌, ◌≡◌, refl}
use taas_server_py.Exec.{app, ok, err, saga_aborted, saga_compensation}
use taas_server_py.Saga.{Step, Definition, Run, pending_record, run, aborted, failed}
use taas_server_py.Saga.Forward.{completed_record}
use taas_server_py.Saga.Compensation.{undone_record, stuck_record}
use taas_server_py.Saga.Outcome.{run_aborts, run_fails, failed_record}
use taas_server_py.Saga.Saved.{Settled, run-Settled}

abbrev reserve : Step ℕ
reserve = record {
  name = "reserve";
  action = λ c. (ok tt, c + 1);
  compensation = some (λ c. (ok tt, c - 1));
}

abbrev charge : Step ℕ
charge = record { name = "charge"; action = λ c. (ok tt, c + 10); compensation = none }

abbrev notify : Step ℕ
notify = record {
  name = "notify";
  action = λ c. (ok tt, c + 100);
  compensation = some (λ c. (err (app 2), c));
}

abbrev ship : Step ℕ
ship = record { name = "ship"; action = λ c. (err (app 1), c); compensation = none }

abbrev order : List (Step ℕ) → Definition ℕ
order steps = record { name = "order"; steps = steps }

abbrev pub zero_clock : ℕ → ℕ
zero_clock c = 0

abbrev good : Definition ℕ
good = order (reserve ∷ charge ∷ [])

abbrev bad : Definition ℕ
bad = order (reserve ∷ charge ∷ ship ∷ notify ∷ [])

abbrev pub worse : Definition ℕ
worse = order (reserve ∷ notify ∷ charge ∷ ship ∷ [])

run_aborts_example :
    (r : Run ℕ) × (run true zero_clock bad "s" 5 ≡ (err (saga_aborted "s" "ship" (app 1)), r))
    × (r.inst.status ≡ aborted)
    × (r.inst.steps
        ≡ undone_record reserve
          ∷ undone_record charge
          ∷ failed_record ship (app 1)
          ∷ pending_record notify
          ∷ [])
    × (r.context ≡ 15)
run_aborts_example =
    run_aborts true zero_clock bad "s" (charge ∷ reserve ∷ []) (notify ∷ []) ship (app 1) 5 16 16 15
      refl (6, (5, refl, refl), refl) refl (16, refl, (15, refl, refl))

run_fails_example :
    (r : Run ℕ) × (run true zero_clock worse "s" 5 ≡ (err (saga_compensation "notify"), r))
    × (r.inst.status ≡ failed)
    × (r.inst.steps
        ≡ completed_record reserve
          ∷ stuck_record notify (app 2)
          ∷ undone_record charge
          ∷ failed_record ship (app 1)
          ∷ [])
    × (r.context ≡ 116)
run_fails_example =
    run_fails true zero_clock worse "s" (charge ∷ []) (reserve ∷ []) [] ship notify
      (λ c. (err (app 2), c)) (app 1) (app 2) 5 116 116 116 116 refl
      (106, (6, (5, refl, refl), refl), refl) refl (116, refl, refl) refl refl

run-Settled_example : Settled (run true zero_clock worse "s" 5).1
run-Settled_example = run-Settled true zero_clock worse "s" 5
