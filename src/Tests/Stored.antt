-- ===== src/Tests/Stored.antt =====
-- The repository of sagas of libs/resiliant at concrete tables.
use taas_server_py.Prelude.{String, ℕ, true, Option, none, some, List, [], ◌∷◌, ◌≡◌, refl}
use taas_server_py.Exec.{ok}
use taas_server_py.Sql.Model.{list_table, list_table-laws}
use taas_server_py.Saga.{SagaStatus, StepStatus, StepError, run}
use taas_server_py.SagaRepository.{SagaInstance, SagaRow, get, save}
use taas_server_py.SagaRepository.RoundTrip.{get-save}
use taas_server_py.SagaRepository.Journal.{saved_as, save_all, save_all_keyless, get-run}
use taas_server_py.Tests.Sagas.{worse, zero_clock}

abbrev no_key : ℕ → Option String
no_key c = none

abbrev payment : SagaInstance ℕ
payment = record {
  id = "s";
  name = "order";
  status = SagaStatus.compensating;
  context = 7;
  steps =
      record { name = "reserve"; status = StepStatus.compensated; error = none }
      ∷ record { name = "charge"; status = StepStatus.failed; error = some "declined" }
      ∷ [];
  created_at = 10;
  updated_at = 30;
}

-- the saga as it began
abbrev table : List (SagaRow ℕ)
table =
    record {
      saga_id = "s";
      name = "order";
      saga_key = none;
      status = SagaStatus.running;
      current_step = some "reserve";
      context = 5;
      steps = [];
      last_error = none;
      saga_created_at = 10;
      saga_updated_at = 10;
    }
    ∷ []

get-save_example :
    get no_key list_table "s" (save no_key list_table payment table).1 ≡ ok (some payment)
unfolding save
get-save_example =
    get-save no_key list_table list_table-laws payment table
      (record { same_name = λ _. refl; same_creation = λ _. refl }, tt) refl

abbrev show_error : StepError → String
show_error e = "error"

get-run_example :
    let r = (run true zero_clock worse "s" 5).1 in
    get no_key list_table "s" (save_all show_error (λ c. c) no_key list_table r.journal []).1
    ≡ ok (some (saved_as show_error (λ c. c) (r.inst, r.context)))
get-run_example =
    get-run show_error (λ c. c) no_key list_table list_table-laws true zero_clock worse "s" 5 [] tt
      (save_all_keyless show_error (λ c. c) no_key list_table (λ c. refl) _ [])
