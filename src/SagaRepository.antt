-- ===== src/SagaRepository.antt =====
-- libs/resiliant/src/resiliant/saga/saga_repository.py: how a saga is stored in a row and read back.
-- A context is its JSON value, whose `saga_key` entry is a parameter; an error is its text.
pub mod RoundTrip
pub mod Journal
use taas_server_py.Prelude.{
  ℕ, String, Bool, true, false, ◌&&◌, not, Option, none, some, List, [], ◌∷◌, ◌++◌, map, str_eq,
  if◌then◌else◌,
}
use taas_server_py.Exec.{value_error, integrity_error, Result, ok, err}
use taas_server_py.Sql.{Table, one_or_none, first_chars}
use taas_server_py.Saga.{SagaStatus, StepStatus, StepError, StepRecord, Instance}

-- `SagaStepRecord` with the text of its error
pub record Step : Type 0 where
  pub name : String
  pub status : StepStatus
  pub error : Option String

-- `SagaInstance`
pub record SagaInstance (Ctx : Type 0) : Type 0 where
  pub id : String
  pub name : String
  pub status : SagaStatus
  pub context : Ctx
  pub steps : List Step
  pub created_at : ℕ
  pub updated_at : ℕ

-- an entry of the column `steps`
pub record StepJson : Type 0 where
  pub name : String
  pub status : String
  pub error : Option String

-- `SagaStateTable`, without the audit columns
pub record SagaRow (Ctx : Type 0) : Type 0 where
  pub saga_id : String
  pub name : String
  pub saga_key : Option String
  pub status : SagaStatus
  pub current_step : Option String
  pub context : Ctx
  pub steps : List StepJson
  pub last_error : Option String
  pub saga_created_at : ℕ
  pub saga_updated_at : ℕ

-- `SagaStepStatus.value`
abbrev value_of : StepStatus → String
value_of StepStatus.pending = "pending"
value_of StepStatus.completed = "completed"
value_of StepStatus.compensated = "compensated"
value_of StepStatus.failed = "failed"

-- `SagaStepStatus(value)`
abbrev status_of : String → Result StepStatus
status_of s =
    if str_eq s "pending"
    then ok StepStatus.pending
    else if str_eq s "completed"
    then ok StepStatus.completed
    else if str_eq s "compensated"
    then ok StepStatus.compensated
    else if str_eq s "failed"
    then ok StepStatus.failed
    else err value_error

abbrev is_completed : StepStatus → Bool
is_completed StepStatus.completed = true
is_completed _ = false

-- `_current_step`
pub current_step : List Step → Option String
current_step [] = none
current_step (s ∷ steps) = if is_completed s.status then current_step steps else some s.name

-- `record.error` of one record, cut off, if it is truthy
abbrev pub error_of : Option String → Option String
error_of none = none
error_of (some text) = if str_eq text "" then none else some (first_chars 1000 text)

abbrev pub or_else : Option String → Option String → Option String
or_else none b = b
or_else (some a) b = some a

-- `_last_error`: the last record that has one, so a later record goes before an earlier one
pub last_error : List Step → Option String
last_error [] = none
last_error (s ∷ steps) = or_else (last_error steps) (error_of s.error)

abbrev pub encode_step : Step → StepJson
encode_step s = record { name = s.name; status = value_of s.status; error = s.error }

abbrev decode_with : StepJson → Result StepStatus → Result (List Step) → Result (List Step)
decode_with s (err e) rest = err e
decode_with s (ok status) (err e) = err e
decode_with s (ok status) (ok steps) =
    ok (record { name = s.name; status = status; error = s.error } ∷ steps)

pub decode_steps : List StepJson → Result (List Step)
decode_steps [] = ok []
decode_steps (s ∷ steps) = decode_with s (status_of s.status) (decode_steps steps)

module _ {Ctx : Type 0} (saga_key : Ctx → Option String) where
  -- `_instance_to_values`
  pub instance_to_values : SagaInstance Ctx → SagaRow Ctx
  unfolding current_step last_error
  instance_to_values i = record {
    saga_id = i.id;
    name = i.name;
    saga_key = saga_key i.context;
    status = i.status;
    current_step = current_step i.steps;
    context = i.context;
    steps = map encode_step i.steps;
    last_error = last_error i.steps;
    saga_created_at = i.created_at;
    saga_updated_at = i.updated_at;
  }

  abbrev row_with : SagaRow Ctx → Result (List Step) → Result (SagaInstance Ctx)
  row_with row (err e) = err e
  row_with row (ok steps) = ok (record {
    id = row.saga_id;
    name = row.name;
    status = row.status;
    context = row.context;
    steps = steps;
    created_at = row.saga_created_at;
    updated_at = row.saga_updated_at;
  })

  -- `_row_to_instance`
  pub row_to_instance : SagaRow Ctx → Result (SagaInstance Ctx)
  unfolding decode_steps
  row_to_instance row = row_with row (decode_steps row.steps)

  -- what `on_conflict_do_update` sets
  abbrev pub set_values : SagaRow Ctx → SagaRow Ctx → SagaRow Ctx
  set_values values r = record r {
    status = values.status;
    current_step = values.current_step;
    context = values.context;
    steps = values.steps;
    last_error = values.last_error;
    saga_updated_at = values.saga_updated_at;
  }

  abbrev pub has_saga_id : String → SagaRow Ctx → Bool
  has_saga_id id r = str_eq r.saga_id id

  abbrev is_some_text : String → Option String → Bool
  is_some_text key none = false
  is_some_text key (some k) = str_eq k key

  module _ (db : Table (SagaRow Ctx)) where
    abbrev is_taken : Option (SagaRow Ctx) → Bool
    is_taken none = false
    is_taken (some r) = true

    -- `UNIQUE (name, saga_key)` of the table, where a key that is NULL clashes with none
    abbrev clashes : String → Option String → db.Tbl → Bool
    clashes name none t = false
    clashes name (some key) t =
        is_taken
          (one_or_none (db.select_where (λ r. str_eq r.name name && is_some_text key r.saga_key) t))

    abbrev inserted : Bool → SagaRow Ctx → db.Tbl → Result (Unit {0}) × db.Tbl
    inserted true values t = (err integrity_error, t)
    inserted false values t = (ok tt, db.add_row values t)

    -- `INSERT … ON CONFLICT (saga_id) DO UPDATE`; the update leaves the name and the key
    abbrev upsert : Option (SagaRow Ctx) → SagaRow Ctx → db.Tbl → Result (Unit {0}) × db.Tbl
    upsert none values t = inserted (clashes values.name values.saga_key t) values t
    upsert (some found) values t =
        (ok tt, db.update_where (has_saga_id values.saga_id) (set_values values) t)

    unfoldable pub save : SagaInstance Ctx → db.Tbl → Result (Unit {0}) × db.Tbl
    unfolding instance_to_values
    save i t = upsert (one_or_none (db.select_where (has_saga_id i.id) t)) (instance_to_values i) t

    abbrev some_instance : Result (SagaInstance Ctx) → Result (Option (SagaInstance Ctx))
    some_instance (ok i) = ok (some i)
    some_instance (err e) = err e

    abbrev loaded : Option (SagaRow Ctx) → Result (Option (SagaInstance Ctx))
    loaded none = ok none
    loaded (some row) = some_instance (row_to_instance row)

    unfoldable pub get : String → db.Tbl → Result (Option (SagaInstance Ctx))
    unfolding row_to_instance
    get id t = loaded (one_or_none (db.select_where (has_saga_id id) t))

    pub get_by_key : String → String → db.Tbl → Result (Option (SagaInstance Ctx))
    unfolding row_to_instance
    get_by_key name key t =
        loaded
          (one_or_none (db.select_where (λ r. str_eq r.name name && is_some_text key r.saga_key) t))
