-- ===== src/Dlq.antt =====
-- libs/resiliant/src/resiliant/dlq: dlq_repository.py and dlq_service.py, and the in-memory service
-- of libs/foundation/src/foundation/resiliant/dlq.py. Each call of a clock is an argument. JSON
-- columns are their texts.
pub mod Lifecycle
pub mod Replay
use taas_server_py.Prelude.{
  ℕ, ◌+◌, String, Bool, true, false, ◌&&◌, Option, none, some, List, [], ◌∷◌, map, ltb, leb,
  or_default, if◌then◌else◌, str_eq,
}
use taas_server_py.Exec.{Exn, dead_letter, dead_letter_replay, Result, ok, err, Action}
use taas_server_py.Sql.{Table, one_or_none, update_found, is_in, first_chars}

pub data DlqStatus : Type 0 where
  pending approved cancelled processing resolved failed abandoned archived : DlqStatus

-- `DLQEventTable`
pub record DlqRow : Type 0 where
  pub id : String
  pub event_id : String
  pub event_type : String
  pub handler_name : String
  pub source_destination : Option String
  pub source_service : Option String
  pub payload : String
  pub headers : String
  pub status : DlqStatus
  pub retry_count : ℕ
  pub max_retries : ℕ
  pub original_error : String
  pub last_error : Option String
  pub correlation_id : Option String
  pub user_id : Option String
  pub tenant_id : Option String
  pub failed_at : ℕ
  pub created_at : ℕ
  pub updated_at : ℕ
  pub processed_at : Option ℕ

-- the settings of `DeadLetterConfig` that the code reads
pub record DeadLetterConfig : Type 0 where
  pub batch_size : ℕ
  pub page_size : ℕ
  pub max_retries : ℕ
  pub use_skip_locked : Bool

abbrev pub is_status : DlqStatus → DlqStatus → Bool
is_status pending pending = true
is_status approved approved = true
is_status cancelled cancelled = true
is_status processing processing = true
is_status resolved resolved = true
is_status failed failed = true
is_status abandoned abandoned = true
is_status archived archived = true
is_status _ _ = false

-- the rows that a worker may claim
abbrev pub is_due : DlqRow → Bool
is_due r = is_status pending r.status && ltb r.retry_count r.max_retries

abbrev pub has_id : String → DlqRow → Bool
has_id id r = str_eq r.id id

abbrev pub is_among : List DlqRow → DlqRow → Bool
is_among events r = is_in r.id (map (λ x. x.id) events)

abbrev pub claim : ℕ → DlqRow → DlqRow
claim now r = record r { status = processing; updated_at = now }

abbrev pub resolve_values : ℕ → DlqRow → DlqRow
resolve_values now r = record r { status = resolved; processed_at = some now; updated_at = now }

abbrev pub abandon_values : ℕ → DlqRow → DlqRow
abandon_values now r = record r { status = abandoned; updated_at = now }

-- the values that `mark_failed` writes, from the event that it read
abbrev pub fail_values : String → ℕ → DlqRow → DlqRow → DlqRow
fail_values error now event r =
    let exhausted = leb event.max_retries (event.retry_count + 1) in
    record r {
      status = if exhausted then abandoned else pending;
      retry_count = event.retry_count + 1;
      last_error = some (first_chars 1000 error);
      updated_at = now;
    }

-- a condition of `list_messages`: none where the argument is `None`
abbrev pub wants_status : Option DlqStatus → DlqRow → Bool
wants_status none r = true
wants_status (some s) r = is_status s r.status

abbrev pub wants_handler : Option String → DlqRow → Bool
wants_handler none r = true
wants_handler (some name) r = str_eq r.handler_name name

-- the arguments of `save_event`
pub record FailedEvent : Type 0 where
  pub event_id : String
  pub event_type : String
  pub handler_name : String
  pub payload : String
  pub error : String
  pub source_destination : Option String
  pub headers : Option String
  pub max_retries : Option ℕ
  pub correlation_id : Option String
  pub user_id : Option String
  pub tenant_id : Option String

module _ (db : Table DlqRow) (cfg : DeadLetterConfig) where
  pub save : DlqRow → db.Tbl → db.Tbl
  save = db.add_row

  abbrev pub get : String → db.Tbl → Option DlqRow
  get id t = one_or_none (db.select_where (has_id id) t)

  abbrev claim_all : List DlqRow → ℕ → db.Tbl → db.Tbl
  claim_all [] now t = t
  claim_all (e ∷ es) now t = db.update_where (is_among (e ∷ es)) (claim now) t

  pub fetch_pending_batch : Option ℕ → ℕ → db.Tbl → List DlqRow × db.Tbl
  fetch_pending_batch requested now t =
      let events =
        db.select_batch cfg.use_skip_locked is_due (λ r. r.created_at)
          (or_default requested cfg.batch_size) t in
      (events, claim_all events now t)

  pub list_messages : Option DlqStatus → Option String → Option ℕ → db.Tbl → List DlqRow
  list_messages status handler limit =
      db.select_latest (λ r. wants_status status r && wants_handler handler r) (λ r. r.created_at)
        (or_default limit cfg.page_size)

  -- `DBUtils.now()` and `now_in_utc()` are one reading here
  pub mark_resolved : String → ℕ → db.Tbl → db.Tbl
  mark_resolved id now = db.update_where (has_id id) (resolve_values now)

  pub mark_failed : String → String → ℕ → db.Tbl → db.Tbl
  mark_failed id error now t = update_found db (has_id id) (fail_values error now) (get id t) t

  pub mark_abandoned : String → ℕ → db.Tbl → db.Tbl
  mark_abandoned id now = db.update_where (has_id id) (abandon_values now)

  -- the counter of one status in `get_stats`
  pub get_stats : DlqStatus → db.Tbl → ℕ
  get_stats status = db.count_where (λ r. is_status status r.status)

  -- `DLQService.save_event`, with the id and the times that the database and the clock give
  pub save_event : String → ℕ → FailedEvent → db.Tbl → DlqRow × db.Tbl
  unfolding save
  save_event id now e t =
      let row : DlqRow = record {
        id = id;
        event_id = e.event_id;
        event_type = e.event_type;
        handler_name = e.handler_name;
        source_destination = e.source_destination;
        source_service = none;
        payload = e.payload;
        headers = elim e.headers [ none ↦ "{}" | some h ↦ h ];
        status = pending;
        retry_count = 0;
        max_retries = or_default e.max_retries cfg.max_retries;
        original_error = e.error;
        last_error = none;
        correlation_id = e.correlation_id;
        user_id = e.user_id;
        tenant_id = e.tenant_id;
        failed_at = now;
        created_at = now;
        updated_at = now;
        processed_at = none;
      } in
      (row, save row t)

-- `DeadLetterMessage`
pub record DeadLetterMessage : Type 0 where
  pub id : String
  pub source : String
  pub payload : String
  pub headers : String
  pub error : String
  pub attempts : ℕ
  pub enqueued_at : ℕ
  pub original_message_id : Option String

-- `IDeadLetterRepository`: what an implementation of it does to the world
pub record Store (E : Type 0) : Type 0 where
  pub enqueue : DeadLetterMessage → Action E (Unit {0})
  pub get : String → Action E (Option DeadLetterMessage)
  pub delete : String → Action E (Unit {0})

-- `DeadLetterQueueService`; the replayer, which may be missing, acts on the same world
module _ {E : Type 0} (store : Store E)
    (replayer : Option (DeadLetterMessage → Action E (Unit {0}))) where
  pub enqueue :
      String
      → ℕ
      → String
      → String
      → String
      → ℕ
      → Option String
      → Option String
      → Action E DeadLetterMessage
  enqueue id now source payload error attempts headers original e =
      let message : DeadLetterMessage = record {
        id = id;
        source = source;
        payload = payload;
        headers = elim headers [ none ↦ "{}" | some h ↦ h ];
        error = error;
        attempts = attempts;
        enqueued_at = now;
        original_message_id = original;
      } in
      let (res, e') = store.enqueue message e in
      elim res [ ok _ ↦ (ok message, e') | err exn ↦ (err exn, e') ]

  abbrev delete_if : Bool → String → Action E (Unit {0})
  delete_if true id e = store.delete id e
  delete_if false id e = (ok tt, e)

  -- `except BaseException as exc: raise DeadLetterReplayError`
  abbrev replayed : String → Bool → Result (Unit {0}) × E → Result (Unit {0}) × E
  replayed id delete_on_success (ok _, e) = delete_if delete_on_success id e
  replayed id delete_on_success (err exn, e) = (err (dead_letter_replay id), e)

  abbrev replay_found :
      (DeadLetterMessage → Action E (Unit {0}))
      → String
      → Bool
      → Result (Option DeadLetterMessage) × E
      → Result (Unit {0}) × E
  replay_found run id delete_on_success (ok none, e) = (err dead_letter, e)
  replay_found run id delete_on_success (ok (some message), e) =
      replayed id delete_on_success (run message e)
  replay_found run id delete_on_success (err exn, e) = (err exn, e)

  abbrev replay_with :
      Option (DeadLetterMessage → Action E (Unit {0})) → String → Bool → Action E (Unit {0})
  replay_with none id delete_on_success e = (err dead_letter, e)
  replay_with (some run) id delete_on_success e =
      replay_found run id delete_on_success (store.get id e)

  pub replay : String → Bool → Action E (Unit {0})
  replay = replay_with replayer

  pub purge : String → Action E (Unit {0})
  purge = store.delete
