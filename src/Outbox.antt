-- ===== src/Outbox.antt =====
-- libs/resiliant/src/resiliant/outbox/outbox_repository.py and outbox_service.py: the transactional
-- outbox over a table. Times are whole units of `unit_per_day` to a day; each call of
-- `now_in_utc()` is an argument. JSON columns are their texts.
pub mod Steps
pub mod Claims
pub mod Budget
pub mod Failure
use taas_server_py.Prelude.{
  ℕ, ◌+◌, String, Bool, true, false, ◌&&◌, Option, none, some, List, [], ◌∷◌, map, ltb, leb,
  or_default, if◌then◌else◌, str_eq,
}
use taas_server_py.Exec.{Result, ok, err}
use taas_server_py.Sql.{Table, one_or_none, update_found, is_in, first_chars}

pub data OutboxStatus : Type 0 where
  pending processing published failed dead_letter : OutboxStatus

-- `OutboxEventTable`
pub record OutboxRow : Type 0 where
  pub id : String
  pub event_id : String
  pub event_type : String
  pub channel : String
  pub ordering_key : Option String
  pub payload : String
  pub headers : String
  pub status : OutboxStatus
  pub retry_count : ℕ
  pub max_retries : ℕ
  pub last_error : Option String
  pub processed_at : Option ℕ
  pub created_at : ℕ
  pub updated_at : ℕ

-- the settings of `OutboxConfig` that the repository and the service read
pub record OutboxConfig : Type 0 where
  pub batch_size : ℕ
  pub max_retries : ℕ
  pub processing_timeout : ℕ
  pub use_skip_locked : Bool

abbrev pub is_status : OutboxStatus → OutboxStatus → Bool
is_status pending pending = true
is_status processing processing = true
is_status published published = true
is_status failed failed = true
is_status dead_letter dead_letter = true
is_status _ _ = false

-- the rows that a poller may claim: pending, with retries left, created in the last seven days
abbrev pub is_due : ℕ → ℕ → OutboxRow → Bool
is_due week now r =
    is_status pending r.status && ltb r.retry_count r.max_retries && leb now (r.created_at + week)

abbrev claim : ℕ → OutboxRow → OutboxRow
claim now r = record r { status = processing; updated_at = now }

abbrev publish : ℕ → OutboxRow → OutboxRow
publish now r = record r { status = published; processed_at = some now; updated_at = now }

abbrev fail_as : OutboxStatus → ℕ → String → ℕ → OutboxRow → OutboxRow
fail_as status retries error now r = record r {
  status = status;
  retry_count = retries;
  last_error = some (first_chars 1000 error);
  updated_at = now;
}

-- the values that `mark_failed` writes, from the event that it read
abbrev pub fail_values : String → ℕ → OutboxRow → OutboxRow → OutboxRow
fail_values error now event r =
    let new_status =
      if leb event.max_retries (event.retry_count + 1) then dead_letter else failed in
    fail_as new_status (event.retry_count + 1) error now r

abbrev release : ℕ → OutboxRow → OutboxRow
release now r = record r { status = pending; updated_at = now }

abbrev pub is_stale : ℕ → ℕ → OutboxRow → Bool
is_stale timeout now r = is_status processing r.status && ltb (r.updated_at + timeout) now

abbrev pub has_id : String → OutboxRow → Bool
has_id id r = str_eq r.id id

abbrev pub ids : List OutboxRow → List String
ids = map (λ r. r.id)

abbrev pub is_among : List OutboxRow → OutboxRow → Bool
is_among events r = is_in r.id (ids events)

module _ (db : Table OutboxRow) (week : ℕ) (cfg : OutboxConfig) where
  pub save : OutboxRow → db.Tbl → db.Tbl
  save = db.add_row

  abbrev claim_all : List OutboxRow → ℕ → db.Tbl → db.Tbl
  claim_all [] now t = t
  claim_all (e ∷ es) now t = db.update_where (is_among (e ∷ es)) (claim now) t

  pub fetch_pending_batch : Option ℕ → ℕ → ℕ → db.Tbl → List OutboxRow × db.Tbl
  fetch_pending_batch requested now later t =
      let events =
        db.select_batch cfg.use_skip_locked (is_due week now) (λ r. r.created_at)
          (or_default requested cfg.batch_size) t in
      (events, claim_all events later t)

  pub mark_published : String → ℕ → db.Tbl → db.Tbl
  mark_published id now t = db.update_where (has_id id) (publish now) t

  pub mark_failed : String → String → ℕ → db.Tbl → db.Tbl
  mark_failed id error now t =
      update_found db (has_id id) (fail_values error now)
        (one_or_none (db.select_where (has_id id) t)) t

  -- the count and the table
  pub reset_stale_processing : Option ℕ → ℕ → ℕ → db.Tbl → ℕ × db.Tbl
  reset_stale_processing timeout now later t =
      let test = is_stale (or_default timeout cfg.processing_timeout) now in
      (db.count_where test t, db.update_where test (release later) t)

  -- `OutboxService.save_raw_message`, with the ids and the time that the database and
  -- `generate_id` give
  pub save_raw_message :
      String
      → String
      → ℕ
      → String
      → String
      → String
      → Option String
      → Option String
      → Option ℕ
      → db.Tbl
      → OutboxRow × db.Tbl
  unfolding save
  save_raw_message id event_id now channel payload event_type ordering_key headers retries t =
      let event : OutboxRow = record {
        id = id;
        event_id = event_id;
        event_type = event_type;
        channel = channel;
        ordering_key = ordering_key;
        payload = payload;
        headers = elim headers [ none ↦ "{}" | some h ↦ h ];
        status = pending;
        retry_count = 0;
        max_retries = or_default retries cfg.max_retries;
        last_error = none;
        processed_at = none;
        created_at = now;
        updated_at = now;
      } in
      (event, save event t)

-- what `save_event` reads of an event; the columns `source_service`, `correlation_id` and `user_id` are
-- not modelled
pub record DomainEvent : Type 0 where
  pub event_id : String
  pub event_type : String
  pub class_name : String
  pub payload : Result String

abbrev or_class_name : String → String → String
or_class_name event_type class_name = if str_eq event_type "" then class_name else event_type

-- `OutboxService.save_event`: `flush` is what the database makes of the insert, `dumps` the text of the
-- headers, `id` and `now` what the database gives
module _ (db : Table OutboxRow) (cfg : OutboxConfig)
    (flush : OutboxRow → db.Tbl → Result (Unit {0})) where
  abbrev pub pending_row :
      String → ℕ → DomainEvent → String → String → Option String → String → Option ℕ → OutboxRow
  pending_row id now event payload channel ordering_key headers retries = record {
    id = id;
    event_id = event.event_id;
    event_type = or_class_name event.event_type event.class_name;
    channel = channel;
    ordering_key = ordering_key;
    payload = payload;
    headers = headers;
    status = pending;
    retry_count = 0;
    max_retries = or_default retries cfg.max_retries;
    last_error = none;
    processed_at = none;
    created_at = now;
    updated_at = now;
  }

  abbrev pub flushed : OutboxRow → db.Tbl → Result (Unit {0}) → Result OutboxRow × db.Tbl
  flushed row t (ok _) = (ok row, db.add_row row t)
  flushed row t (err exn) = (err exn, t)

  abbrev pub with_payload :
      String
      → ℕ
      → DomainEvent
      → String
      → Option String
      → String
      → Option ℕ
      → db.Tbl
      → Result String
      → Result OutboxRow × db.Tbl
  with_payload id now event channel ordering_key headers retries t (ok payload) =
      let row = pending_row id now event payload channel ordering_key headers retries in
      flushed row t (flush row t)
  with_payload id now event channel ordering_key headers retries t (err exn) = (err exn, t)

  unfoldable pub save_event :
      String
      → ℕ
      → DomainEvent
      → String
      → Option String
      → String
      → Option ℕ
      → db.Tbl
      → Result OutboxRow × db.Tbl
  save_event id now event channel ordering_key headers retries t =
      with_payload id now event channel ordering_key headers retries t event.payload

-- the per-status counters of `get_stats`
pub record OutboxStats : Type 0 where
  pub pending : ℕ
  pub processing : ℕ
  pub published : ℕ
  pub failed : ℕ
  pub dead_letter : ℕ

pub get_stats : (db : Table OutboxRow) → db.Tbl → OutboxStats
get_stats db t = record {
  pending = db.count_where (λ r. is_status OutboxStatus.pending r.status) t;
  processing = db.count_where (λ r. is_status OutboxStatus.processing r.status) t;
  published = db.count_where (λ r. is_status OutboxStatus.published r.status) t;
  failed = db.count_where (λ r. is_status OutboxStatus.failed r.status) t;
  dead_letter = db.count_where (λ r. is_status OutboxStatus.dead_letter r.status) t;
}
