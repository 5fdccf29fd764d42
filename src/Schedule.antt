-- ===== src/Schedule.antt =====
-- libs/resiliant/src/resiliant/schedule: schedule_repository.py, _recurrence.py, schedule_service.py
-- and the firing of jobs in schedule_poller.py. Times are naive UTC in whole seconds; each call of
-- `utcnow_naive()` is an argument. The cron library, the broker and the callbacks are parameters.
pub mod Rows
pub mod Claims
pub mod Firing
use taas_server_py.Prelude.{
  length, ℕ, ◌+◌, String, Bool, true, false, ◌&&◌, ◌||◌, not, Option, none, some, List, [], ◌∷◌,
  map, ltb, leb, ◌==◌, or_default, if◌then◌else◌, str_eq, Dict, lookup,
}
use taas_server_py.Exec.{
  Exn, value_error, runtime_error, cron_support, is_exception, Result, ok, err, Action,
}
use taas_server_py.Sql.{Table, one_or_none, update_found, is_in, first_chars}

pub data JobKind : Type 0 where
  once interval cron : JobKind

pub data JobStatus : Type 0 where
  scheduled running done failed cancelled : JobStatus

-- `ScheduledJobTable`
pub record Job : Type 0 where
  pub id : String
  pub job_name : String
  pub kind : JobKind
  pub cron_expr : Option String
  pub interval_seconds : Option ℕ
  pub channel : Option String
  pub event_type : Option String
  pub ordering_key : Option String
  pub payload : String
  pub headers : String
  pub next_run_at : ℕ
  pub status : JobStatus
  pub last_run_at : Option ℕ
  pub claimed_at : Option ℕ
  pub run_count : ℕ
  pub max_runs : Option ℕ
  pub attempts : ℕ
  pub max_retries : ℕ
  pub last_error : Option String

-- the settings of `ScheduleConfig` that the repository reads
pub record ScheduleConfig : Type 0 where
  pub batch_size : ℕ
  pub max_retries : ℕ
  pub retry_backoff_seconds : ℕ
  pub claim_timeout_seconds : ℕ
  pub use_skip_locked : Bool

-- the arguments that every `schedule_*` call hands to `_create` unchanged
pub record Delivery : Type 0 where
  pub channel : Option String
  pub event_type : Option String
  pub payload : Option String
  pub ordering_key : Option String
  pub headers : Option String
  pub max_retries : Option ℕ

-- `text or {}`, for JSON as its text
abbrev json_or_empty : Option String → String
json_or_empty none = "{}"
json_or_empty (some text) = text

abbrev pub is_scheduled : JobStatus → Bool
is_scheduled scheduled = true
is_scheduled _ = false

abbrev pub is_running : JobStatus → Bool
is_running running = true
is_running _ = false

-- `status.in_([SCHEDULED, RUNNING])`
abbrev pub is_active : JobStatus → Bool
is_active s = is_scheduled s || is_running s

abbrev pub is_due : ℕ → Job → Bool
is_due now j = is_scheduled j.status && leb j.next_run_at now

abbrev pub has_id : String → Job → Bool
has_id id j = str_eq j.id id

abbrev pub is_among : List Job → Job → Bool
is_among jobs j = is_in j.id (map (λ x. x.id) jobs)

abbrev pub claim : ℕ → Job → Job
claim now j = record j { status = running; claimed_at = some now }

-- `reached_cap` of `mark_succeeded`, for the new run count
abbrev pub reached_cap : Option ℕ → ℕ → Bool
reached_cap none runs = false
reached_cap (some max) runs = leb max runs

-- the values that `mark_succeeded` writes, from the job that it read
abbrev pub succeed_values : Option ℕ → ℕ → Job → Job → Job
succeed_values none now job j = record j {
  status = done;
  next_run_at = job.next_run_at;
  last_run_at = some now;
  claimed_at = none;
  run_count = job.run_count + 1;
  attempts = 0;
  last_error = none;
}
succeed_values (some next) now job j = record j {
  status = if reached_cap job.max_runs (job.run_count + 1) then done else scheduled;
  next_run_at = if reached_cap job.max_runs (job.run_count + 1) then job.next_run_at else next;
  last_run_at = some now;
  claimed_at = none;
  run_count = job.run_count + 1;
  attempts = 0;
  last_error = none;
}

abbrev pub retry_time : ScheduleConfig → Option ℕ → ℕ → ℕ
retry_time cfg none now = now + cfg.retry_backoff_seconds
retry_time cfg (some next) now = next

-- the values that `mark_failed` writes, from the job that it read
abbrev pub fail_values : ScheduleConfig → String → Option ℕ → ℕ → Job → Job → Job
fail_values cfg error next now job j =
    let exhausted = leb job.max_retries (job.attempts + 1) in
    record j {
      status = if exhausted then failed else scheduled;
      next_run_at = if exhausted then job.next_run_at else retry_time cfg next now;
      claimed_at = none;
      attempts = job.attempts + 1;
      last_error = some (first_chars 1000 error);
    }

abbrev cancel_values : Job → Job
cancel_values j = record j { status = cancelled; claimed_at = none }

abbrev release : Job → Job
release j = record j { status = scheduled; claimed_at = none }

-- `claimed_at < threshold`, which is not true of a missing time
abbrev pub claimed_before : Option ℕ → ℕ → ℕ → Bool
claimed_before none timeout now = false
claimed_before (some at) timeout now = ltb (at + timeout) now

abbrev pub is_stale : ℕ → ℕ → Job → Bool
is_stale timeout now j = is_running j.status && claimed_before j.claimed_at timeout now

module _ (db : Table Job) (cfg : ScheduleConfig) where
  pub save : Job → db.Tbl → db.Tbl
  save = db.add_row

  abbrev pub get : String → db.Tbl → Option Job
  get id t = one_or_none (db.select_where (has_id id) t)

  pub get_active_by_name : String → db.Tbl → Option Job
  get_active_by_name name t =
      one_or_none (db.select_where (λ j. str_eq j.job_name name && is_active j.status) t)

  abbrev claim_all : List Job → ℕ → db.Tbl → db.Tbl
  claim_all [] now t = t
  claim_all (j ∷ js) now t = db.update_where (is_among (j ∷ js)) (claim now) t

  pub fetch_due_batch : Option ℕ → ℕ → db.Tbl → List Job × db.Tbl
  fetch_due_batch requested now t =
      let jobs =
        db.select_batch cfg.use_skip_locked (is_due now) (λ j. j.next_run_at)
          (or_default requested cfg.batch_size) t in
      (jobs, claim_all jobs now t)

  pub mark_succeeded : String → Option ℕ → ℕ → db.Tbl → db.Tbl
  mark_succeeded id next now t = update_found db (has_id id) (succeed_values next now) (get id t) t

  pub mark_failed : String → String → Option ℕ → ℕ → db.Tbl → db.Tbl
  mark_failed id error next now t =
      update_found db (has_id id) (fail_values cfg error next now) (get id t) t

  pub cancel : String → db.Tbl → db.Tbl
  cancel id t = db.update_where (λ j. has_id id j && is_active j.status) cancel_values t

  pub reset_stale_running : Option ℕ → ℕ → db.Tbl → ℕ × db.Tbl
  reset_stale_running timeout now t =
      let test = is_stale (or_default timeout cfg.claim_timeout_seconds) now in
      (db.count_where test t, db.update_where test release t)

  abbrev is_some : Option Job → Bool
  is_some none = false
  is_some (some j) = true

  -- `ScheduleService.exists_active`
  pub exists_active : String → db.Tbl → Bool
  exists_active name t = is_some (get_active_by_name name t)

  -- `ScheduleService._create`, with the id that the database gives
  pub create :
      String
      → String
      → JobKind
      → ℕ
      → Option ℕ
      → Option String
      → Option ℕ
      → Delivery
      → db.Tbl
      → Job × db.Tbl
  unfolding save
  create id name kind next every cron_expr runs extra t =
      let job : Job = record {
        id = id;
        job_name = name;
        kind = kind;
        cron_expr = cron_expr;
        interval_seconds = every;
        channel = extra.channel;
        event_type = extra.event_type;
        ordering_key = extra.ordering_key;
        payload = json_or_empty extra.payload;
        headers = json_or_empty extra.headers;
        next_run_at = next;
        status = scheduled;
        last_run_at = none;
        claimed_at = none;
        run_count = 0;
        max_runs = runs;
        attempts = 0;
        max_retries = elim extra.max_retries [ none ↦ cfg.max_retries | some n ↦ n ];
        last_error = none;
      } in
      (job, save job t)

  -- `ScheduleService.schedule_once`
  pub schedule_once : String → String → ℕ → Delivery → db.Tbl → Job × db.Tbl
  unfolding create
  schedule_once id name run_at extra t = create id name once run_at none none none extra t

  -- `ScheduleService.schedule_after`
  pub schedule_after : String → String → ℕ → ℕ → Delivery → db.Tbl → Job × db.Tbl
  unfolding schedule_once
  schedule_after id name delay now extra t = schedule_once id name (now + delay) extra t

  -- `ScheduleService.schedule_interval`
  pub schedule_interval :
      String → String → ℕ → Option ℕ → ℕ → Option ℕ → Delivery → db.Tbl → Result Job × db.Tbl
  unfolding create
  schedule_interval id name every start now runs extra t =
      if every == 0
      then (err value_error, t)
      else (let first : ℕ = elim start [ none ↦ now + every | some at ↦ at ] in
          let (job, t') = create id name interval first (some every) none runs extra t in
          (ok job, t'))

  -- `ScheduleService.schedule_cron`, with what `cron_next` gives for the present
  pub schedule_cron :
      String → String → String → Result ℕ → Option ℕ → Delivery → db.Tbl → Result Job × db.Tbl
  unfolding create
  schedule_cron id name expr (err e) runs extra t = (err e, t)
  schedule_cron id name expr (ok first) runs extra t =
      let (job, t') = create id name cron first none (some expr) runs extra t in (ok job, t')

-- `croniter(expr, after).get_next`, where the library is there
module _ (croniter : Option (String → ℕ → Result ℕ)) where
  abbrev with_croniter : Option (String → ℕ → Result ℕ) → String → ℕ → Result ℕ
  with_croniter none expr after = err cron_support
  with_croniter (some next) expr after = next expr after

  pub cron_next : String → ℕ → Result ℕ
  cron_next expr after = with_croniter croniter expr after

  abbrev interval_next : Option ℕ → ℕ → Result (Option ℕ)
  interval_next none from = err value_error
  interval_next (some every) from = if every == 0 then err value_error else ok (some (from + every))

  abbrev some_result : Result ℕ → Result (Option ℕ)
  some_result (ok n) = ok (some n)
  some_result (err e) = err e

  abbrev cron_run : Option String → ℕ → Result (Option ℕ)
  cron_run none from = err value_error
  cron_run (some expr) from =
      if str_eq expr "" then err value_error else some_result (cron_next expr from)

  -- an interval that is not positive is 0 here
  unfoldable pub compute_next_run : JobKind → ℕ → Option ℕ → Option String → Result (Option ℕ)
  unfolding cron_next
  compute_next_run once from every expr = ok none
  compute_next_run interval from every expr = interval_next every from
  compute_next_run cron from every expr = cron_run expr from

-- the poller's table and the world in which it dispatches
pub record Scheduler (Tbl E : Type 0) : Type 0 where
  pub tbl : Tbl
  pub env : E

module _ (db : Table Job) (cfg : ScheduleConfig) (croniter : Option (String → ℕ → Result ℕ))
    {E : Type 0} (publish : Job → Action E (Unit {0}))
    (dispatchers : Dict (Job → Action E (Unit {0}))) (clock : E → ℕ) (show : Exn → String) where
  abbrev is_truthy : Option String → Bool
  is_truthy none = false
  is_truthy (some s) = not (str_eq s "")

  abbrev call_back : Option (Job → Action E (Unit {0})) → Job → Action E (Unit {0})
  call_back none job e = (err runtime_error, e)
  call_back (some callback) job e = callback job e

  -- `_dispatch`
  unfoldable pub dispatch : Job → Action E (Unit {0})
  dispatch job e =
      if is_truthy job.channel
      then publish job e
      else call_back (lookup job.job_name dispatchers) job e

  abbrev fired : Job → Result (Option ℕ) → Action (Scheduler db.Tbl E) (Unit {0})
  fired job (err exn) s = (err exn, s)
  fired job (ok next) s =
      (ok tt, record s { tbl = mark_succeeded db cfg job.id next (clock s.env) s.tbl })

  abbrev fire_ended : Job → Result (Unit {0}) → Action (Scheduler db.Tbl E) (Unit {0})
  fire_ended job (ok _) s =
      fired job
        (compute_next_run croniter job.kind job.next_run_at job.interval_seconds job.cron_expr) s
  fire_ended job (err exn) s =
      if is_exception exn
      then (ok tt, record s { tbl = mark_failed db cfg job.id (show exn) none (clock s.env) s.tbl })
      else (err exn, s)

  -- `_fire`
  pub fire : Job → Action (Scheduler db.Tbl E) (Unit {0})
  unfolding dispatch compute_next_run
  fire job s = let (res, e) = dispatch job s.env in fire_ended job res (record s { env = e })

  pub fire_all : List Job → Action (Scheduler db.Tbl E) (Unit {0})
  fire_all [] s = (ok tt, s)
  fire_all (job ∷ jobs) s =
      let (res, s') = fire job s in elim res [ ok _ ↦ fire_all jobs s' | err exn ↦ (err exn, s') ]

  -- `_poll_and_fire`
  pub poll_and_fire : Action (Scheduler db.Tbl E) ℕ
  unfolding fire_all
  poll_and_fire s =
      let (jobs, t) = fetch_due_batch db cfg (some cfg.batch_size) (clock s.env) s.tbl in
      let (res, s') = fire_all jobs (record s { tbl = t }) in
      elim res [ ok _ ↦ (ok (length jobs), s') | err exn ↦ (err exn, s') ]
