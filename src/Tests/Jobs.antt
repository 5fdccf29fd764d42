-- ===== src/Tests/Jobs.antt =====
-- The scheduler of libs/resiliant at concrete tables.
use taas_server_py.Prelude.{
  str_eq_iff, String, ℕ, ◌+◌, true, false, none, some, List, [], ◌∷◌, All, Pointwise, ◌≡◌, arith,
  Dict,
}
use taas_server_py.Exec.{Exn, app, err, ok, Action}
use taas_server_py.Sql.Keys.{IsKeyed}
use taas_server_py.Sql.Model.{list_table, list_table-laws}
use taas_server_py.Schedule.{
  Job, ScheduleConfig, Scheduler, interval, once, cron, scheduled, running, has_id, is_among,
  fetch_due_batch, mark_succeeded, cancel,
}
use taas_server_py.Schedule.Claims.{fetch_due_disjoint}
use taas_server_py.Schedule.Firing.{Rescheduled, cancel_overwritten}

abbrev job : Job
job = record {
  id = "a";
  job_name = "report";
  kind = interval;
  cron_expr = none;
  interval_seconds = some 10;
  channel = some "reports";
  event_type = none;
  ordering_key = none;
  payload = "{}";
  headers = "{}";
  next_run_at = 50;
  status = running;
  last_run_at = none;
  claimed_at = some 55;
  run_count = 1;
  max_runs = some 3;
  attempts = 1;
  max_retries = 2;
  last_error = none;
}

abbrev due_job : Job
due_job = record job {
  id = "b";
  job_name = "mail";
  status = scheduled;
  claimed_at = none;
  channel = none;
  kind = once;
}

abbrev cron_job : Job
cron_job = record job { kind = cron }

abbrev jobs : List Job
jobs = job ∷ due_job ∷ record due_job { id = "c"; next_run_at = 45 } ∷ []

abbrev cfg : ScheduleConfig
cfg = record {
  batch_size = 2;
  max_retries = 3;
  retry_backoff_seconds = 30;
  claim_timeout_seconds = 300;
  use_skip_locked = true;
}

jobs-IsKeyed : IsKeyed (λ j. j.id) jobs
jobs-IsKeyed k = ground (arith, str_eq_iff "a" k, str_eq_iff "b" k, str_eq_iff "c" k, a_b, a_c, b_c)
  where
    a_b : ¬ (◌≡◌ {A = String} "a" "b")
    a_b e = cc ((str_eq_iff "a" "b").1 e)

    a_c : ¬ (◌≡◌ {A = String} "a" "c")
    a_c e = cc ((str_eq_iff "a" "c").1 e)

    b_c : ¬ (◌≡◌ {A = String} "b" "c")
    b_c e = cc ((str_eq_iff "b" "c").1 e)

fetch_due_disjoint_example :
    let (batch, t') = fetch_due_batch list_table cfg (some 1) 60 jobs in
    All (λ j. is_among batch j ≡ false) (fetch_due_batch list_table cfg (some 1) 61 t').0
fetch_due_disjoint_example =
    fetch_due_disjoint list_table list_table-laws cfg (some 1) (some 1) 60 61 jobs

cancel_overwritten_example :
    Pointwise
      (λ j j'. has_id "a" j ≡ true → Rescheduled 60 j j')
      jobs
      (mark_succeeded list_table cfg "a" (some 60) 61 (cancel list_table cfg "a" jobs))
cancel_overwritten_example =
    cancel_overwritten list_table list_table-laws cfg "a" 60 61 jobs jobs-IsKeyed

-- A broker whose world is the time, and that takes one unit to answer.
abbrev deliver : Job → Action ℕ (Unit {0})
deliver j now = (ok tt, now + 1)

abbrev no_callbacks : Dict (Job → Action ℕ (Unit {0}))
no_callbacks = []

abbrev show : Exn → String
show e = "error"

abbrev scheduler : Scheduler (List Job) ℕ
scheduler = record { tbl = jobs; env = 65 }

-- a broker that is down
abbrev down : Job → Action ℕ (Unit {0})
down j now = (err (app 1), now + 1)
