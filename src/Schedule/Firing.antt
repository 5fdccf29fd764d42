-- ===== src/Schedule/Firing.antt =====
-- The firing of a due job, and a cancel that comes while it runs.
use taas_server_py.Prelude.{
  ap, str_eq, ◌&&◌, ℕ, ◌+◌, ◌<◌, String, Option, some, none, true, Pointwise, Pointwise-map,
  Pointwise-trans, ◌≡◌, refl, ◌∙◌, arith, Dict,
}
use taas_server_py.Exec.{Exn, is_exception, Result, ok, err, Action}
use taas_server_py.Sql.{Table, TableLaws, updated}
use taas_server_py.Sql.Keys.{IsKeyed, map-IsKeyed}
use taas_server_py.Sql.Selected.{OnlyAt}
use taas_server_py.Schedule.{
  Job, interval, ScheduleConfig, Scheduler, scheduled, has_id, cancel, cancel_values, is_active,
  mark_succeeded, compute_next_run, dispatch, fire,
}
use taas_server_py.Schedule.Rows.{
  MayRun, Succeeded, Next, Retried, mark_succeeded-Pointwise, mark_failed-Pointwise,
}

-- what `cancel` may change of a job
record Kept (j j' : Job) : Type 0 where
  pub id : j'.id ≡ j.id
  pub run_count : j'.run_count ≡ j.run_count
  pub max_runs : j'.max_runs ≡ j.max_runs

-- the job is scheduled for `next`, if it may run again
pub record Rescheduled (next : ℕ) (j j' : Job) : Type 0 where
  pub again :
      MayRun j.max_runs (j.run_count + 1) → (j'.status ≡ scheduled) × (j'.next_run_at ≡ next)

module _ (db : Table Job) (laws : TableLaws db) (cfg : ScheduleConfig) where
  -- Where ids are keys: a job that is cancelled while it runs, and whose run then succeeds with a
  -- next time, is scheduled for that time, whatever its status was, if its cap leaves a run.
  pub cancel_overwritten :
      (id : String) (next now : ℕ) (t : db.Tbl)
      → IsKeyed (λ j. j.id) (db.rows t)
      → Pointwise
          (λ j j'. has_id id j ≡ true → Rescheduled next j j')
          (db.rows t)
          (db.rows (mark_succeeded db cfg id (some next) now (cancel db cfg id t)))
  unfolding cancel
  cancel_overwritten id next now t keyed =
      let test = λ (j : Job). has_id id j && is_active j.status in
      let cancelled_rows = laws.rows-update_where test cancel_values t in
      Pointwise-trans overwrites
        (rw cancelled_rows (Pointwise-map (updated test cancel_values) kept (db.rows t)))
        (mark_succeeded-Pointwise db laws cfg id (some next) now (cancel db cfg id t) (
          rw cancelled_rows
            (map-IsKeyed (λ j. j.id) (updated test cancel_values) keeps_id (db.rows t) keyed)))
    where
      keeps_id :
          (j : Job) → (updated (λ x. has_id id x && is_active x.status) cancel_values j).id ≡ j.id
      keeps_id j = ground arith

      kept : (j : Job) → Kept j (updated (λ x. has_id id x && is_active x.status) cancel_values j)
      kept j = record { id = keeps_id j; run_count = ground arith; max_runs = ground arith }

      overwrites :
          (x y z : Job)
          → Kept x y
          → OnlyAt (has_id id) (λ j j'. Succeeded now j j' × Next (some next) now j j') y z
          → has_id id x ≡ true
          → Rescheduled next x z
      overwrites x y z k step here = record {
        again = λ left.
            (step.here (ap (λ i. str_eq i id) k.id ∙ here)).1.again
              (rw (k.max_runs, k.run_count) left);
      }

module _ (db : Table Job) (laws : TableLaws db) (cfg : ScheduleConfig)
    (croniter : Option (String → ℕ → Result ℕ)) {E : Type 0} (publish : Job → Action E (Unit {0}))
    (dispatchers : Dict (Job → Action E (Unit {0}))) (clock : E → ℕ) (show : Exn → String) where
  -- Where ids are keys, a job whose dispatch succeeds at a scheduled time from which the next one
  -- can be computed is marked as succeeded with that next time, and no other job changes.
  pub fire_succeeds :
      (job : Job) (s : Scheduler db.Tbl E) (e : E) (next : Option ℕ)
      → IsKeyed (λ j. j.id) (db.rows s.tbl)
      → dispatch db cfg croniter publish dispatchers clock show job s.env ≡ (ok tt, e)
      → compute_next_run croniter job.kind job.next_run_at job.interval_seconds job.cron_expr
        ≡ ok next
      → let (res, s') = fire db cfg croniter publish dispatchers clock show job s in
        (res ≡ ok tt)
        × (s'.env ≡ e)
        × Pointwise
            (OnlyAt (has_id job.id) (λ j j'. Succeeded (clock e) j j' × Next next (clock e) j j'))
            (db.rows s.tbl)
            (db.rows s'.tbl)
  unfolding fire
  fire_succeeds job s e next keyed sent computed =
      rw (sent, computed)
        (refl, refl, mark_succeeded-Pointwise db laws cfg job.id next (clock e) s.tbl keyed)

  -- Where ids are keys, an interval job is scheduled for the time that it was due plus its interval,
  -- however late it was fired, if its cap leaves a run, and the run is counted.
  pub fire_interval :
      (job : Job) (s : Scheduler db.Tbl E) (e : E) (every : ℕ)
      → IsKeyed (λ j. j.id) (db.rows s.tbl)
      → job.kind ≡ interval
      → job.interval_seconds ≡ some every
      → 0 < every
      → dispatch db cfg croniter publish dispatchers clock show job s.env ≡ (ok tt, e)
      → Pointwise
          (OnlyAt (has_id job.id) (λ j j'.
            Succeeded (clock e) j j' × Next (some (job.next_run_at + every)) (clock e) j j'))
          (db.rows s.tbl)
          (db.rows (fire db cfg croniter publish dispatchers clock show job s).1.tbl)
  unfolding compute_next_run
  fire_interval job s e every keyed is_interval is_every positive sent =
      (fire_succeeds job s e (some (job.next_run_at + every)) keyed sent
        (rw (is_interval, is_every) (ground (arith, positive)))).2

  -- Where ids are keys, a job whose dispatch raises an exception counts a failed attempt: it is
  -- scheduled again after the backoff while attempts are left and else has failed, no other job
  -- changes, and the poller goes on.
  pub fire_fails :
      (job : Job) (s : Scheduler db.Tbl E) (e : E) (exn : Exn)
      → IsKeyed (λ j. j.id) (db.rows s.tbl)
      → is_exception exn ≡ true
      → dispatch db cfg croniter publish dispatchers clock show job s.env ≡ (err exn, e)
      → let (res, s') = fire db cfg croniter publish dispatchers clock show job s in
        (res ≡ ok tt)
        × Pointwise
            (OnlyAt (has_id job.id) (Retried (clock e + cfg.retry_backoff_seconds) (show exn)))
            (db.rows s.tbl)
            (db.rows s'.tbl)
  unfolding fire
  fire_fails job s e exn keyed caught raised =
      rw (raised, caught)
        (refl, mark_failed-Pointwise db laws cfg job.id (show exn) none (clock e) s.tbl keyed)

  -- A job that was dispatched, and whose next time cannot be computed, raises that error and leaves
  -- the table as it was: its run is not counted, and it is still running and claimed.
  pub fire_stuck :
      (job : Job) (s : Scheduler db.Tbl E) (e : E) (exn : Exn)
      → dispatch db cfg croniter publish dispatchers clock show job s.env ≡ (ok tt, e)
      → compute_next_run croniter job.kind job.next_run_at job.interval_seconds job.cron_expr
        ≡ err exn
      → let (res, s') = fire db cfg croniter publish dispatchers clock show job s in
        (res ≡ err exn) × (s'.tbl ≡ s.tbl) × (s'.env ≡ e)
  unfolding fire
  fire_stuck job s e exn sent failed = rw (sent, failed) (refl, refl, refl)
