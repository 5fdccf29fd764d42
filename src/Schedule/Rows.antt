-- ===== src/Schedule/Rows.antt =====
-- What the statements of the schedule repository do to the rows of the table.
use taas_server_py.Prelude.{
  ℕ, ◌+◌, ◌≤◌, ◌<◌, String, Option, some, none, Pointwise, ◌≡◌, refl, arith, inl, inr, Option-cases,
}
use taas_server_py.Sql.{Table, TableLaws, first_chars}
use taas_server_py.Sql.Keys.{IsKeyed}
use taas_server_py.Sql.Selected.{OnlyAt, found_Pointwise}
use taas_server_py.Schedule.{
  Job, ScheduleConfig, scheduled, done, failed, has_id, mark_succeeded, mark_failed, succeed_values,
  fail_values, retry_time,
}

-- a job may run once more after its run count has grown to `runs`
abbrev pub MayRun : Option ℕ → ℕ → Type 0
MayRun none runs = Unit {0}
MayRun (some max) runs = runs < max

-- what a successful run with no next time leaves of a job
pub record Ended (now : ℕ) (j j' : Job) : Type 0 where
  pub status : j'.status ≡ done
  pub next_run_at : j'.next_run_at ≡ j.next_run_at

-- what a successful run leaves of a job that is due again at `next`
pub record Ran (next now : ℕ) (j j' : Job) : Type 0 where
  pub again :
      MayRun j.max_runs (j.run_count + 1) → (j'.status ≡ scheduled) × (j'.next_run_at ≡ next)
  pub capped :
      ¬ MayRun j.max_runs (j.run_count + 1) → (j'.status ≡ done) × (j'.next_run_at ≡ j.next_run_at)

-- what a run that succeeded always leaves
pub record Succeeded (now : ℕ) (j j' : Job) : Type 0 where
  pub counted : j'.run_count ≡ j.run_count + 1
  pub attempts : j'.attempts ≡ 0
  pub released : j'.claimed_at ≡ none
  pub last_run_at : j'.last_run_at ≡ some now
  pub last_error : j'.last_error ≡ none

-- what a run that failed leaves
pub record Retried (retry_at : ℕ) (error : String) (j j' : Job) : Type 0 where
  pub counted : j'.attempts ≡ j.attempts + 1
  pub retried :
      j.attempts + 1 < j.max_retries → (j'.status ≡ scheduled) × (j'.next_run_at ≡ retry_at)
  pub exhausted :
      j.max_retries ≤ j.attempts + 1 → (j'.status ≡ failed) × (j'.next_run_at ≡ j.next_run_at)
  pub same_runs : j'.run_count ≡ j.run_count
  pub released : j'.claimed_at ≡ none
  pub last_error : j'.last_error ≡ some (first_chars 1000 error)

abbrev pub Next : Option ℕ → ℕ → Job → Job → Type 0
Next none now j j' = Ended now j j'
Next (some next) now j j' = Ran next now j j'

module _ (db : Table Job) (laws : TableLaws db) (cfg : ScheduleConfig) where
  ran : (next now : ℕ) (j : Job) → Ran next now j (succeed_values (some next) now j j)
  ran next now j = elim (Option-cases j.max_runs) [
    | inl none_set ↦ rw none_set (record { again = λ _. (refl, refl); capped = λ h. absurd (h tt) })
    | inr (max, is_max) ↦
        rw is_max (record { again = λ h. ground (arith, h); capped = λ h. ground (arith, h) })
  ]

  succeed_step :
      (next : Option ℕ) (now : ℕ) (j : Job)
      → Succeeded now j (succeed_values next now j j)
        × Next next now j (succeed_values next now j j)
  succeed_step none now j = (
    record {
      counted = refl;
      attempts = refl;
      released = refl;
      last_run_at = refl;
      last_error = refl;
    },
    record { status = refl; next_run_at = refl },
  )
  succeed_step (some next) now j = (
    record {
      counted = refl;
      attempts = refl;
      released = refl;
      last_run_at = refl;
      last_error = refl;
    },
    ran next now j,
  )

  fail_step :
      (error : String) (next : Option ℕ) (now : ℕ) (j : Job)
      → Retried (retry_time cfg next now) error j (fail_values cfg error next now j j)
  fail_step error next now j = record {
    counted = refl;
    retried = λ h. ground (arith, h);
    exhausted = λ h. ground (arith, h);
    same_runs = refl;
    released = refl;
    last_error = refl;
  }

  -- `mark_succeeded` changes the job with that id and no other, where ids are keys: it counts the
  -- run, clears the attempts, the claim and the last error, and notes the time. Without a next time
  -- the job is done; with one it is scheduled for it if its cap leaves a run, and else done.
  pub mark_succeeded-Pointwise :
      (id : String) (next : Option ℕ) (now : ℕ) (t : db.Tbl)
      → IsKeyed (λ j. j.id) (db.rows t)
      → Pointwise
          (OnlyAt (has_id id) (λ j j'. Succeeded now j j' × Next next now j j'))
          (db.rows t)
          (db.rows (mark_succeeded db cfg id next now t))
  unfolding mark_succeeded
  mark_succeeded-Pointwise id next now t keyed =
      found_Pointwise (λ j. j.id) db laws (succeed_values next now) id t keyed
        (λ j j'. Succeeded now j j' × Next next now j j') (succeed_step next now)

  -- `mark_failed` changes the job with that id and no other, where ids are keys: it counts the
  -- attempt, clears the claim and keeps the first characters of the error. The job is scheduled
  -- again, at the given time or after the backoff, while attempts are left, and else it has failed.
  pub mark_failed-Pointwise :
      (id error : String) (next : Option ℕ) (now : ℕ) (t : db.Tbl)
      → IsKeyed (λ j. j.id) (db.rows t)
      → Pointwise
          (OnlyAt (has_id id) (Retried (retry_time cfg next now) error))
          (db.rows t)
          (db.rows (mark_failed db cfg id error next now t))
  unfolding mark_failed
  mark_failed-Pointwise id error next now t keyed =
      found_Pointwise (λ j. j.id) db laws (fail_values cfg error next now) id t keyed
        (Retried (retry_time cfg next now) error) (fail_step error next now)
