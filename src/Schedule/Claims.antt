-- ===== src/Schedule/Claims.antt =====
-- What a scheduler gets when it claims due jobs, and what it leaves.
use taas_server_py.Prelude.{
  ℕ, ◌≤◌, Option, false, List, [], ◌∷◌, map, All, length, or_default, ◌≡◌, refl, arith,
}
use taas_server_py.Sql.{Table, TableLaws, updated}
use taas_server_py.Sql.Keys.{All-weaken}
use taas_server_py.Sql.Batches.{batch_avoids, map_none}
use taas_server_py.Schedule.{
  Job, ScheduleConfig, scheduled, is_due, is_among, claim, fetch_due_batch, claim_all,
}

-- a job that a scheduler may fire
pub record IsFireable (now : ℕ) (j : Job) : Type 0 where
  pub status : j.status ≡ scheduled
  pub due : j.next_run_at ≤ now

module _ (db : Table Job) (laws : TableLaws db) (cfg : ScheduleConfig) where
  -- A batch holds at most as many jobs as asked for, or as configured, and each is scheduled and
  -- due. In the table after it, every row with the id of one of the batch is running and claimed
  -- at that time, and every other row is as it was.
  pub fetch_due_claims :
      (requested : Option ℕ) (now : ℕ) (t : db.Tbl)
      → let (jobs, t') = fetch_due_batch db cfg requested now t in
        (length jobs ≤ or_default requested cfg.batch_size)
        × All (IsFireable now) jobs
        × (db.rows t' ≡ map (updated (is_among jobs) (claim now)) (db.rows t))
  unfolding fetch_due_batch
  fetch_due_claims requested now t =
      let order = λ (j : Job). j.next_run_at in
      let n = or_default requested cfg.batch_size in
      (
        laws.select_batch-limit cfg.use_skip_locked (is_due now) order n t,
        All-weaken (λ j due. ground arith) _
            (laws.select_batch-test cfg.use_skip_locked (is_due now) order n t),
        claim_rows _,
      )
    where
      claim_rows :
          (jobs : List Job)
          → db.rows (claim_all db cfg jobs now t)
            ≡ map (updated (is_among jobs) (claim now)) (db.rows t)
      claim_rows [] = map_none db laws (is_among []) (claim now) (λ j. refl) (db.rows t)
      claim_rows (j ∷ js) = laws.rows-update_where (is_among (j ∷ js)) (claim now) t

  after_claim :
      (jobs : List Job) (second : Option ℕ) (now now' : ℕ) (t t' : db.Tbl)
      → db.rows t' ≡ map (updated (is_among jobs) (claim now)) (db.rows t)
      → All (λ j. is_among jobs j ≡ false) (fetch_due_batch db cfg second now' t').0
  unfolding fetch_due_batch
  after_claim jobs second now now' t t' h =
      batch_avoids db laws (is_among jobs) (is_due now') (updated (is_among jobs) (claim now))
        cfg.use_skip_locked (λ j. j.next_run_at) (or_default second cfg.batch_size) t t' h
        (λ j. ground arith)

  -- Two claims in a row share no job: nothing that the first gave is given by the second.
  pub fetch_due_disjoint :
      (first second : Option ℕ) (now now' : ℕ) (t : db.Tbl)
      → let (jobs, t') = fetch_due_batch db cfg first now t in
        All (λ j. is_among jobs j ≡ false) (fetch_due_batch db cfg second now' t').0
  fetch_due_disjoint first second now now' t =
      let (jobs, t') = fetch_due_batch db cfg first now t in
      after_claim jobs second now now' t t' (fetch_due_claims first now t).2
