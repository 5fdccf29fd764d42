-- ===== src/Outbox/Failure.antt =====
-- What `mark_failed` leaves of an event, and what becomes of it.
use taas_server_py.Prelude.{
  ℕ, ◌+◌, ◌≤◌, ◌<◌, String, false, some, Option, All, Pointwise, or_default, ◌≡◌, refl, arith,
}
use taas_server_py.Sql.{Table, TableLaws, updated, first_chars}
use taas_server_py.Sql.Keys.{IsKeyed}
use taas_server_py.Sql.Selected.{OnlyAt, found_rows, found_Pointwise}
use taas_server_py.Sql.Batches.{batch_avoids}
use taas_server_py.Outbox.{
  OutboxRow, OutboxConfig, failed, dead_letter, has_id, is_due, fail_values, mark_failed,
  fetch_pending_batch,
}

-- what a failed attempt to publish leaves of an event
pub record RetryCounted (error : String) (now : ℕ) (r r' : OutboxRow) : Type 0 where
  pub counted : r'.retry_count ≡ r.retry_count + 1
  pub retries_left : r.retry_count + 1 < r.max_retries → r'.status ≡ failed
  pub exhausted : r.max_retries ≤ r.retry_count + 1 → r'.status ≡ dead_letter
  pub last_error : r'.last_error ≡ some (first_chars 1000 error)
  pub updated_at : r'.updated_at ≡ now
  pub same_payload : r'.payload ≡ r.payload

module _ (db : Table OutboxRow) (laws : TableLaws db) (week : ℕ) (cfg : OutboxConfig) where
  count_step :
      (error : String) (now : ℕ) (r : OutboxRow)
      → RetryCounted error now r (fail_values error now r r)
  count_step error now r = record {
    counted = refl;
    retries_left = λ h. ground (arith, h);
    exhausted = λ h. ground (arith, h);
    last_error = refl;
    updated_at = refl;
    same_payload = refl;
  }

  -- `mark_failed` changes the event with that id and no other, where ids are keys: it counts the
  -- retry, keeps the first characters of the error, and marks the event as failed while retries
  -- are left and else as a dead letter.
  pub mark_failed-RetryCounted :
      (id error : String) (now : ℕ) (t : db.Tbl)
      → IsKeyed (λ r. r.id) (db.rows t)
      → Pointwise
          (OnlyAt (has_id id) (RetryCounted error now))
          (db.rows t)
          (db.rows (mark_failed db week cfg id error now t))
  unfolding mark_failed
  mark_failed-RetryCounted id error now t keyed =
      found_Pointwise (λ r. r.id) db laws (fail_values error now) id t keyed
        (RetryCounted error now) (count_step error now)

  -- Where ids are keys, an event that was marked as failed is in no batch that is fetched from the
  -- table after it, whether retries are left or not.
  pub fetch-mark_failed :
      (id error : String) (now : ℕ) (requested : Option ℕ) (now' later : ℕ) (t : db.Tbl)
      → IsKeyed (λ r. r.id) (db.rows t)
      → All
          (λ r. has_id id r ≡ false)
          (fetch_pending_batch db week cfg requested now' later
            (mark_failed db week cfg id error now t)).0
  unfolding mark_failed fetch_pending_batch
  fetch-mark_failed id error now requested now' later t keyed =
      batch_avoids db laws (has_id id) (is_due week now')
        (updated (has_id id) (λ r. fail_values error now r r)) cfg.use_skip_locked
        (λ r. r.created_at) (or_default requested cfg.batch_size) t
        (mark_failed db week cfg id error now t)
        (found_rows (λ r. r.id) db laws (fail_values error now) id t keyed) (λ r. ground arith)
