-- ===== src/Outbox/Claims.antt =====
-- What a poller gets when it claims a batch, and what it leaves.
use taas_server_py.Prelude.{
  ℕ, ◌+◌, ◌≤◌, ◌<◌, Option, false, List, [], ◌∷◌, map, All, length, or_default, ◌≡◌, refl, arith,
}
use taas_server_py.Sql.{Table, TableLaws, updated}
use taas_server_py.Sql.Keys.{All-weaken}
use taas_server_py.Sql.Batches.{batch_avoids, map_none}
use taas_server_py.Outbox.{
  pending, OutboxRow, OutboxConfig, fetch_pending_batch, claim_all, claim, is_due, is_among,
}

-- an event that a poller may publish
pub record IsClaimable (week now : ℕ) (r : OutboxRow) : Type 0 where
  pub status : r.status ≡ pending
  pub budget : r.retry_count < r.max_retries
  pub recent : now ≤ r.created_at + week

module _ (db : Table OutboxRow) (laws : TableLaws db) (week : ℕ) (cfg : OutboxConfig) where
  -- A batch holds at most as many events as asked for, or as configured, and each is pending, has
  -- retries left and is not older than the window. In the table after it, every row with the id of
  -- one of the batch is marked as being processed, and every other row is as it was.
  pub fetch_claims :
      (requested : Option ℕ) (now later : ℕ) (t : db.Tbl)
      → let (events, t') = fetch_pending_batch db week cfg requested now later t in
        (length events ≤ or_default requested cfg.batch_size)
        × All (IsClaimable week now) events
        × (db.rows t' ≡ map (updated (is_among events) (claim later)) (db.rows t))
  unfolding fetch_pending_batch
  fetch_claims requested now later t = (
    laws.select_batch-limit cfg.use_skip_locked (is_due week now) (λ r. r.created_at)
        (or_default requested cfg.batch_size) t,
    All-weaken (λ r due. ground arith) _
        (laws.select_batch-test cfg.use_skip_locked (is_due week now) (λ r. r.created_at)
          (or_default requested cfg.batch_size) t),
    claim_rows _,
  )
    where
      claim_rows :
          (events : List OutboxRow)
          → db.rows (claim_all db week cfg events later t)
            ≡ map (updated (is_among events) (claim later)) (db.rows t)
      claim_rows [] = map_none db laws (is_among []) (claim later) (λ r. refl) (db.rows t)
      claim_rows (e ∷ es) = laws.rows-update_where (is_among (e ∷ es)) (claim later) t

  after_claim :
      (events : List OutboxRow) (second : Option ℕ) (later now' later' : ℕ) (t t' : db.Tbl)
      → db.rows t' ≡ map (updated (is_among events) (claim later)) (db.rows t)
      → All
          (λ r. is_among events r ≡ false)
          (fetch_pending_batch db week cfg second now' later' t').0
  unfolding fetch_pending_batch
  after_claim events second later now' later' t t' h =
      batch_avoids db laws (is_among events) (is_due week now')
        (updated (is_among events) (claim later)) cfg.use_skip_locked (λ r. r.created_at)
        (or_default second cfg.batch_size) t t' h (λ r. ground arith)

  -- Two claims in a row share no event: nothing that the first gave is given by the second.
  pub fetch_disjoint :
      (first second : Option ℕ) (now later now' later' : ℕ) (t : db.Tbl)
      → let (events, t') = fetch_pending_batch db week cfg first now later t in
        All
          (λ r. is_among events r ≡ false)
          (fetch_pending_batch db week cfg second now' later' t').0
  fetch_disjoint first second now later now' later' t =
      let (events, t') = fetch_pending_batch db week cfg first now later t in
      after_claim events second later now' later' t t' (fetch_claims first now later t).2
