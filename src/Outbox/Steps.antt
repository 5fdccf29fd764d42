-- ===== src/Outbox/Steps.antt =====
-- What each operation of the outbox repository may do to a row.
use taas_server_py.Sql.Keys.{IsKeyed, batch_sound}
use taas_server_py.Prelude.{
  false, or_default, All, not, ◌&&◌, inl, Pointwise-map-All, if◌then◌else◌, leb, ◌⊎◌, ℕ, ◌+◌, ◌<◌,
  String, Option, List, [], ◌∷◌, Pointwise, Pointwise-refl, ◌≡◌, refl, arith,
}
use taas_server_py.Sql.{Table, TableLaws, update-Pointwise, updated}
use taas_server_py.Outbox.{
  OutboxStatus, pending, processing, published, failed, dead_letter, OutboxRow, OutboxConfig,
  fetch_pending_batch, mark_published, reset_stale_processing, claim_all, claim, is_due, is_among,
}

-- The guard of a change of status from `r` to `s`; the retry count moves with a failure only.
abbrev Guard : OutboxRow → OutboxRow → OutboxStatus → Type 0
Guard r s pending = (r.status ≡ processing) × (s.retry_count ≡ r.retry_count)
Guard r s processing =
    (r.status ≡ pending) × (r.retry_count < r.max_retries) × (s.retry_count ≡ r.retry_count)
Guard r s published = s.retry_count ≡ r.retry_count
Guard r s failed = ⊥
Guard r s dead_letter = ⊥

-- A row is left alone or keeps its identity, its budget and its age, and makes a guarded change.
abbrev pub Polled : OutboxRow → OutboxRow → Type 0
Polled r s =
    (r ≡ s)
    ⊎ ((s.id ≡ r.id)
        × (s.max_retries ≡ r.max_retries)
        × (s.created_at ≡ r.created_at)
        × Guard r s s.status)

module _ (db : Table OutboxRow) (laws : TableLaws db) (week : ℕ) (cfg : OutboxConfig) where
  pub mark_published-Polled :
      (id : String) (now : ℕ) (t : db.Tbl)
      → Pointwise Polled (db.rows t) (db.rows (mark_published db week cfg id now t))
  unfolding mark_published
  mark_published-Polled id now t = update-Pointwise db laws Polled _ _ (λ r. ground arith) t

  pub reset_stale-Polled :
      (timeout : Option ℕ) (now later : ℕ) (t : db.Tbl)
      → Pointwise Polled
          (db.rows t)
          (db.rows (reset_stale_processing db week cfg timeout now later t).1)
  unfolding reset_stale_processing
  reset_stale-Polled timeout now later t = update-Pointwise db laws Polled _ _ (λ r. ground arith) t

  -- In a table whose ids are unique, a claim either leaves a row alone or takes a pending row that
  -- has retries left to processing; its id, its age and its retries stay.
  pub fetch-Polled :
      (requested : Option ℕ) (now later : ℕ) (t : db.Tbl)
      → IsKeyed (λ r. r.id) (db.rows t)
      → Pointwise Polled
          (db.rows t)
          (db.rows (fetch_pending_batch db week cfg requested now later t).1)
  unfolding fetch_pending_batch
  fetch-Polled requested now later t keyed = claimed _ (
      batch_sound (λ r. r.id) db laws cfg.use_skip_locked (is_due week now) (λ r. r.created_at)
        (or_default requested cfg.batch_size) t keyed)
    where
      claimed :
          (events : List OutboxRow)
          → All (λ r. (is_among events r && not (is_due week now r)) ≡ false) (db.rows t)
          → Pointwise Polled (db.rows t) (db.rows (claim_all db week cfg events later t))
      claimed [] sound = Pointwise-refl (λ r. inl refl) (db.rows t)
      claimed (e ∷ es) sound = rw (laws.rows-update_where (is_among (e ∷ es)) (claim later) t) (
          Pointwise-map-All _ (updated (is_among (e ∷ es)) (claim later)) (λ r ok. ground arith)
            (db.rows t) sound)

  -- A failure counts one retry, and is final as soon as no retry is left.
  abbrev pub Failing : OutboxRow → OutboxRow → Type 0
  Failing r s =
      (r ≡ s)
      ⊎ ((s.id ≡ r.id)
          × (s.max_retries ≡ r.max_retries)
          × (s.created_at ≡ r.created_at)
          × (s.status ≡ (if leb r.max_retries (r.retry_count + 1) then dead_letter else failed))
          × (s.retry_count ≡ r.retry_count + 1))
