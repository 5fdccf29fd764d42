-- ===== src/Outbox/Budget.antt =====
-- What the claims, the publications and the resets leave alone in every row of the outbox.
use taas_server_py.Prelude.{ℕ, String, Option, List, [], ◌∷◌, Pointwise, Pointwise-refl, ◌≡◌, arith}
use taas_server_py.Sql.{Table, TableLaws, update-Pointwise}
use taas_server_py.Outbox.{
  OutboxRow, OutboxConfig, failed, dead_letter, fetch_pending_batch, mark_published,
  reset_stale_processing, claim_all,
}

-- The retry count is the old one, and a row that was not failed or dead is not so now.
pub record SameBudget (r s : OutboxRow) : Type 0 where
  pub id : s.id ≡ r.id
  pub retry_count : s.retry_count ≡ r.retry_count
  pub max_retries : s.max_retries ≡ r.max_retries
  pub not_failed : s.status ≡ failed → r.status ≡ failed
  pub not_dead : s.status ≡ dead_letter → r.status ≡ dead_letter

pub SameBudget-trans : (x y z : OutboxRow) → SameBudget x y → SameBudget y z → SameBudget x z
SameBudget-trans x y z h k = record {
  id = ground arith;
  retry_count = ground arith;
  max_retries = ground arith;
  not_failed = λ e. h.not_failed (k.not_failed e);
  not_dead = λ e. h.not_dead (k.not_dead e);
}

module _ (db : Table OutboxRow) where
  -- how the rows of two tables relate
  abbrev pub KeepsBudget : db.Tbl → db.Tbl → Type 0
  KeepsBudget t t' = Pointwise SameBudget (db.rows t) (db.rows t')

  pub refl_budget : (t : db.Tbl) → KeepsBudget t t
  refl_budget t = Pointwise-refl (λ r. ground arith) (db.rows t)

module _ (db : Table OutboxRow) (laws : TableLaws db) (week : ℕ) (cfg : OutboxConfig) where
  pub mark_published-KeepsBudget :
      (id : String) (now : ℕ) (t : db.Tbl) → KeepsBudget db t (mark_published db week cfg id now t)
  unfolding mark_published
  mark_published-KeepsBudget id now t =
      update-Pointwise db laws SameBudget _ _ (λ r. ground arith) t

  pub reset_stale-KeepsBudget :
      (timeout : Option ℕ) (now later : ℕ) (t : db.Tbl)
      → KeepsBudget db t (reset_stale_processing db week cfg timeout now later t).1
  unfolding reset_stale_processing
  reset_stale-KeepsBudget timeout now later t =
      update-Pointwise db laws SameBudget _ _ (λ r. ground arith) t

  claim_all-KeepsBudget :
      (events : List OutboxRow) (now : ℕ) (t : db.Tbl)
      → KeepsBudget db t (claim_all db week cfg events now t)
  claim_all-KeepsBudget [] now t = refl_budget db t
  claim_all-KeepsBudget (e ∷ es) now t =
      update-Pointwise db laws SameBudget _ _ (λ r. ground arith) t

  pub fetch-KeepsBudget :
      (requested : Option ℕ) (now later : ℕ) (t : db.Tbl)
      → KeepsBudget db t (fetch_pending_batch db week cfg requested now later t).1
  unfolding fetch_pending_batch
  fetch-KeepsBudget requested now later t = claim_all-KeepsBudget _ later t
