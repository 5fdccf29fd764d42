-- ===== src/Idempotency.antt =====
-- libs/resiliant/src/resiliant/idempotency: the look-up of a key and the clean-up of
-- idempotency_repository.py and idempotency_service.py, with the counter of idempotency_metrics.py
-- that the clean-up raises. Recording a key is not modelled: the insert names a column `tenant_id`
-- that the table does not declare. Neither are logging and the times of the metrics. Ages are in
-- units of time.
pub mod Cleanup
use Prim.Native.String.{◌++◌ as ◌<>◌}
use taas_server_py.Prelude.{
  ℕ, ◌+◌, String, Bool, true, false, ◌||◌, Option, none, some, ltb, if◌then◌else◌, str_eq, length,
  List, map,
}
use taas_server_py.Exec.{Exn, duplicate_event, is_exception, Result, ok, err, Action}
use taas_server_py.Sql.{Table, one_or_none, is_in}

-- `ProcessedEventTable`
pub record ProcessedEvent : Type 0 where
  pub id : String
  pub idempotency_key : String
  pub event_id : String
  pub event_type : String
  pub handler_name : String
  pub saga_id : Option String
  pub correlation_id : Option String
  pub extra_metadata : Option String
  pub created_at : ℕ

-- the settings of `IdempotencyConfig` that the code reads, but for logging
pub record IdempotencyConfig : Type 0 where
  pub key_separator : String
  pub ttl : ℕ
  pub cleanup_batch_size : ℕ
  pub enable_metrics : Bool
  pub strict_mode : Bool

-- the counters of `IdempotencyMetrics`
pub record Metrics : Type 0 where
  pub total_checks : ℕ
  pub total_processed : ℕ
  pub total_duplicates : ℕ
  pub total_errors : ℕ
  pub total_cleaned_up : ℕ
  pub last_duplicate_key : Option String

pub record_cleanup : ℕ → Metrics → Metrics
record_cleanup n m = record m { total_cleaned_up = m.total_cleaned_up + n }

abbrev pub has_idempotency_key : String → ProcessedEvent → Bool
has_idempotency_key key r = str_eq r.idempotency_key key

abbrev is_some : Option ProcessedEvent → Bool
is_some none = false
is_some (some r) = true

-- `x if x is not None else d`
abbrev pub given_or : Option ℕ → ℕ → ℕ
given_or none d = d
given_or (some n) d = n

abbrev pub is_expired : ℕ → ℕ → ProcessedEvent → Bool
is_expired ttl now r = ltb (r.created_at + ttl) now

abbrev pub is_among : List ProcessedEvent → ProcessedEvent → Bool
is_among batch r = is_in r.id (map (λ x. x.id) batch)

-- the service's counters, and the table and the world that it shares with other workers
pub record Worker (Tbl E : Type 0) : Type 0 where
  pub tbl : Tbl
  pub env : E
  pub metrics : Metrics

module _ (db : Table ProcessedEvent) (cfg : IdempotencyConfig) where
  -- `IdempotencyRepository.is_processed`
  unfoldable pub is_processed : String → db.Tbl → Bool
  is_processed key t = is_some (one_or_none (db.select_where (has_idempotency_key key) t))

  -- `IdempotencyRepository.cleanup_expired`: the rows deleted and the table
  pub cleanup_expired : Option ℕ → Option ℕ → ℕ → db.Tbl → ℕ × db.Tbl
  cleanup_expired ttl size now t =
      let effective_ttl = given_or ttl cfg.ttl in
      let effective_batch = given_or size cfg.cleanup_batch_size in
      let batch =
        db.select_batch false (is_expired effective_ttl now) (λ r. r.created_at) effective_batch
          t in
      (db.count_where (is_among batch) t, db.delete_where (is_among batch) t)

module _ (db : Table ProcessedEvent) (cfg : IdempotencyConfig) {E : Type 0} (clock : E → ℕ) where
  abbrev counted : (Metrics → Metrics) → Worker db.Tbl E → Worker db.Tbl E
  counted f w = if cfg.enable_metrics then record w { metrics = f w.metrics } else w

  -- `IdempotencyService.cleanup_expired`
  pub cleanup : Option ℕ → Option ℕ → Worker db.Tbl E → ℕ × Worker db.Tbl E
  unfolding cleanup_expired
  cleanup ttl size w =
      let (deleted, t) = cleanup_expired db cfg ttl size (clock w.env) w.tbl in
      let w' = record w { tbl = t } in
      (deleted, if ltb 0 deleted then counted (record_cleanup deleted) w' else w')
