-- ===== src/Tests/Events.antt =====
-- The clean-up of recorded keys of libs/resiliant at a concrete table.
use taas_server_py.Prelude.{false, true, arith, none, not, [], ◌∷◌, length, count, ◌≤◌, ◌≡◌, ◌+◌}
use taas_server_py.Sql.Model.{list_table, list_table-laws}
use taas_server_py.Sql.Keys.{IsKeyed}
use taas_server_py.Idempotency.{ProcessedEvent, IdempotencyConfig, cleanup_expired, is_expired}
use taas_server_py.Idempotency.Cleanup.{cleanup_expired-kept}

abbrev cfg : IdempotencyConfig
cfg = record {
  key_separator = ":";
  ttl = 30;
  cleanup_batch_size = 10;
  enable_metrics = true;
  strict_mode = false;
}

abbrev seen : ProcessedEvent
seen = record {
  id = "1";
  idempotency_key = "h:a";
  event_id = "a";
  event_type = "Created";
  handler_name = "h";
  saga_id = none;
  correlation_id = none;
  extra_metadata = none;
  created_at = 10;
}

seen-IsKeyed : IsKeyed (λ r. r.id) (seen ∷ [])
seen-IsKeyed k = ground arith

cleanup_expired-kept_example :
    let (deleted, t') = cleanup_expired list_table cfg none none 50 (seen ∷ []) in
    (deleted ≤ 10)
    × (deleted + length t' ≡ 1)
    × (count (λ r. not (is_expired 30 50 r)) t' ≡ count (λ r. not (is_expired 30 50 r)) (seen ∷ []))
cleanup_expired-kept_example =
    cleanup_expired-kept list_table list_table-laws cfg none none 50 (seen ∷ []) seen-IsKeyed
