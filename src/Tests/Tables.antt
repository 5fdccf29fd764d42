-- ===== src/Tests/Tables.antt =====
-- The outbox of libs/resiliant at concrete tables.
use taas_server_py.Prelude.{
  str_eq_iff, String, ℕ, ◌+◌, true, false, none, some, List, [], ◌∷◌, All, ◌≡◌, arith,
}
use taas_server_py.Exec.{app, err, Action}
use taas_server_py.Sql.Keys.{IsKeyed}
use taas_server_py.Sql.Model.{list_table, list_table-laws}
use taas_server_py.Outbox.{
  OutboxRow, OutboxConfig, pending, published, fetch_pending_batch, is_among,
}
use taas_server_py.Outbox.Claims.{fetch_disjoint}
use taas_server_py.OutboxPoller.{Poller, Metrics, poll_and_publish}
use taas_server_py.OutboxPoller.Counts.{Consistent, poll-Consistent}

abbrev event : OutboxRow
event = record {
  id = "a";
  event_id = "e1";
  event_type = "Created";
  channel = "orders";
  ordering_key = none;
  payload = "{}";
  headers = "{}";
  status = pending;
  retry_count = 0;
  max_retries = 3;
  last_error = none;
  processed_at = none;
  created_at = 50;
  updated_at = 50;
}

abbrev table : List OutboxRow
table =
    event
    ∷ record event { id = "b"; created_at = 40 }
    ∷ record event { id = "c"; status = published }
    ∷ []

abbrev cfg : OutboxConfig
cfg = record { batch_size = 2; max_retries = 3; processing_timeout = 30; use_skip_locked = true }

fetch_disjoint_example :
    let (events, t') = fetch_pending_batch list_table 70 cfg (some 1) 60 61 table in
    All (λ r. is_among events r ≡ false) (fetch_pending_batch list_table 70 cfg (some 1) 62 63 t').0
fetch_disjoint_example =
    fetch_disjoint list_table list_table-laws 70 cfg (some 1) (some 1) 60 61 62 63 table

abbrev zero_metrics : Metrics
zero_metrics = record {
  total_polls = 0;
  empty_polls = 0;
  successful_polls = 0;
  failed_polls = 0;
  total_events_processed = 0;
  total_events_published = 0;
  total_events_failed = 0;
  total_events_moved_to_dlq = 0;
  min_batch_size = none;
  max_batch_size = none;
  stale_events_reset = 0;
}

abbrev poller : Poller (List OutboxRow) ℕ
poller = record {
  tbl = table;
  broker = 60;
  state = record {
    total_polls = 0;
    total_events_processed = 0;
    consecutive_empty_polls = 0;
    consecutive_full_polls = 0;
  };
  metrics = some zero_metrics;
}

-- a broker that is down
abbrev down : OutboxRow → Action ℕ (Unit {0})
down r now = (err (app 1), now + 1)

poll-Consistent_example : Consistent (poll_and_publish list_table 70 cfg down (λ now. now) poller).1
poll-Consistent_example = poll-Consistent list_table 70 cfg down (λ now. now) poller (ground arith)

table-IsKeyed : IsKeyed (λ r. r.id) table
table-IsKeyed k =
    ground (arith, str_eq_iff "a" k, str_eq_iff "b" k, str_eq_iff "c" k, a_b, a_c, b_c)
  where
    a_b : ¬ (◌≡◌ {A = String} "a" "b")
    a_b e = cc ((str_eq_iff "a" "b").1 e)

    a_c : ¬ (◌≡◌ {A = String} "a" "c")
    a_c e = cc ((str_eq_iff "a" "c").1 e)

    b_c : ¬ (◌≡◌ {A = String} "b" "c")
    b_c e = cc ((str_eq_iff "b" "c").1 e)
