-- ===== src/OutboxPoller.antt =====
-- libs/resiliant/src/resiliant/outbox/outbox_poller.py and the counters of outbox_metrics.py: the
-- relay that claims pending events and publishes them. The broker, the clock and random draws are
-- parameters. The durations and averages of the metrics, logging, the lifecycle of the tasks and
-- the NOTIFY listener are not modelled.
pub mod Counts
pub mod Rows
use taas_server_py.Prelude.{
  ℕ, ◌+◌, String, Bool, true, false, Option, none, some, List, [], ◌∷◌, length, ltb, leb, ◌==◌, not,
  if◌then◌else◌,
}
use taas_server_py.Floats.{Floats, min_float}
use taas_server_py.Exec.{
  Exn, is_exception, Result, ok, err, Action, pure, raise, gets, modify, ◌>>=◌, ◌>>◌,
}
use taas_server_py.Sql.{Table}
use taas_server_py.Outbox.{
  OutboxRow, OutboxConfig, fetch_pending_batch, mark_published, reset_stale_processing,
}

-- `OutboxPollerState`
pub record PollerState : Type 0 where
  pub total_polls : ℕ
  pub total_events_processed : ℕ
  pub consecutive_empty_polls : ℕ
  pub consecutive_full_polls : ℕ

-- the counters of `OutboxMetrics`
pub record Metrics : Type 0 where
  pub total_polls : ℕ
  pub empty_polls : ℕ
  pub successful_polls : ℕ
  pub failed_polls : ℕ
  pub total_events_processed : ℕ
  pub total_events_published : ℕ
  pub total_events_failed : ℕ
  pub total_events_moved_to_dlq : ℕ
  pub min_batch_size : Option ℕ
  pub max_batch_size : Option ℕ
  pub stale_events_reset : ℕ

abbrev bump_if : Bool → ℕ → ℕ
bump_if b n = if b then n + 1 else n

abbrev least : Option ℕ → ℕ → Option ℕ
least none n = some n
least (some m) n = some (if ltb n m then n else m)

abbrev greatest : Option ℕ → ℕ → Option ℕ
greatest none n = some n
greatest (some m) n = some (if ltb m n then n else m)

-- the counters in `record_poll`
pub record_poll : ℕ → Bool → Metrics → Metrics
record_poll batch_size success m = record m {
  total_polls = m.total_polls + 1;
  empty_polls = bump_if (batch_size == 0) m.empty_polls;
  successful_polls = bump_if success m.successful_polls;
  failed_polls = bump_if (not success) m.failed_polls;
  min_batch_size = if ltb 0 batch_size then least m.min_batch_size batch_size else m.min_batch_size;
  max_batch_size =
      if ltb 0 batch_size then greatest m.max_batch_size batch_size else m.max_batch_size;
}

-- the counters in `record_publish`
pub record_publish : Bool → Bool → Metrics → Metrics
record_publish success moved_to_dlq m = record m {
  total_events_processed = m.total_events_processed + 1;
  total_events_published = bump_if success m.total_events_published;
  total_events_failed = bump_if (not success) m.total_events_failed;
  total_events_moved_to_dlq = bump_if moved_to_dlq m.total_events_moved_to_dlq;
}

-- the poller with its session's table and the broker
pub record Poller (Tbl E : Type 0) : Type 0 where
  pub tbl : Tbl
  pub broker : E
  pub state : PollerState
  pub metrics : Option Metrics

abbrev on_metrics : (Metrics → Metrics) → Option Metrics → Option Metrics
on_metrics f none = none
on_metrics f (some m) = some (f m)

abbrev counted : ℕ → PollerState → PollerState
counted fetched st = record st {
  total_polls = st.total_polls + 1;
  total_events_processed = st.total_events_processed + fetched;
  consecutive_empty_polls = if ltb 0 fetched then 0 else st.consecutive_empty_polls + 1;
  consecutive_full_polls = if ltb 0 fetched then st.consecutive_full_polls + 1 else 0;
}

-- `publish` is `self.publisher.publish`, `clock` is `now_in_utc`.
module _ (db : Table OutboxRow) (week : ℕ) (cfg : OutboxConfig) {E : Type 0}
    (publish : OutboxRow → Action E (Unit {0})) (clock : E → ℕ) where
  -- `_publish_event` after the broker has answered
  abbrev publish_ended : OutboxRow → Result (Unit {0}) → Action (Poller db.Tbl E) (Unit {0})
  publish_ended event (ok _) p = (
    ok tt,
    record p {
      tbl = mark_published db week cfg event.id (clock p.broker) p.tbl;
      metrics = on_metrics (record_publish true false) p.metrics;
    },
  )
  publish_ended event (err exn) p =
      if is_exception exn
      then (
        ok tt,
        record p {
          metrics =
              on_metrics (record_publish false (leb event.max_retries (event.retry_count + 1)))
                p.metrics;
        },
      )
      else (err exn, p)

  pub publish_event : OutboxRow → Action (Poller db.Tbl E) (Unit {0})
  publish_event event p =
      let (res, e) = publish event p.broker in publish_ended event res (record p { broker = e })

  -- `for event in events: await self._publish_event(session, event)`
  pub publish_all : List OutboxRow → Action (Poller db.Tbl E) (Unit {0})
  publish_all [] p = (ok tt, p)
  publish_all (event ∷ events) p =
      let (res, p') = publish_event event p in
      elim res [ ok _ ↦ publish_all events p' | err exn ↦ (err exn, p') ]

  -- the `except Exception` of `_poll_and_publish`
  abbrev poll_ended : ℕ → Result (Unit {0}) → Action (Poller db.Tbl E) ℕ
  poll_ended fetched (ok _) p = (ok fetched, p)
  poll_ended fetched (err exn) p =
      if is_exception exn
      then (ok fetched, record p { metrics = on_metrics (record_poll 0 false) p.metrics })
      else (err exn, p)

  abbrev pub claimed : Poller db.Tbl E → List OutboxRow × db.Tbl
  claimed p =
      fetch_pending_batch db week cfg (some cfg.batch_size) (clock p.broker) (clock p.broker) p.tbl

  abbrev fetched_state : List OutboxRow → db.Tbl → Poller db.Tbl E → Poller db.Tbl E
  fetched_state events t p = record p {
    tbl = t;
    state = counted (length events) p.state;
    metrics = on_metrics (record_poll (length events) true) p.metrics;
  }

  pub poll_and_publish : Action (Poller db.Tbl E) ℕ
  unfolding publish_all
  poll_and_publish p =
      let (events, t) = claimed p in
      let (res, p') = publish_all events (fetched_state events t p) in
      poll_ended (length events) res p'

  -- the body of `_maintenance_loop` that touches the table and the metrics
  pub maintain : Poller db.Tbl E → Poller db.Tbl E
  maintain p =
      let (n, t) =
        reset_stale_processing db week cfg none (clock p.broker) (clock p.broker) p.tbl in
      record p {
        tbl = t;
        metrics =
            on_metrics (λ m. record m { stale_events_reset = m.stale_events_reset + n }) p.metrics;
      }

pub data PollStrategy : Type 0 where
  fixed adaptive notify : PollStrategy

-- the intervals of `OutboxConfig`, as floats
pub record Intervals (fl : Floats) : Type 0 where
  pub strategy : PollStrategy
  pub fixed_ms : fl.F
  pub min_ms : fl.F
  pub max_ms : fl.F
  pub growth : fl.F

module _ (fl : Floats) (uniform : fl.F → fl.F → fl.F) where
  -- the `else` of `_compute_next_sleep`
  abbrev back_off : Intervals fl → fl.F → fl.F
  back_off cfg current =
      let upper = min_float fl cfg.max_ms (fl.mul current cfg.growth) in
      let lower = cfg.min_ms in uniform lower (if fl.lt upper lower then lower else upper)

  abbrev sleep_by : PollStrategy → Intervals fl → fl.F → ℕ → fl.F
  sleep_by fixed cfg current fetched = cfg.fixed_ms
  sleep_by _ cfg current fetched = if ltb 0 fetched then cfg.min_ms else back_off cfg current

  -- `_compute_next_sleep`: the new `current_interval_ms`, which is also returned
  pub compute_next_sleep : Intervals fl → fl.F → ℕ → fl.F
  compute_next_sleep cfg current fetched = sleep_by cfg.strategy cfg current fetched
