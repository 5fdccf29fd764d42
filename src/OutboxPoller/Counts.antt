-- ===== src/OutboxPoller/Counts.antt =====
-- The metrics of the poller, and its intervals.
use taas_server_py.Prelude.{
  if◌then◌else◌, inl, inr, Bool-cases, ◌≢◌, ◌<◌, [], length, ◌∷◌, List, ℕ, ◌+◌, ◌≤◌, Option, none,
  some, ◌≡◌, arith,
}
use taas_server_py.Floats.{Le, FloatLaws, min_float}
use taas_server_py.Exec.{err, ok, Result, Action}
use taas_server_py.Sql.{Table}
use taas_server_py.Outbox.{OutboxRow, OutboxConfig}
use taas_server_py.OutboxPoller.{
  fixed, back_off, compute_next_sleep, Intervals, poll_ended, fetched_state, claimed, Floats,
  poll_and_publish, record_poll, publish_all, Metrics, Poller, record_publish, publish_event,
}

-- the counters add up
pub record IsConsistent (m : Metrics) : Type 0 where
  pub polls : m.total_polls ≡ m.successful_polls + m.failed_polls
  pub empty : m.empty_polls ≤ m.total_polls
  pub events : m.total_events_processed ≡ m.total_events_published + m.total_events_failed
  pub moved : m.total_events_moved_to_dlq ≤ m.total_events_failed

abbrev pub Consistent : {T E : Type 0} → Poller T E → Type 0
Consistent p = OnMetrics p.metrics
  where
    OnMetrics : Option Metrics → Type 0
    OnMetrics none = Unit
    OnMetrics (some m) = IsConsistent m

module _ (db : Table OutboxRow) (week : ℕ) (cfg : OutboxConfig) {E : Type 0}
    (publish : OutboxRow → Action E (Unit {0})) (clock : E → ℕ) where
  publish_event-Consistent :
      (event : OutboxRow) (p : Poller db.Tbl E)
      → Consistent p
      → Consistent (publish_event db week cfg publish clock event p).1
  unfolding publish_event record_publish
  publish_event-Consistent event p h = ground arith

  publish_all-Consistent :
      (events : List OutboxRow) (p : Poller db.Tbl E)
      → Consistent p
      → Consistent (publish_all db week cfg publish clock events p).1
  unfolding publish_all
  publish_all-Consistent [] p h = h
  publish_all-Consistent (event ∷ events) p h = ground (
    arith,
    publish_event-Consistent event p h,
    publish_all-Consistent events (publish_event db week cfg publish clock event p).1,
  )

  fetched-Consistent :
      (events : List OutboxRow) (t : db.Tbl) (p : Poller db.Tbl E)
      → Consistent p
      → Consistent (fetched_state db week cfg publish clock events t p)
  unfolding record_poll
  fetched-Consistent events t p h = ground arith

  ended-Consistent :
      (n : ℕ) (res : Result (Unit {0})) (p : Poller db.Tbl E)
      → Consistent p
      → Consistent (poll_ended db week cfg publish clock n res p).1
  unfolding record_poll
  ended-Consistent n (ok _) p h = h
  ended-Consistent n (err exn) p h = ground arith

  -- A poll keeps the counters of the metrics in step, whatever the broker does: polls are
  -- successful or failed, events published or failed, and only failed ones count as moved to the
  -- dead letters.
  pub poll-Consistent :
      (p : Poller db.Tbl E)
      → Consistent p
      → Consistent (poll_and_publish db week cfg publish clock p).1
  unfolding poll_and_publish
  poll-Consistent p h =
      let (events, t) = claimed db week cfg publish clock p in
      let (res, p') =
        publish_all db week cfg publish clock events
          (fetched_state db week cfg publish clock events t p) in
      ended-Consistent (length events) res p' (
        publish_all-Consistent events (fetched_state db week cfg publish clock events t p)
          (fetched-Consistent events t p h))

-- `random.uniform(a, b)` lies between its bounds.
abbrev pub IsUniform : (fl : Floats) → (fl.F → fl.F → fl.F) → Type 0
IsUniform fl uniform = (a b : fl.F) → Le fl a b → Le fl a (uniform a b) × Le fl (uniform a b) b

module _ (fl : Floats) (laws : FloatLaws fl) (uniform : fl.F → fl.F → fl.F)
    (spread : IsUniform fl uniform) where
  min_float-le_first : (a b : fl.F) → Le fl (min_float fl a b) a
  min_float-le_first a b = elim (Bool-cases (fl.lt b a)) [
    | inl less ↦ rw less (laws.le_of_lt b a less)
    | inr more ↦ rw more (laws.le_refl a)
  ]

  upper_bounds :
      (lower upper top : fl.F)
      → Le fl lower top
      → Le fl upper top
      → let raised = if fl.lt upper lower then lower else upper in
        Le fl lower raised × Le fl raised top
  upper_bounds lower upper top h k = elim (Bool-cases (fl.lt upper lower)) [
    | inl below ↦ rw below (laws.le_refl lower, h)
    | inr above ↦ rw above (above, k)
  ]

  back_off_bounds :
      (cfg : Intervals fl) (current : fl.F)
      → Le fl cfg.min_ms cfg.max_ms
      → Le fl cfg.min_ms (back_off fl uniform cfg current)
        × Le fl (back_off fl uniform cfg current) cfg.max_ms
  back_off_bounds cfg current ordered =
      let grown = fl.mul current cfg.growth in
      let upper = min_float fl cfg.max_ms grown in
      let (low, high) =
        upper_bounds cfg.min_ms upper cfg.max_ms ordered (min_float-le_first cfg.max_ms grown) in
      let (above, below) =
        spread cfg.min_ms (if fl.lt upper cfg.min_ms then cfg.min_ms else upper) low in
      (above, laws.le_trans _ _ _ below high)

  -- With the fixed strategy the interval is the fixed one. With the others it lies between the
  -- least and the greatest one, if these are in order, and it is the least one after a poll that
  -- found an event.
  pub compute_next_sleep_bounds :
      (cfg : Intervals fl) (current : fl.F) (fetched : ℕ)
      → Le fl cfg.min_ms cfg.max_ms
      → let next = compute_next_sleep fl uniform cfg current fetched in
        (cfg.strategy ≡ fixed → next ≡ cfg.fixed_ms)
        × (cfg.strategy ≢ fixed → Le fl cfg.min_ms next × Le fl next cfg.max_ms)
        × (cfg.strategy ≢ fixed → 0 < fetched → next ≡ cfg.min_ms)
  unfolding compute_next_sleep
  compute_next_sleep_bounds cfg current fetched ordered =
      ground (arith, back_off_bounds cfg current ordered, laws.le_refl cfg.min_ms)
