-- ===== src/ResilientCall/Guards.antt =====
-- What the guards make of each other's failures.
use taas_server_py.Prelude.{ℕ, ◌+◌, ◌<◌, true, none, some, ◌≡◌}
use taas_server_py.Exec.{
  Exn, circuit_open, bulkhead_full, timeout, operation_timeout, ok, err, Action,
}
use taas_server_py.CircuitBreaker.{Service, Breaker, closed, opened}
use taas_server_py.CircuitBreaker.Calls.{call_fails_fast}
use taas_server_py.CircuitBreaker.Closed.{FailureCounted, closed_call_fails}
use taas_server_py.Bulkhead.{BulkheadService, acquire, release}
use taas_server_py.Bulkhead.Calls.{execute_runs, execute_refused}
use taas_server_py.Fallback.{degraded}
use taas_server_py.Fallback.Outcomes.{execute_timeout_late, execute_fallback_runs}
use taas_server_py.ResilientCall.{ResilientExecutor, compose, call}

module _ {E T : Type 0} (wait_for : ℕ → Action (Breaker E) T → Action (Breaker E) T)
    (default_seconds : ℕ) (executor : ResilientExecutor E) (svc : Service E)
    (guarded : executor.breaker ≡ some svc) (local : svc.repository ≡ none) where
  compose_open :
      (handler : Action (Breaker E) T) (b : Breaker E) (at : ℕ)
      → b.snapshot.state ≡ opened
      → b.snapshot.opened_at ≡ some at
      → svc.clock b.env < at + svc.config.recovery_timeout
      → compose wait_for default_seconds executor handler b ≡ (err (circuit_open svc.name), b)
  unfolding compose
  compose_open handler b at is_open since early =
      rw guarded (call_fails_fast svc local _ b at is_open since early)

  -- While the recovery window of an open breaker lasts, a call is refused before its bulkhead and
  -- its handler: nothing changes. Where this is one of the configured exceptions, the fallback runs
  -- at once in the same state.
  pub open_fails_fast :
      (handler : Action (Breaker E) T) (fallback : Exn → Action (Breaker E) T) (b : Breaker E)
      (at : ℕ)
      → b.snapshot.state ≡ opened
      → b.snapshot.opened_at ≡ some at
      → svc.clock b.env < at + svc.config.recovery_timeout
      → executor.fallback_on (circuit_open svc.name) ≡ true
      → (call wait_for default_seconds executor handler none b ≡ (err (circuit_open svc.name), b))
        × (call wait_for default_seconds executor handler (some fallback) b
            ≡ degraded executor.fallback_on
                (circuit_open svc.name)
                (fallback (circuit_open svc.name) b))
  unfolding call
  open_fails_fast handler fallback b at is_open since early caught = (
    compose_open handler b at is_open since early,
    execute_fallback_runs executor.fallback_on (compose wait_for default_seconds executor handler)
        fallback (circuit_open svc.name) b b (compose_open handler b at is_open since early) caught,
  )

  module _ (bulkhead : BulkheadService (Breaker E)) (limited : executor.bulkhead ≡ some bulkhead)
      (limit : ℕ) (timed : executor.timeout_seconds ≡ some limit) where
    -- For an executor with a timeout, a bulkhead, no retry and a breaker without a shared repository: a
    -- handler that runs out of its time inside the closed breaker has its permit given back, the caller
    -- gets the timeout error, and the breaker counts a failure or trips, when it is still closed as the
    -- permit is given back.
    pub late_counts :
        (handler : Action (Breaker E) T) (b taken late gave : Breaker E)
        → b.snapshot.state ≡ closed
        → acquire bulkhead b ≡ (ok tt, taken)
        → wait_for limit handler taken ≡ (err timeout, late)
        → release bulkhead late ≡ (ok tt, gave)
        → gave.snapshot.state ≡ closed
        → let (r, c) = call wait_for default_seconds executor handler none b in
          (r ≡ err (operation_timeout limit)) × FailureCounted svc gave c
    unfolding call compose
    late_counts handler b taken late gave is_closed took expires freed still =
        rw (guarded, limited, timed)
          (closed_call_fails svc local _ (operation_timeout limit) b gave is_closed
            (execute_runs bulkhead _ b taken late gave (err (operation_timeout limit)) took
              (execute_timeout_late wait_for default_seconds limit handler taken late expires)
              freed)
            still)

    -- A closed breaker also counts a failure when the bulkhead has no room, though the handler has not
    -- run.
    pub full_counts :
        (handler : Action (Breaker E) T) (b refused : Breaker E)
        → b.snapshot.state ≡ closed
        → acquire bulkhead b ≡ (err (bulkhead_full bulkhead.name), refused)
        → refused.snapshot.state ≡ closed
        → let (r, c) = call wait_for default_seconds executor handler none b in
          (r ≡ err (bulkhead_full bulkhead.name)) × FailureCounted svc refused c
    unfolding call compose
    full_counts handler b refused is_closed full still =
        rw (guarded, limited, timed)
          (closed_call_fails svc local _ (bulkhead_full bulkhead.name) b refused is_closed
            (execute_refused bulkhead _ b refused (bulkhead_full bulkhead.name) full) still)
