-- ===== src/CircuitBreaker/Closed.antt =====
-- A closed breaker around a handler that acts on the whole state.
use taas_server_py.Prelude.{◌+◌, ◌≤◌, ◌<◌, none, ◌≡◌, refl, arith, ap}
use taas_server_py.Exec.{Exn, ok, err, Action, Result}
use taas_server_py.CircuitBreaker.{
  closed, opened, Service, Breaker, before_call, enter, refresh, on_failure, persist, call,
  conclude,
}

module _ {E : Type 0} (svc : Service E) where
  -- the breaker after a failure: one more is counted, or the threshold is reached and it opens
  pub record FailureCounted (b c : Breaker E) : Type 0 where
    pub below :
        b.snapshot.failure_count + 1 < svc.config.failure_threshold
        → (c.snapshot.state ≡ closed) × (c.snapshot.failure_count ≡ b.snapshot.failure_count + 1)
    pub reached :
        svc.config.failure_threshold ≤ b.snapshot.failure_count + 1 → c.snapshot.state ≡ opened
    pub same_env : c.env ≡ b.env

  module _ (local : svc.repository ≡ none) where
    before_call_closed :
        (b : Breaker E) → b.snapshot.state ≡ closed → before_call svc b ≡ (ok tt, b)
    unfolding before_call enter refresh
    before_call_closed b is_closed = ground arith

    call_closed :
        {T : Type 0} (handler : Action (Breaker E) T) (b : Breaker E)
        → b.snapshot.state ≡ closed
        → call svc handler b ≡ conclude svc (handler b).0 (handler b).1
    unfolding call
    call_closed {T = T} handler b is_closed =
        ap
          (λ p. elim p.0 as (λ _. Result T × Breaker E) [
            | ok _ ↦ conclude svc (handler p.1).0 (handler p.1).1
            | err e ↦ (err e, p.1)
          ])
          (before_call_closed b is_closed)

    on_failure-FailureCounted :
        (b : Breaker E)
        → b.snapshot.state ≡ closed
        → ((on_failure svc b).0 ≡ ok tt) × FailureCounted b (on_failure svc b).1
    unfolding on_failure persist
    on_failure-FailureCounted b is_closed = (
      ground arith,
      record { below = ground arith; reached = ground arith; same_env = ground arith },
    )

    conclude_fails :
        {T : Type 0} (exn : Exn) (b : Breaker E)
        → (on_failure svc b).0 ≡ ok tt
        → conclude svc {T = T} (err exn) b ≡ (err exn, (on_failure svc b).1)
    conclude_fails {T = T} exn b ended =
        ap
          (λ r. elim r as (λ _. Result T × Breaker E) [
            | ok _ ↦ (err exn, (on_failure svc b).1)
            | err e ↦ (err e, (on_failure svc b).1)
          ])
          ended

    pub closed_call_fails :
        {T : Type 0} (handler : Action (Breaker E) T) (exn : Exn) (b b' : Breaker E)
        → b.snapshot.state ≡ closed
        → handler b ≡ (err exn, b')
        → b'.snapshot.state ≡ closed
        → let (r, c) = call svc handler b in (r ≡ err exn) × FailureCounted b' c
    closed_call_fails handler exn b b' is_closed raised still =
        let (ended, counted) = on_failure-FailureCounted b' still in
        rw (call_closed handler b is_closed, raised, conclude_fails exn b' ended) (refl, counted)
