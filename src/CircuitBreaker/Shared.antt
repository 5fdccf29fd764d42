-- ===== src/CircuitBreaker/Shared.antt =====
-- A breaker over a shared repository.
use taas_server_py.Prelude.{ℕ, ◌+◌, ◌≤◌, ◌<◌, some, ◌≡◌, arith, ap, ◌∙◌}
use taas_server_py.Exec.{ok, err, Action, circuit_open, Result}
use taas_server_py.CircuitBreaker.{
  Snapshot, closed, opened, Service, Breaker, Repository, fresh, before_call, enter, refresh,
  on_failure, on_success, persist, call, outside, trip, conclude, adopt, succeeded,
}

module _ {E : Type 0} (svc : Service E) (repo : Repository E)
    (shared : svc.repository ≡ some repo) where
  refresh_loads :
      (s : Snapshot) (c : Breaker E)
      → repo.get svc.name c.env ≡ (ok (some s), c.env)
      → refresh svc c ≡ (ok tt, record c { snapshot = s })
  unfolding refresh
  refresh_loads s c stored = rw shared (
      ap
        (λ p. elim p.0 as (λ _. Result (Unit {0}) × Breaker E) [
          | ok found ↦ adopt svc found (record c { env = p.1 })
          | err x ↦ (err x, record c { env = p.1 })
        ])
        stored)

  enter_open :
      (s : Snapshot) (at : ℕ) (c : Breaker E)
      → s.state ≡ opened
      → s.opened_at ≡ some at
      → svc.clock c.env < at + svc.config.recovery_timeout
      → enter svc (record c { snapshot = s })
        ≡ (err (circuit_open svc.name), record c { snapshot = s })
  unfolding enter
  enter_open s at c is_open since early = ground arith

  enter_closed :
      (s : Snapshot) (c : Breaker E)
      → s.state ≡ closed
      → enter svc (record c { snapshot = s }) ≡ (ok tt, record c { snapshot = s })
  unfolding enter
  enter_closed s c is_closed = ground arith

  after_refresh :
      (s : Snapshot) (c : Breaker E)
      → repo.get svc.name c.env ≡ (ok (some s), c.env)
      → before_call svc c ≡ enter svc (record c { snapshot = s })
  unfolding before_call
  after_refresh s c stored =
      ap
        (λ p. elim p.0 as (λ _. Result (Unit {0}) × Breaker E) [
          | ok _ ↦ enter svc p.1
          | err x ↦ (err x, p.1)
        ])
        (refresh_loads s c stored)

  pub before_call_open :
      (s : Snapshot) (at : ℕ) (c : Breaker E)
      → repo.get svc.name c.env ≡ (ok (some s), c.env)
      → s.state ≡ opened
      → s.opened_at ≡ some at
      → svc.clock c.env < at + svc.config.recovery_timeout
      → before_call svc c ≡ (err (circuit_open svc.name), record c { snapshot = s })
  before_call_open s at c stored is_open since early =
      after_refresh s c stored ∙ enter_open s at c is_open since early

  pub before_call_closed :
      (s : Snapshot) (c : Breaker E)
      → repo.get svc.name c.env ≡ (ok (some s), c.env)
      → s.state ≡ closed
      → before_call svc c ≡ (ok tt, record c { snapshot = s })
  before_call_closed s c stored is_closed = after_refresh s c stored ∙ enter_closed s c is_closed

  pub call_refused :
      {T : Type 0} (handler : Action (Breaker E) T) (c d : Breaker E)
      → before_call svc c ≡ (err (circuit_open svc.name), d)
      → call svc handler c ≡ (err (circuit_open svc.name), d)
  unfolding call
  call_refused {T = T} handler c d refused =
      ap
        (λ p. elim p.0 as (λ _. Result T × Breaker E) [
          | ok _ ↦ conclude svc (handler p.1).0 (handler p.1).1
          | err x ↦ (err x, p.1)
        ])
        refused

  pub on_failure_saves :
      (b : Breaker E)
      → b.snapshot.state ≡ closed
      → svc.config.failure_threshold ≤ b.snapshot.failure_count + 1
      → on_failure svc b
        ≡ outside
            (repo.save (fresh svc.name opened (some (svc.clock b.env))))
            (trip svc (svc.clock b.env) b)
  unfolding on_failure persist
  on_failure_saves b is_closed reached = ground arith

  pub on_success_saves :
      (b : Breaker E)
      → b.snapshot.state ≡ closed
      → (s : Snapshot) × (s.state ≡ closed)
        × (s.name ≡ b.snapshot.name)
        × (on_success svc b ≡ outside (repo.save s) (record b { snapshot = s }))
  unfolding on_success persist
  on_success_saves b is_closed = (
    (succeeded svc b.snapshot.state b.snapshot b).snapshot,
    ground arith,
    ground arith,
    ground arith,
  )
