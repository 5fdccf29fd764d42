-- ===== src/CircuitBreaker/Transitions.antt =====
-- The transitions of a breaker without a shared repository, with their guards.
use taas_server_py.Prelude.{
  inr, refl, inl, Option, ℕ, ◌+◌, ◌≤◌, none, some, ltb, Bool-cases, ◌≡◌, arith,
}
use taas_server_py.CircuitBreaker.{
  CircuitState, closed, opened, half_open, Service, Breaker, before_call, enter, refresh,
  on_success, on_failure, fresh, persist,
}
use taas_server_py.CircuitBreaker.Invariant.{Event, entering, succeeding, failing, elsewhere, after}

-- The guard of each change of state: whether a breaker may go from `b` to `c` in one step.
module _ {E : Type 0} (svc : Service E) (b c : Breaker E) where
  abbrev Guard : CircuitState → CircuitState → Type 0
  Guard closed closed = Unit
  Guard opened opened = Unit
  Guard half_open half_open = Unit
  Guard closed opened =
      (svc.config.failure_threshold ≤ b.snapshot.failure_count + 1)
      × (c.snapshot ≡ fresh svc.name opened (some (svc.clock b.env)))
  Guard opened half_open =
      (at : ℕ) × (b.snapshot.opened_at ≡ some at)
      × (at + svc.config.recovery_timeout ≤ svc.clock b.env)
      × (c.snapshot ≡ fresh svc.name half_open (some at))
  Guard half_open closed =
      (svc.config.success_threshold ≤ b.snapshot.success_count + 1)
      × (c.snapshot ≡ fresh svc.name closed none)
  Guard half_open opened = c.snapshot ≡ fresh svc.name opened (some (svc.clock b.env))
  Guard closed half_open = ⊥
  Guard opened closed = ⊥

  abbrev pub Transition : Type 0
  Transition = Guard b.snapshot.state c.snapshot.state

module _ {E : Type 0} (svc : Service E) (local : svc.repository ≡ none) (b : Breaker E) where
  may_probe :
      (c : Breaker E) (t : ℕ)
      → b.snapshot.state ≡ opened
      → b.snapshot.opened_at ≡ some t
      → t + svc.config.recovery_timeout ≤ svc.clock b.env
      → c.snapshot ≡ fresh svc.name half_open (some t)
      → Transition svc b c
  may_probe c t es ea late ec = ground arith

  before_call-enter : before_call svc b ≡ enter svc b
  unfolding before_call refresh
  before_call-enter = rw local

  enter-Transition :
      (s : CircuitState) (at : Option ℕ)
      → b.snapshot.state ≡ s
      → b.snapshot.opened_at ≡ at
      → Transition svc b (enter svc b).1
  unfolding enter persist
  enter-Transition closed at es ea = ground arith
  enter-Transition half_open at es ea = ground arith
  enter-Transition opened none es ea = ground arith
  enter-Transition opened (some t) es ea =
      elim (Bool-cases (ltb (svc.clock b.env) (t + svc.config.recovery_timeout))) [
        | inl early ↦ ground arith
        | inr late ↦ may_probe (enter svc b).1 t es ea (ground arith) (ground arith)
      ]

  before_call-Transition : Transition svc b (before_call svc b).1
  before_call-Transition =
      rw before_call-enter (enter-Transition b.snapshot.state b.snapshot.opened_at refl refl)

  on_success-Transition : Transition svc b (on_success svc b).1
  unfolding on_success persist
  on_success-Transition = ground arith

  on_failure-Transition : Transition svc b (on_failure svc b).1
  unfolding on_failure persist
  on_failure-Transition = ground arith

  -- Every atomic step of a breaker without a shared repository either leaves its state or makes
  -- one of four changes: closed to open at the failure threshold, open to half-open after the
  -- recovery window, half-open to closed at the success threshold, half-open to open. Each change
  -- starts a new snapshot; a newly opened one has the present time.
  pub after-Transition : (event : Event E) → Transition svc b (after svc event b)
  after-Transition entering = before_call-Transition
  after-Transition succeeding = on_success-Transition
  after-Transition failing = on_failure-Transition
  after-Transition (elsewhere f) = ground arith
