-- ===== src/CircuitBreaker/Calls.antt =====
-- Whole calls of a breaker without a shared repository.
use taas_server_py.Prelude.{
  refl, [], dec_lt, ◌∷◌, length, All, List, ℕ, ◌+◌, ◌≤◌, ◌<◌, none, some, ◌≡◌, arith,
}
use taas_server_py.Exec.{Exn, ok, err, Action, circuit_open}
use taas_server_py.CircuitBreaker.{
  closed, opened, Service, Breaker, before_call, enter, refresh, on_success, on_failure, fresh,
  persist, call, outside,
}

module _ {E : Type 0} (svc : Service E) (local : svc.repository ≡ none) where
  -- While the recovery window lasts, a call is refused: the handler does not run, and nothing
  -- changes.
  pub call_fails_fast :
      {T : Type 0} (handler : Action (Breaker E) T) (b : Breaker E) (at : ℕ)
      → b.snapshot.state ≡ opened
      → b.snapshot.opened_at ≡ some at
      → svc.clock b.env < at + svc.config.recovery_timeout
      → call svc handler b ≡ (err (circuit_open svc.name), b)
  unfolding call before_call enter refresh
  call_fails_fast handler b at is_open since early = ground arith

  -- Once the window has passed, one successful probe closes the breaker, if one success is enough
  -- and a probe is allowed. The handler only acts on the surroundings.
  pub call_recovers :
      {T : Type 0} (handler : Action E T) (result : T) (b : Breaker E) (at : ℕ)
      → b.snapshot.state ≡ opened
      → b.snapshot.opened_at ≡ some at
      → at + svc.config.recovery_timeout ≤ svc.clock b.env
      → 0 < svc.config.half_open_max_calls
      → svc.config.success_threshold ≤ 1
      → (handler b.env).0 ≡ ok result
      → let (r, c) = call svc (outside handler) b in
        (r ≡ ok result) × (c.snapshot ≡ fresh svc.name closed none)
  unfolding call before_call enter refresh on_success persist
  call_recovers handler result b at is_open since late quota once done = ground arith

  -- A failed probe opens the breaker again, from the time at which the handler failed.
  pub call_reopens :
      {T : Type 0} (handler : Action E T) (exn : Exn) (b : Breaker E) (at : ℕ)
      → b.snapshot.state ≡ opened
      → b.snapshot.opened_at ≡ some at
      → at + svc.config.recovery_timeout ≤ svc.clock b.env
      → 0 < svc.config.half_open_max_calls
      → (handler b.env).0 ≡ err exn
      → let (r, c) = call svc (outside handler) b in
        (r ≡ err exn)
        × (c.snapshot ≡ fresh svc.name opened (some (svc.clock (handler b.env).1)))
        × (c.half_open_in_flight ≡ 0)
  unfolding call before_call enter refresh on_failure persist
  call_reopens handler exn b at is_open since late quota broke = ground arith

  -- A failing call of a closed breaker either counts one more failure or, at the threshold, trips it.
  call_counts :
      {T : Type 0} (handler : Action E T) (exn : Exn) (b : Breaker E)
      → b.snapshot.state ≡ closed
      → (handler b.env).0 ≡ err exn
      → let (r, c) = call svc (outside handler) b in
        (r ≡ err exn)
        × ((b.snapshot.failure_count + 1 < svc.config.failure_threshold
            → (c.snapshot.state ≡ closed)
              × (c.snapshot.failure_count ≡ b.snapshot.failure_count + 1)))
        × (svc.config.failure_threshold ≤ b.snapshot.failure_count + 1 → c.snapshot.state ≡ opened)
  unfolding call before_call enter refresh on_failure persist
  call_counts handler exn b is_closed broke = (ground arith, ground arith, ground arith)

  -- one call after another
  pub calls : {T : Type 0} → List (Action E T) → Breaker E → Breaker E
  calls [] b = b
  calls (handler ∷ handlers) b = calls handlers (call svc (outside handler) b).1

  calls_none :
      {T : Type 0} (handlers : List (Action E T)) (b : Breaker E)
      → length handlers ≡ 0
      → calls handlers b ≡ b
  unfolding calls
  calls_none [] b h = refl
  calls_none (handler ∷ handlers) b h = absurd (omega arith)

  abbrev pub Raises : {T : Type 0} → Action E T → Type 0
  Raises handler = (e : E) → (exn : Exn) × ((handler e).0 ≡ err exn)

  -- how far `n` failures take a breaker with `count` failures before them
  abbrev pub Counted : ℕ → ℕ → Breaker E → Type 0
  Counted count n c =
      (count + n < svc.config.failure_threshold
        → (c.snapshot.state ≡ closed) × (c.snapshot.failure_count ≡ count + n))
      × (count + n ≡ svc.config.failure_threshold → c.snapshot.state ≡ opened)

  -- Consecutive failures are counted while they stay below the threshold, and the one that
  -- reaches it opens the breaker.
  pub failures_trip :
      {T : Type 0} (handlers : List (Action E T)) (b : Breaker E)
      → b.snapshot.state ≡ closed
      → b.snapshot.failure_count < svc.config.failure_threshold
      → All Raises handlers
      → Counted b.snapshot.failure_count (length handlers) (calls handlers b)
  unfolding calls
  failures_trip [] b is_closed below raise =
      (λ h. (is_closed, omega arith), λ h. absurd (omega arith))
  failures_trip (handler ∷ handlers) b is_closed below raise =
      let (exn, broke) = raise.0 b.env in
      let c : Breaker E = (call svc (outside handler) b).1 in
      let now = call_counts handler exn b is_closed broke in
      elim (dec_lt (b.snapshot.failure_count + 1) svc.config.failure_threshold) [
        | yes more ↦
            let rest =
              failures_trip handlers c (now.1 more).0 (omega (arith, now.1 more)) raise.1 in
            (λ h. ground (arith, rest.0, now.1 more), λ h. ground (arith, rest.1, now.1 more))
        | no last ↦ (
          λ h. absurd (omega arith),
          λ h. rw (calls_none handlers c (omega arith)) (now.2 (omega arith)),
        )
      ]
