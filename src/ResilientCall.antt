-- ===== src/ResilientCall.antt =====
-- libs/foundation/src/foundation/resiliant/resilient_call.py: `ResilientExecutor`, the guards around
-- one call. The breaker is the outermost guard but the fallback, so all act on its state, whose
-- surroundings hold the bulkhead.
pub mod Guards
use taas_server_py.Prelude.{ℕ, Bool, Option, none, some}
use taas_server_py.Exec.{Exn, Action}
use taas_server_py.CircuitBreaker.{Service, Breaker}
use taas_server_py.CircuitBreaker
use taas_server_py.Bulkhead.{BulkheadService}
use taas_server_py.Bulkhead
use taas_server_py.Fallback.{execute_fallback, execute_timeout}

-- what `__init__` fixes
pub record ResilientExecutor (E : Type 0) : Type 0 where
  pub timeout_seconds : Option ℕ
  pub breaker : Option (Service E)
  pub bulkhead : Option (BulkheadService (Breaker E))
  pub fallback_on : Exn → Bool

-- `asyncio.wait_for`, and the default deadline of the timeout service
module _ {E T : Type 0} (wait_for : ℕ → Action (Breaker E) T → Action (Breaker E) T)
    (default_seconds : ℕ) (executor : ResilientExecutor E) where
  abbrev pub with_timeout : Option ℕ → Action (Breaker E) T → Action (Breaker E) T
  with_timeout none handler = handler
  with_timeout (some seconds) handler =
      execute_timeout wait_for default_seconds (some seconds) handler

  abbrev pub with_bulkhead :
      Option (BulkheadService (Breaker E)) → Action (Breaker E) T → Action (Breaker E) T
  with_bulkhead none handler = handler
  with_bulkhead (some bulkhead) handler = Bulkhead.execute bulkhead handler

  abbrev pub with_breaker : Option (Service E) → Action (Breaker E) T → Action (Breaker E) T
  with_breaker none handler = handler
  with_breaker (some breaker) handler = CircuitBreaker.call breaker handler

  -- `_compose`
  pub compose : Action (Breaker E) T → Action (Breaker E) T
  compose handler =
      with_breaker executor.breaker
        (with_bulkhead executor.bulkhead (with_timeout executor.timeout_seconds handler))

  abbrev pub with_fallback :
      Option (Exn → Action (Breaker E) T) → Action (Breaker E) T → Action (Breaker E) T
  with_fallback none primary = primary
  with_fallback (some fallback) primary = execute_fallback executor.fallback_on primary fallback

  pub call : Action (Breaker E) T → Option (Exn → Action (Breaker E) T) → Action (Breaker E) T
  unfolding compose
  call handler fallback = with_fallback fallback (compose handler)
