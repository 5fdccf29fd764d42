-- ===== src/Fallback.antt =====
-- libs/foundation/src/foundation/resiliant: fallback.py and timeout.py. `asyncio.wait_for` is a
-- parameter; deadlines are in units of time.
pub mod Outcomes
use taas_server_py.Prelude.{ℕ, Bool, true, false, Option, none, some, if◌then◌else◌}
use taas_server_py.Exec.{Exn, timeout, operation_timeout, fallback_error, Result, ok, err, Action}

-- `except TimeoutError`
abbrev pub is_timeout : Exn → Bool
is_timeout timeout = true
is_timeout _ = false

module _ {E T : Type 0} where
  -- `fallback_on` is `isinstance` of the configured exception types.
  module _ (fallback_on : Exn → Bool) where
    abbrev pub degraded : Exn → Result T × E → Result T × E
    degraded exn (ok r, e) = (ok r, e)
    degraded exn (err other, e) = (err (fallback_error exn other), e)

    abbrev recovered : (Exn → Action E T) → Result T × E → Result T × E
    recovered fallback (ok r, e) = (ok r, e)
    recovered fallback (err exn, e) =
        if fallback_on exn then degraded exn (fallback exn e) else (err exn, e)

    -- `FallbackService.execute`
    pub execute_fallback : Action E T → (Exn → Action E T) → Action E T
    execute_fallback primary fallback e = recovered fallback (primary e)

  -- `TimeoutService.execute`
  module _ (wait_for : ℕ → Action E T → Action E T) (default_seconds : ℕ) where
    abbrev deadline : Option ℕ → ℕ
    deadline none = default_seconds
    deadline (some n) = n

    abbrev expired : ℕ → Result T × E → Result T × E
    expired limit (ok r, e) = (ok r, e)
    expired limit (err exn, e) =
        if is_timeout exn then (err (operation_timeout limit), e) else (err exn, e)

    pub execute_timeout : Option ℕ → Action E T → Action E T
    execute_timeout seconds handler e =
        expired (deadline seconds) (wait_for (deadline seconds) handler e)
