-- ===== src/Fallback/Outcomes.antt =====
-- How a handler ends under a deadline and with a fallback behind it.
use taas_server_py.Prelude.{
  ℕ, Bool, true, false, Option, some, ◌≡◌, refl, ◌≢◌, inl, inr, Bool-cases, arith,
}
use taas_server_py.Exec.{Exn, timeout, operation_timeout, fallback_error, Result, ok, err, Action}
use taas_server_py.Fallback.{
  execute_fallback, execute_timeout, is_timeout, expired, deadline, degraded,
}

module _ {E T : Type 0} (wait_for : ℕ → Action E T → Action E T) (default_seconds : ℕ)
    (fallback_on : Exn → Bool) where
  -- `primary` under a deadline, and `fallback` behind it
  pub guarded : Option ℕ → Action E T → (Exn → Action E T) → Action E T
  unfolding execute_fallback execute_timeout
  guarded seconds primary fallback =
      execute_fallback fallback_on (execute_timeout wait_for default_seconds seconds primary)
        fallback

  -- what the call makes of the fallback's result, after an exception of the handler
  abbrev pub of_both : Exn → Result T → Result T
  of_both exn (ok r) = ok r
  of_both exn (err other) = err (fallback_error exn other)

  -- A handler that runs out of its time raises the timeout error with its deadline; where this is
  -- one of the configured exceptions, the fallback gets it and runs in the state that was left, and
  -- what it returns is the call's result. Where the fallback raises too, be it a cancellation, the
  -- call raises an error of both.
  pub deadline_falls_back :
      (limit : ℕ) (primary : Action E T) (fallback : Exn → Action E T) (e e' e'' : E)
      (res : Result T)
      → wait_for limit primary e ≡ (err timeout, e')
      → fallback_on (operation_timeout limit) ≡ true
      → fallback (operation_timeout limit) e' ≡ (res, e'')
      → guarded (some limit) primary fallback e ≡ (of_both (operation_timeout limit) res, e'')
  unfolding guarded
  deadline_falls_back limit primary fallback e e' e'' (ok r) late caught h =
      rw (late, caught, h) refl
  deadline_falls_back limit primary fallback e e' e'' (err exn) late caught h =
      rw (late, caught, h) refl

module _ {E T : Type 0} (wait_for : ℕ → Action E T → Action E T) (default_seconds : ℕ) where
  -- No `TimeoutError` leaves the timeout service, whichever way the handler ends.
  pub no_timeout_escapes :
      (seconds : Option ℕ) (handler : Action E T) (e : E)
      → (execute_timeout wait_for default_seconds seconds handler e).0 ≢ err timeout
  unfolding execute_timeout
  no_timeout_escapes seconds handler e =
      translated (deadline wait_for default_seconds seconds)
        (wait_for (deadline wait_for default_seconds seconds) handler e)
    where
      other_error :
          (exn : Exn) → is_timeout exn ≡ false → ¬ (◌≡◌ {A = Result T} (err exn) (err timeout))
      other_error exn other h = cc

      translated :
          (limit : ℕ) (out : Result T × E)
          → (expired wait_for default_seconds limit out).0 ≢ err timeout
      translated limit (ok r, s) h = cc
      translated limit (err exn, s) h = elim (Bool-cases (is_timeout exn)) [
        | inl late ↦ ground (arith, late, h)
        | inr other ↦ other_error exn other (ground (arith, other, h))
      ]

module _ {E T : Type 0} where
  pub execute_timeout_late :
      (wait_for : ℕ → Action E T → Action E T) (default_seconds limit : ℕ) (handler : Action E T)
      (e e' : E)
      → wait_for limit handler e ≡ (err timeout, e')
      → execute_timeout wait_for default_seconds (some limit) handler e
        ≡ (err (operation_timeout limit), e')
  unfolding execute_timeout
  execute_timeout_late wait_for default_seconds limit handler e e' late = rw late refl

  pub execute_fallback_runs :
      (fallback_on : Exn → Bool) (primary : Action E T) (fallback : Exn → Action E T) (exn : Exn)
      (e e' : E)
      → primary e ≡ (err exn, e')
      → fallback_on exn ≡ true
      → execute_fallback fallback_on primary fallback e ≡ degraded fallback_on exn (fallback exn e')
  unfolding execute_fallback
  execute_fallback_runs fallback_on primary fallback exn e e' raised caught =
      rw (raised, caught) refl
