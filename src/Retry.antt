-- ===== src/Retry.antt =====
-- libs/foundation/src/foundation/resiliant/retry/exp_backoff_retry.py: `ExponentialBackoffRetry`
-- and `LinearBackoffRetry`. The function to retry acts on a state; sleeping and the state of the
-- current task are parameters. The signal handlers of `execute_async` are not modelled.
pub mod Attempts
pub mod Delay
use taas_server_py.Prelude.{
  ℕ, zero, suc, ◌+◌, Bool, true, false, not, ◌&&◌, ◌||◌, Option, none, some, ltb, leb,
  if◌then◌else◌,
}
use taas_server_py.Floats.{Floats, min_float}
use taas_server_py.Exec.{
  Exn, is_exception, value_error, runtime_error, cancelled, Result, ok, err, Action,
}

-- `should_retry`: the retried exceptions, all of them if it is `None`
abbrev pub refuses : Option (Exn → Bool) → Exn → Bool
refuses none e = false
refuses (some should_retry) e = not (should_retry e)

-- the exceptions that an `except Exception` catches and that end the loop there, or pass it by
abbrev pub gives_up : Option (Exn → Bool) → Exn → Bool
gives_up should_retry e = not (is_exception e) || refuses should_retry e

abbrev or_runtime_error : Option Exn → Exn
or_runtime_error none = runtime_error
or_runtime_error (some e) = e

module _ {S T D : Type 0} (delay_of : ℕ → Result D) (sleep : D → S → S)
    (task_cancelled : S → Bool) where
  -- the sleep before the next attempt, whose delay may fail to be computed
  abbrev pub paused : Action S T → S → Result D → Result T × S
  paused again s (ok delay) = again (sleep delay s)
  paused again s (err exn) = (err exn, s)

  -- The loop `for attempt in range(max_attempts)` with `left` rounds to go, `attempt` being done.
  pub attempts : ℕ → Option (Exn → Bool) → Action S T → ℕ → ℕ → Option Exn → Action S T
  attempts max should_retry func zero attempt last s = (err (or_runtime_error last), s)
  attempts max should_retry func (suc left) attempt last s =
      let (res, s') = func s in
      let ended : Result T × S = elim res [
        | ok v ↦ (ok v, s')
        | err e ↦
            (let again =
                paused (attempts max should_retry func left (attempt + 1) (some e)) s'
                  (delay_of attempt) in
              if gives_up should_retry e
              then (err e, s')
              else if leb max (attempt + 1)
              then (err e, s')
              else again)
      ] in
      if task_cancelled s then (err cancelled, s) else ended

-- `ExponentialBackoffRetry.__init__`
module _ (fl : Floats) where
  pub record Policy : Type 0 where
    pub max_attempts : ℕ
    pub initial_delay : fl.F
    pub max_delay : fl.F
    pub exponential_base : fl.F
    pub jitter : Bool

  unfoldable pub make_policy : Policy → Result Policy
  make_policy p =
      if ltb p.max_attempts 1
        || not (fl.lt fl.zero p.initial_delay)
        || fl.lt p.max_delay p.initial_delay
        || fl.lt p.exponential_base fl.one
      then err value_error
      else ok p

  -- `LinearBackoffRetry.__init__`
  pub record LinearPolicy : Type 0 where
    pub max_attempts : ℕ
    pub delay : fl.F

  unfoldable pub make_linear : LinearPolicy → Result LinearPolicy
  make_linear p = if ltb p.max_attempts 1 || fl.lt p.delay fl.zero then err value_error else ok p

module _ (fl : Floats) where
  abbrev delay_from : Policy fl → fl.F → Result fl.F → Result fl.F
  delay_from p drawn (ok power) =
      let delay = min_float fl (fl.mul p.initial_delay power) p.max_delay in
      ok (if p.jitter then fl.add delay (fl.mul delay drawn) else delay)
  delay_from p drawn (err exn) = err exn

  -- `get_next_delay`, with the value that `random.uniform(0, 0.5)` gives
  pub get_next_delay : Policy fl → fl.F → ℕ → Result fl.F
  get_next_delay p drawn attempt = delay_from p drawn (fl.pow p.exponential_base attempt)

-- `drawn` are the random values by attempt
module _ (fl : Floats) {S T : Type 0} (drawn : ℕ → fl.F) (sleep : fl.F → S → S)
    (task_cancelled : S → Bool) where
  pub execute : Policy fl → Option (Exn → Bool) → Action S T → Action S T
  unfolding attempts
  execute p should_retry func =
      attempts (λ n. get_next_delay fl p (drawn n) n) sleep (λ s. false) p.max_attempts should_retry
        func p.max_attempts 0 none

  pub execute_async : Policy fl → Option (Exn → Bool) → Action S T → Action S T
  unfolding attempts
  execute_async p should_retry func =
      attempts (λ n. get_next_delay fl p (drawn n) n) sleep task_cancelled p.max_attempts
        should_retry func p.max_attempts 0 none

  pub execute_linear : LinearPolicy fl → Option (Exn → Bool) → Action S T → Action S T
  unfolding attempts
  execute_linear p should_retry func =
      attempts (λ n. ok p.delay) sleep (λ s. false) p.max_attempts should_retry func p.max_attempts
        0 none

  pub execute_linear_async : LinearPolicy fl → Option (Exn → Bool) → Action S T → Action S T
  unfolding attempts
  execute_linear_async p should_retry func =
      attempts (λ n. ok p.delay) sleep task_cancelled p.max_attempts should_retry func
        p.max_attempts 0 none

-- `TenacityRetry.execute_async`, which has the same loop; `delay_of` is its `get_next_delay`
pub execute_tenacity_async :
    {S T D : Type 0}
    → (ℕ → D)
    → (D → S → S)
    → (S → Bool)
    → ℕ
    → Option (Exn → Bool)
    → Action S T
    → Action S T
unfolding attempts
execute_tenacity_async delay_of sleep task_cancelled max_attempts should_retry func =
    attempts (λ n. ok (delay_of n)) sleep task_cancelled max_attempts should_retry func max_attempts
      0 none
