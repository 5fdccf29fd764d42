-- ===== src/EventProcessor/Tries.antt =====
-- How often an event is tried, and what is counted of it.
use taas_server_py.Prelude.{
  ℕ, zero, suc, ◌+◌, ◌<◌, true, false, Option, none, some, Dict, ◌≡◌, refl, ap, ◌⊎◌, inl, inr,
  Bool-cases, arith, if◌then◌else◌, String,
}
use taas_server_py.Exec.{Exn, is_exception, Result, ok, err, Action}
use taas_server_py.Retry.{gives_up}
use taas_server_py.Retry.Attempts.{Failed, Last, Ends-total, execute_tenacity_async-Concludes}
use taas_server_py.EventProcessor.{
  ProcessingResult, EventProcessorConfig, Processing, EventHandler, process_event_with_handler,
  process_event, handled, failure, caught, or_registered,
}

module _ {E D : Type 0} (cfg : EventProcessorConfig) (clock : E → ℕ) (show : Exn → String)
    (delay_of : ℕ → D) (sleep : D → Processing E → Processing E)
    (asleep : (d : D) (p : Processing E) → (sleep d p).event ≡ p.event) (max_attempts : ℕ)
    (handler : EventHandler E) where
  abbrev tries : Processing E → ℕ
  tries p = p.event.retry_count

  abbrev func : ℕ → Action (Processing E) ProcessingResult
  func = process_event_with_handler cfg clock show handler

  -- what a finished event says of its tries, the last being number `k + 1`
  abbrev pub Ended : ℕ → Processing E → ℕ → Result ProcessingResult × Processing E → Type 0
  Ended start p k (ok r, q) =
      ((r.success ≡ true) × (tries q ≡ tries p + k))
      ⊎ ((r.success ≡ false)
          × (tries q ≡ tries p + k + 1)
          × (((x : Exn) × (r ≡ failure cfg clock show handler start x q) × (k + 1 ≡ max_attempts))
              ⊎ ((p' : Processing E) × (func start p' ≡ (ok r, q)))))
  Ended start p k (err x, q) = (is_exception x ≡ false) × (tries q ≡ tries p + k)

  pub record Tried (p : Processing E) (out : Result ProcessingResult × Processing E) : Type 0 where
    pub k : ℕ
    pub few : k < max_attempts
    pub ended : Ended (clock p.env) p k out

  handled_returns :
      (start : ℕ) (p q : Processing E) (r : ProcessingResult) (out : Result ProcessingResult × E)
      → handled cfg clock show handler start p out ≡ (ok r, q)
      → tries q ≡ tries p + (if r.success then 0 else 1)
  handled_returns start p q r (ok result, e) h = ground arith
  handled_returns start p q r (err exn, e) h = absurd cc

  handled_fails :
      (start : ℕ) (p q : Processing E) (x : Exn) (out : Result ProcessingResult × E)
      → handled cfg clock show handler start p out ≡ (err x, q)
      → tries q ≡ tries p + (if is_exception x then 1 else 0)
  handled_fails start p q x (ok result, e) h = absurd cc
  handled_fails start p q x (err exn, e) h = ground arith

  func_returns :
      (start : ℕ) (p q : Processing E) (r : ProcessingResult)
      → func start p ≡ (ok r, q)
      → tries q ≡ tries p + (if r.success then 0 else 1)
  unfolding process_event_with_handler
  func_returns start p q r h = handled_returns start p q r (handler.handle_event p.event p.env) h

  func_fails :
      (start : ℕ) (p q : Processing E) (x : Exn)
      → func start p ≡ (err x, q)
      → tries q ≡ tries p + (if is_exception x then 1 else 0)
  unfolding process_event_with_handler
  func_fails start p q x h = handled_fails start p q x (handler.handle_event p.event p.env) h

  retried_exception : (x : Exn) → gives_up none x ≡ false → is_exception x ≡ true
  retried_exception x h = ground arith

  Failed-tries :
      (start n k : ℕ) (p q : Processing E)
      → Failed (λ n. ok (delay_of n)) sleep none (func start) n k p q
      → tries q ≡ tries p + k
  Failed-tries start n zero p q h = omega (arith, ap tries h)
  Failed-tries start n (suc k) p q (x, m, raised, again, (d, _, rest)) =
      let one : tries m ≡ tries p + 1 =
        rw (retried_exception x again) at (func_fails start p m x raised) in
      omega (
        arith,
        one,
        ap (λ e. e.retry_count) (asleep d m),
        Failed-tries start (n + 1) k (sleep d m) q rest,
      )

  caught-Ended :
      (start k : ℕ) (p at : Processing E) (out : Result ProcessingResult × Processing E)
      → tries at ≡ tries p + k
      → func start at ≡ out
      → Last (λ n. ok (delay_of n)) sleep none (func start) max_attempts (0 + k + 1) out.0
      → Ended start p k (caught cfg clock show handler start out)
  caught-Ended start k p at (ok r, q) n same last = elim (Bool-cases r.success) [
    | inl good ↦ inl (good, ground (arith, func_returns start at q r same, good, n))
    | inr bad ↦ inr (bad, ground (arith, func_returns start at q r same, bad, n), inr (at, same))
  ]
  caught-Ended start k p at (err x, q) n same last = elim (Bool-cases (is_exception x)) [
    | inl usual ↦ rw usual (
        inr (
          refl,
          ground (arith, func_fails start at q x same, usual, n),
          inl (x, refl, last_one x usual last),
        ))
    | inr base ↦ rw base (base, ground (arith, func_fails start at q x same, base, n))
  ]
    where
      last_one :
          (y : Exn)
          → is_exception y ≡ true
          → (gives_up none y ≡ true) ⊎ (0 + k + 1 ≡ max_attempts)
          → k + 1 ≡ max_attempts
      last_one y usual why = ground arith

  -- With retries, an event whose handler is known and whose task is not cancelled is tried up to
  -- `max_attempts` times, and its retry count goes up by one for each try that failed. It comes to a
  -- result unless a try raised what is no `Exception`: the handler's own result, of a failure too,
  -- which is not tried again, or that of an exception in the last try that was left.
  pub process_event-Tried :
      (given : Option (EventHandler E)) (handlers : Dict (EventHandler E)) (p : Processing E)
      → cfg.retry_enabled ≡ true
      → 0 < max_attempts
      → or_registered cfg clock show delay_of sleep
          (λ _. false)
          max_attempts
          given
          handlers
          p.event.event_type
        ≡ some handler
      → Tried p
          (process_event cfg clock show delay_of sleep (λ _. false) max_attempts given handlers p)
  unfolding process_event
  process_event-Tried given handlers p enabled pos known =
      let start = clock p.env in
      let c =
        execute_tenacity_async-Concludes delay_of sleep max_attempts none (func start) p pos in
      let (same, last) =
        Ends-total delay_of sleep none (func start) max_attempts (0 + c.k) c.at _ c.ends in
      rw (known, enabled)
        (record {
          k = c.k;
          few = c.few;
          ended =
              caught-Ended start c.k p c.at _ (Failed-tries start 0 c.k p c.at c.retried) same last;
        })
