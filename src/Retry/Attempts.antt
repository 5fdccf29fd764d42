-- ===== src/Retry/Attempts.antt =====
-- What a retried call comes to, for every function that is retried.
use native.Mathlib.Nat.{add-zero}
use mathlib.Core.Path.{subst}
use taas_server_py.Prelude.{
  dec_lt, ℕ, zero, suc, ◌+◌, ◌≤◌, ◌<◌, Bool, true, false, Option, none, some, ◌≡◌, refl, arith, ◌⊎◌,
  inl, inr, Bool-cases,
}
use taas_server_py.Exec.{Exn, Result, ok, err, Action}
use taas_server_py.Retry.{
  get_next_delay, execute_linear, execute, LinearPolicy, Policy, Floats, make_linear, make_policy,
  attempts, gives_up, paused, execute_tenacity_async,
}

module _ {S T D : Type 0} (delay_of : ℕ → Result D) (sleep : D → S → S)
    (should_retry : Option (Exn → Bool)) (func : Action S T) where
  -- `Failed n k s t`: from the state `s`, with `n` attempts done, `k` more attempts fail with
  -- exceptions that are retried, each followed by the sleep of its delay, and `t` is the state after them.
  abbrev pub Failed : ℕ → ℕ → S → S → Type 0
  Failed n zero s t = s ≡ t
  Failed n (suc k) s t =
      (e : Exn) × (m : S) × (func s ≡ (err e, m))
      × (gives_up should_retry e ≡ false)
      × ((delay : D) × (delay_of n ≡ ok delay) × Failed (n + 1) k (sleep delay m) t)

  -- why no attempt follows one that ended with this result
  abbrev pub Last : ℕ → ℕ → Result T → Type 0
  Last max n (ok v) = Unit
  Last max n (err e) = (gives_up should_retry e ≡ true) ⊎ (n ≡ max)

  -- Why no attempt follows: the call has returned, or raised what is not retried, or was the last one,
  -- and its result is the outcome; or it is to be retried, its delay fails to be computed, as a power
  -- overflows, and that error is the outcome.
  abbrev pub Ends : ℕ → ℕ → S → Result T × S → Type 0
  Ends max n at outcome =
      ((func at ≡ outcome) × Last max (n + 1) outcome.0)
      ⊎ ((e : Exn) × (m : S) × (x : Exn) × (func at ≡ (err e, m))
          × (gives_up should_retry e ≡ false)
          × (n + 1 < max)
          × (delay_of n ≡ err x)
          × (outcome ≡ (err x, m)))

  -- The last attempt: `k` earlier ones failed and were retried, fewer than `left`.
  pub record Concludes (max left n : ℕ) (s : S) (outcome : Result T × S) : Type 0 where
    pub k : ℕ
    pub at : S
    pub few : k < left
    pub retried : Failed n k s at
    pub ends : Ends max (n + k) at outcome

  abbrev go : ℕ → ℕ → ℕ → Option Exn → S → Result T × S
  go max = attempts delay_of sleep (λ s. false) max should_retry func

  go_ok :
      (max left n : ℕ) (before : Option Exn) (s t : S) (v : T)
      → func s ≡ (ok v, t)
      → go max (suc left) n before s ≡ (ok v, t)
  unfolding attempts
  go_ok max left n before s t v h = ground arith

  go_stop :
      (max left n : ℕ) (before : Option Exn) (s t : S) (e : Exn)
      → func s ≡ (err e, t)
      → (gives_up should_retry e ≡ true) ⊎ (max ≤ n + 1)
      → go max (suc left) n before s ≡ (err e, t)
  unfolding attempts
  go_stop max left n before s t e h why = ground arith

  go_again :
      (max left n : ℕ) (before : Option Exn) (s t : S) (e : Exn)
      → func s ≡ (err e, t)
      → gives_up should_retry e ≡ false
      → n + 1 < max
      → go max (suc left) n before s
        ≡ paused delay_of sleep (λ _. false) (go max left (n + 1) (some e)) t (delay_of n)
  unfolding attempts
  go_again max left n before s t e h on more = ground arith

  Concludes-now :
      (max left n : ℕ) (s t : S) (res : Result T)
      → func s ≡ (res, t)
      → Last max (n + 1) res
      → Concludes max (suc left) n s (res, t)
  Concludes-now max left n s t res h last = record {
    k = 0;
    at = s;
    few = omega arith;
    retried = refl;
    ends = rw (add-zero n) (inl (h, last));
  }

  Concludes-later :
      (max left n : ℕ) (s t : S) (e : Exn) (delay : D) (outcome : Result T × S)
      → func s ≡ (err e, t)
      → gives_up should_retry e ≡ false
      → delay_of n ≡ ok delay
      → Concludes max left (n + 1) (sleep delay t) outcome
      → Concludes max (suc left) n s outcome
  Concludes-later max left n s t e delay outcome h on d c = record {
    k = suc c.k;
    at = c.at;
    few = omega arith;
    retried = (e, t, h, on, (delay, d, c.retried));
    ends = subst (λ m. Ends max m c.at outcome) (omega arith) c.ends;
  }

  Concludes-paused :
      (max left n : ℕ) (s t : S) (e : Exn) (next : Action S T) (delay : Result D)
      → func s ≡ (err e, t)
      → gives_up should_retry e ≡ false
      → n + 1 < max
      → delay_of n ≡ delay
      → ((d : D) → Concludes max left (n + 1) (sleep d t) (next (sleep d t)))
      → Concludes max (suc left) n s (paused delay_of sleep (λ _. false) next t delay)
  Concludes-paused max left n s t e next (ok d) h on more at rest =
      Concludes-later max left n s t e d _ h on at (rest d)
  Concludes-paused max left n s t e next (err x) h on more at rest = record {
    k = 0;
    at = s;
    few = omega arith;
    retried = refl;
    ends = rw (add-zero n) (inr (e, t, x, h, on, more, at, refl));
  }

  Concludes-first :
      (max left n : ℕ) (before : Option Exn) (s : S) (res : Result T) (t : S)
      → func s ≡ (res, t)
      → n + suc left ≡ max
      → ((x : Exn) (d : D)
          → 0 < left
          → Concludes max left (n + 1) (sleep d t) (go max left (n + 1) (some x) (sleep d t)))
      → Concludes max (suc left) n s (go max (suc left) n before s)
  Concludes-first max left n before s (ok v) t e total rest =
      rw (go_ok max left n before s t v e) (Concludes-now max left n s t (ok v) e tt)
  Concludes-first max left n before s (err x) t e total rest =
      elim (Bool-cases (gives_up should_retry x)) [
        | inl stops ↦
            rw (go_stop max left n before s t x e (inl stops))
              (Concludes-now max left n s t (err x) e (inl stops))
        | inr on ↦ elim (dec_lt (n + 1) max) [
          | yes more ↦ rw (go_again max left n before s t x e on more) (
              Concludes-paused max left n s t x (go max left (n + 1) (some x)) (delay_of n) e on
                more refl (λ d. rest x d (omega arith)))
          | no done ↦
              rw (go_stop max left n before s t x e (inr (omega arith)))
                (Concludes-now max left n s t (err x) e (inr (omega arith)))
        ]
      ]

  pub attempts-Concludes :
      (max left n : ℕ) (before : Option Exn) (s : S)
      → 0 < left
      → n + left ≡ max
      → Concludes max left n s (go max left n before s)
  attempts-Concludes max zero n before s h total = elim h [ ]
  attempts-Concludes max (suc left) n before s h total =
      Concludes-first max left n before s (func s).0 (func s).1 refl total (λ x d more.
        attempts-Concludes max left (n + 1) (some x) (sleep d (func s).1) more (omega arith))

-- A policy that the constructor accepts allows an attempt.
make_policy_pos :
    (fl : Floats) (p q : Policy fl) → make_policy fl p ≡ ok q → (q ≡ p) × (0 < q.max_attempts)
unfolding make_policy
make_policy_pos fl p q h = ground arith

make_linear_pos :
    (fl : Floats) (p q : LinearPolicy fl) → make_linear fl p ≡ ok q → (q ≡ p) × (0 < q.max_attempts)
unfolding make_linear
make_linear_pos fl p q h = ground arith

module _ (fl : Floats) {S T : Type 0} (drawn : ℕ → fl.F) (sleep : fl.F → S → S) (func : Action S T)
    (should_retry : Option (Exn → Bool)) where
  -- With a policy that the constructor accepts, `execute` calls the function once or more, at
  -- most `max_attempts` times. Every call but the last raises an exception that is retried, and is
  -- followed by a sleep of `get_next_delay`; nothing sleeps after the last. The outcome is that of
  -- the last call, which returns, or raises what is not retried, or is number `max_attempts`; or the
  -- last call is to be retried, but its delay cannot be computed, and that error is the outcome.
  pub execute-Concludes :
      (p q : Policy fl) (s : S)
      → make_policy fl p ≡ ok q
      → Concludes
          (λ n. get_next_delay fl q (drawn n) n)
          sleep
          should_retry
          func
          q.max_attempts
          q.max_attempts
          0
          s
          (execute fl drawn sleep (λ _. false) q should_retry func s)
  unfolding execute
  execute-Concludes p q s made =
      attempts-Concludes _ sleep should_retry func q.max_attempts q.max_attempts 0 none s
        (make_policy_pos fl p q made).1 (omega arith)

  -- The same of `LinearBackoffRetry.execute`, where each sleep is the fixed delay.
  pub execute_linear-Concludes :
      (p q : LinearPolicy fl) (s : S)
      → make_linear fl p ≡ ok q
      → Concludes
          (λ _. ok q.delay)
          sleep
          should_retry
          func
          q.max_attempts
          q.max_attempts
          0
          s
          (execute_linear fl drawn sleep (λ _. false) q should_retry func s)
  unfolding execute_linear
  execute_linear-Concludes p q s made =
      attempts-Concludes _ sleep should_retry func q.max_attempts q.max_attempts 0 none s
        (make_linear_pos fl p q made).1 (omega arith)

pub execute_tenacity_async-Concludes :
    {S T D : Type 0} (delay_of : ℕ → D) (sleep : D → S → S) (max_attempts : ℕ)
    (should_retry : Option (Exn → Bool)) (func : Action S T) (s : S)
    → 0 < max_attempts
    → Concludes
        (λ n. ok (delay_of n))
        sleep
        should_retry
        func
        max_attempts
        max_attempts
        0
        s
        (execute_tenacity_async delay_of sleep (λ _. false) max_attempts should_retry func s)
unfolding execute_tenacity_async
execute_tenacity_async-Concludes delay_of sleep max_attempts should_retry func s h =
    attempts-Concludes (λ n. ok (delay_of n)) sleep should_retry func max_attempts max_attempts 0
      none s h (omega arith)

-- delays that can be computed end no retries
pub Ends-total :
    {S T D : Type 0} (delay_of : ℕ → D) (sleep : D → S → S) (should_retry : Option (Exn → Bool))
    (func : Action S T) (max n : ℕ) (at : S) (outcome : Result T × S)
    → Ends (λ n. ok (delay_of n)) sleep should_retry func max n at outcome
    → (func at ≡ outcome)
      × Last (λ n. ok (delay_of n)) sleep should_retry func max (n + 1) outcome.0
Ends-total delay_of sleep should_retry func max n at outcome (inl ended) = ended
Ends-total delay_of sleep should_retry func max n at outcome (inr (e, m, x, _, _, _, fails, _)) =
    cc fails
