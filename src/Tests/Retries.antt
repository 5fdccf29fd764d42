-- ===== src/Tests/Retries.antt =====
-- The retry policies and the intervals at concrete inputs, with whole numbers as floats.
use taas_server_py.Prelude.{
  le→ltb, ℕ, ◌+◌, ◌*◌, ◌^◌, ◌≤◌, true, false, none, ltb, refl, arith, if◌then◌else◌,
}
use taas_server_py.Floats.{Floats, FloatLaws}
use taas_server_py.Exec.{app, ok, err, Action}
use taas_server_py.Retry.{make_policy, Policy, LinearPolicy, execute, get_next_delay}
use taas_server_py.Retry.Attempts.{Concludes, execute-Concludes}
use taas_server_py.OutboxPoller.{Intervals, adaptive}
use taas_server_py.OutboxPoller.Counts.{IsUniform}

abbrev whole : Floats
whole = record {
  F = ℕ;
  zero = 0;
  one = 1;
  half = 1;
  lt = ltb;
  add = ◌+◌;
  mul = ◌*◌;
  pow = λ a n. ok (a ^ n);
}

mul_le : (a b c d : ℕ) → a ≤ b → c ≤ d → a * c ≤ b * d
mul_le a b c d h k = grind arith

whole-laws : FloatLaws whole
whole-laws = record {
  le_refl = λ a. ground arith;
  le_trans = λ a b c h k. ground arith;
  le_of_lt = λ a b h. ground arith;
  add_mono = λ a b c d h k. ground arith;
  mul_mono =
      λ a b c d h k p q. le→ltb (b * d) (a * c) (mul_le a b c d (ground arith) (ground arith));
}

abbrev policy : Policy whole
policy = record {
  max_attempts = 3;
  initial_delay = 1;
  max_delay = 10;
  exponential_base = 2;
  jitter = true;
}

abbrev steady : LinearPolicy whole
steady = record { max_attempts = 2; delay = 4 }

-- fails until the clock has passed 2
abbrev flaky : Action ℕ ℕ
flaky now = (if ltb 2 now then ok 9 else err (app 3), now)

execute-Concludes_example :
    Concludes
      (λ n. get_next_delay whole policy 0 n)
      (λ d now. now + d)
      none
      flaky
      3
      3
      0
      0
      (execute whole (λ _. 0) (λ d now. now + d) (λ _. false) policy none flaky 0)
unfolding make_policy
execute-Concludes_example =
    execute-Concludes whole (λ _. 0) (λ d now. now + d) flaky none policy policy 0 refl

upper-IsUniform : IsUniform whole (λ a b. b)
upper-IsUniform a b h = (h, whole-laws.le_refl b)

abbrev intervals : Intervals whole
intervals = record { strategy = adaptive; fixed_ms = 30; min_ms = 2; max_ms = 20; growth = 3 }
