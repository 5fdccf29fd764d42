-- ===== src/Tests/Breaker.antt =====
-- The circuit breaker of libs/foundation/src/foundation/resiliant/circuit_breaker.py at concrete inputs.
use taas_server_py.Prelude.{
  ◌+◌, ℕ, none, some, Option, Bool, true, false, ◌&&◌, ltb, if◌then◌else◌, ◌≡◌, List, [], ◌∷◌, refl,
  arith,
}
use taas_server_py.Exec.{app, ok, err, Action}
use taas_server_py.CircuitBreaker.{
  Service, Breaker, default_config, init, trip, Snapshot, CircuitState, opened, closed, half_open,
}
use taas_server_py.CircuitBreaker.Invariant.{
  Event, entering, failing, succeeding, elsewhere, IsValid, IsSound, HasOpeningTime, replay,
  replay-IsValid,
}
use taas_server_py.CircuitBreaker.Transitions.{Transition, after-Transition}
use taas_server_py.CircuitBreaker.Invariant.{after}

abbrev service : Service ℕ
service = record {
  name = "rpc";
  config = record default_config { failure_threshold = 2 };
  repository = none;
  clock = λ now. now;
}

abbrev tripped : Breaker ℕ
tripped = trip service 100 (init service 110)

abbrev due : Breaker ℕ
due = trip service 100 (init service 200)

abbrev broken : Action ℕ ℕ
broken now = (err (app 7), now + 1)

abbrev working : Action ℕ ℕ
working now = (ok 5, now + 1)

abbrev trace : List (Event ℕ)
trace =
    entering
    ∷ entering
    ∷ failing
    ∷ failing
    ∷ elsewhere (λ now. now + 100)
    ∷ entering
    ∷ succeeding
    ∷ []

-- the world of a worker that shares its snapshots: the time, and what is stored
record World : Type 0 where
  now : ℕ
  stored : Option Snapshot

abbrev is_timed : CircuitState → Option ℕ → Bool
is_timed opened none = false
is_timed _ _ = true

abbrev is_sound : Snapshot → Bool
is_sound snap =
    ltb snap.failure_count 2 && (ltb snap.success_count 1 && is_timed snap.state snap.opened_at)

-- what is read of a stored text: a snapshot that this policy cannot have saved is none
abbrev read : Option Snapshot → Option Snapshot
read none = none
read (some snap) = if is_sound snap then some snap else none

abbrev shared : Service World
shared = record {
  name = "rpc";
  config = record default_config { failure_threshold = 2 };
  repository = some (record {
    get = λ name w. (ok (read w.stored), w);
    save = λ snap w. (ok tt, record w { stored = some snap });
  });
  clock = λ w. w.now;
}

is_timed-HasOpeningTime :
    (state : CircuitState) (at : Option ℕ) → is_timed state at ≡ true → HasOpeningTime state at
is_timed-HasOpeningTime opened none h = absurd cc
is_timed-HasOpeningTime opened (some at) h = tt
is_timed-HasOpeningTime closed at h = tt
is_timed-HasOpeningTime half_open at h = tt

read-IsSound :
    (stored : Option Snapshot) (snap : Snapshot)
    → ok (read stored) ≡ ok (some snap)
    → IsSound shared.config snap
read-IsSound none snap h = absurd cc
read-IsSound (some kept) snap h =
    ground (arith, h, is_timed-HasOpeningTime kept.state kept.opened_at)

abbrev shared_trace : List (Event World)
shared_trace =
    entering
    ∷ failing
    ∷ failing
    ∷ elsewhere (λ w. record w { now = w.now + 100 })
    ∷ entering
    ∷ succeeding
    ∷ []

abbrev start : World
start = record { now = 0; stored = none }

replay-IsValid_example : IsValid shared.config (replay shared shared_trace (init shared start))
replay-IsValid_example =
    replay-IsValid shared shared_trace start (omega arith) (λ name w. read-IsSound w.stored)

after-Transition_example : Transition service due (after service entering due)
after-Transition_example = after-Transition service refl due entering
