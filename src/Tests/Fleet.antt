-- ===== src/Tests/Fleet.antt =====
-- Two workers whose breakers share a store of snapshots, at concrete inputs.
use taas_server_py.Prelude.{ℕ, String, Option, none, some, ◌≡◌, refl, arith, str_eq, if◌then◌else◌}
use text.Mathlib.TextPositions.{eq_refl}
use taas_server_py.Exec.{ok, err, Action, circuit_open}
use taas_server_py.CircuitBreaker.{
  Snapshot, opened, Service, Breaker, default_config, init, fresh, before_call, on_failure,
  on_success,
}
use taas_server_py.StoredCircuits.{Store, get, repository}
use taas_server_py.StoredCircuits.Fleet.{StoreLaws, stale_success}

-- what is stored, and the time
abbrev World : Type 0
World = (String → Option Snapshot) × ℕ

abbrev store : Store World Snapshot
store = record {
  get = λ k e. (ok (e.0 k), e);
  set = λ k s n e. (ok tt, ((λ j. if str_eq k j then some s else e.0 j), e.1));
}

store-laws : StoreLaws store
store-laws = record {
  contents = λ e. e.0;
  get-contents = λ k e. refl;
  set_ok = λ k s n e. refl;
  contents-set = λ k s n e. rw (eq_refl k) refl;
}

abbrev worker : Service World
worker = record {
  name = "rpc";
  config = record default_config { failure_threshold = 1 };
  repository = some (repository store (λ s. s) some 3600);
  clock = λ e. e.1;
}

abbrev first : Breaker World
first = init worker ((λ k. none), 100)

-- ten ticks later
abbrev second : Breaker World
second = init worker ((on_failure worker first).1.env.0, 110)

abbrev working : Action (Breaker World) ℕ
working b = (ok 5, b)

-- the circuit was opened at 90
abbrev open_snapshot : Snapshot
open_snapshot = fresh "rpc" opened (some 90)

abbrev stale : Breaker World
stale = init worker ((λ k. some open_snapshot), 100)

stale_success_example :
    ((before_call worker stale).0 ≡ err (circuit_open "rpc"))
    × ((before_call worker (record stale { env = (on_success worker stale).1.env })).0 ≡ ok tt)
unfolding get
stale_success_example =
    stale_success store store-laws (λ s. s) some (λ s. refl) 3600 worker worker refl refl refl stale
      stale open_snapshot 90 refl refl refl refl refl refl (omega arith)
