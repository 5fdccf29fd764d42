-- ===== src/Tests/Guards.antt =====
-- Bulkheads of libs/foundation, and calls through all guards, at concrete inputs.
use taas_server_py.Prelude.{ℕ, ◌+◌, ◌-◌, ◌==◌, true, none, some, ◌≡◌, refl, arith, if◌then◌else◌}
use taas_server_py.Exec.{Exn, app, timeout, operation_timeout, ok, err, Action}
use taas_server_py.CircuitBreaker.{Service, Breaker, opened, fresh, init}
use taas_server_py.CircuitBreaker.Closed.{FailureCounted}
use taas_server_py.Bulkhead.{BulkheadConfig, BulkheadService, acquire, release}
use taas_server_py.Bulkhead.Permits.{PermitLaws}
use taas_server_py.ResilientCall.{ResilientExecutor, call}
use taas_server_py.ResilientCall.Guards.{late_counts}

-- the free permits and the waiting tasks
record Room : Type 0 where
  permits : ℕ
  waiters : ℕ

abbrev one_call : BulkheadConfig
one_call = record { max_concurrent = 1; max_waiters = some 1; acquire_timeout = some 5 }

abbrev room_service : BulkheadService Room
room_service = record {
  name = "rpc";
  config = one_call;
  repository = none;
  semaphore = record {
    locked = λ w. w.permits == 0;
    acquire = λ limit w.
        if w.permits == 0 then (err timeout, w) else (ok tt, record w { permits = w.permits - 1 });
    release = λ w. record w { permits = w.permits + 1 };
  };
  waiters = λ w. w.waiters;
  set_waiters = λ n w. record w { waiters = n };
}

room-laws : PermitLaws room_service
room-laws = record {
  free = λ w. w.permits;
  acquire_ok = λ limit w w' h. ground (arith, h);
  acquire_err = λ limit w w' exn h. ground (arith, h);
  acquire-waiters = λ limit w. ground arith;
  free-release = λ w. refl;
  waiters-release = λ w. refl;
  waiters-set = λ n w. refl;
  free-set = λ n w. refl;
}

abbrev broken : Action Room ℕ
broken w = (err (app 1), w)

abbrev one_room : Room
one_room = record { permits = 1; waiters = 0 }

-- a call of a node with a breaker, a bulkhead and a deadline
abbrev node : Service Room
node = record {
  name = "rpc";
  config = record {
    failure_threshold = 2;
    recovery_timeout = 30;
    half_open_max_calls = 1;
    success_threshold = 1;
  };
  repository = none;
  clock = λ w. 10;
}

abbrev node_rooms : BulkheadService (Breaker Room)
node_rooms = record {
  name = "rpc";
  config = one_call;
  repository = none;
  semaphore = record {
    locked = λ b. b.env.permits == 0;
    acquire = λ limit b.
        if b.env.permits == 0
        then (err timeout, b)
        else (ok tt, record b { env = record b.env { permits = b.env.permits - 1 } });
    release = λ b. record b { env = record b.env { permits = b.env.permits + 1 } };
  };
  waiters = λ b. b.env.waiters;
  set_waiters = λ n b. record b { env = record b.env { waiters = n } };
}

abbrev executor : ResilientExecutor Room
executor = record {
  timeout_seconds = some 3;
  breaker = some node;
  bulkhead = some node_rooms;
  fallback_on = λ exn. true;
}

-- a dependency that never answers in time
abbrev never : ℕ → Action (Breaker Room) ℕ → Action (Breaker Room) ℕ
never limit handler b = (err timeout, b)

abbrev tip : Action (Breaker Room) ℕ
tip b = (ok 7, b)

abbrev cached : Exn → Action (Breaker Room) ℕ
cached exn b = (ok 6, b)

abbrev ready : Breaker Room
ready = init node one_room

abbrev broken_off : Breaker Room
broken_off = record ready { snapshot = fresh "rpc" opened (some 5) }

abbrev crowded : Breaker Room
crowded = record ready { env = record { permits = 0; waiters = 1 } }

late_counts_example :
    let (r, c) = call never 30 executor tip none ready in
    (r ≡ err (operation_timeout 3)) × FailureCounted node ready c
unfolding acquire release
late_counts_example =
    late_counts never 30 executor node refl refl node_rooms refl 3 refl tip ready
      (record ready { env = record { permits = 0; waiters = 0 } })
      (record ready { env = record { permits = 0; waiters = 0 } }) ready refl refl refl refl refl
