-- ===== src/CircuitBreaker.antt =====
-- libs/foundation/src/foundation/resiliant/circuit_breaker.py: `CircuitBreakerService`.
-- A method that holds the lock is one atomic action. Times are whole clock ticks.
pub mod Invariant
pub mod Transitions
pub mod Calls
pub mod Closed
pub mod Shared
use taas_server_py.Prelude.{
  ℕ, ◌+◌, ◌-◌, String, Bool, true, false, ◌&&◌, Option, none, some, ltb, leb, not, if◌then◌else◌,
}
use taas_server_py.Exec.{
  Exn, circuit_open, assertion, Result, ok, err, Action, pure, raise, gets, modify, ◌>>=◌, ◌>>◌,
  when,
}

pub data CircuitState : Type 0 where
  closed opened half_open : CircuitState

pub record Snapshot : Type 0 where
  pub name : String
  pub state : CircuitState
  pub failure_count : ℕ
  pub success_count : ℕ
  pub opened_at : Option ℕ

pub record Config : Type 0 where
  pub failure_threshold : ℕ
  pub recovery_timeout : ℕ
  pub half_open_max_calls : ℕ
  pub success_threshold : ℕ

abbrev pub default_config : Config
default_config = record {
  failure_threshold = 5;
  recovery_timeout = 30;
  half_open_max_calls = 1;
  success_threshold = 1;
}

module _ (E : Type 0) where
  -- `ICircuitBreakerRepository`, whose calls may change the surroundings and raise
  pub record Repository : Type 0 where
    pub get : String → Action E (Option Snapshot)
    pub save : Snapshot → Action E (Unit {0})

  -- what `__init__` fixes
  pub record Service : Type 0 where
    pub name : String
    pub config : Config
    pub repository : Option Repository
    pub clock : E → ℕ

  -- what the methods change, and the surroundings that handlers and the repository change
  pub record Breaker : Type 0 where
    pub snapshot : Snapshot
    pub half_open_in_flight : ℕ
    pub env : E

-- `CircuitBreakerSnapshot(name=…, state=…, opened_at=…)` with its default counts
abbrev pub fresh : String → CircuitState → Option ℕ → Snapshot
fresh name state at = record {
  name = name;
  state = state;
  failure_count = 0;
  success_count = 0;
  opened_at = at;
}

module _ {E : Type 0} where
  abbrev pub init : Service E → E → Breaker E
  init svc e = record { snapshot = fresh svc.name closed none; half_open_in_flight = 0; env = e }

  -- a call on the surroundings
  abbrev pub outside {ℓ} : {A : Type ℓ} → Action E A → Action (Breaker E) A
  outside m b = let (r, e) = m b.env in (r, record b { env = e })

  abbrev pub put_snapshot : Snapshot → Breaker E → Breaker E
  put_snapshot snap b = record b { snapshot = snap }

module _ {E : Type 0} (svc : Service E) where
  abbrev adopt : Option Snapshot → Action (Breaker E) (Unit {0})
  adopt none = pure tt
  adopt (some stored) = modify (put_snapshot stored)

  abbrev refresh_from : Option (Repository E) → Action (Breaker E) (Unit {0})
  refresh_from none = pure tt
  refresh_from (some repo) = do stored ← outside (repo.get svc.name); adopt stored

  pub refresh : Action (Breaker E) (Unit {0})
  refresh = refresh_from svc.repository

  abbrev persist_to : Option (Repository E) → Action (Breaker E) (Unit {0})
  persist_to none = pure tt
  persist_to (some repo) = λ b. outside (repo.save b.snapshot) b

  pub persist : Action (Breaker E) (Unit {0})
  persist = persist_to svc.repository

  -- `_open`
  abbrev pub trip : ℕ → Breaker E → Breaker E
  trip now b = record b { snapshot = fresh svc.name opened (some now); half_open_in_flight = 0 }

  -- the body of `if snap.state is CircuitState.OPEN`
  abbrev leave_open : Option ℕ → Action (Breaker E) (Unit {0})
  leave_open none b = (err assertion, b)
  leave_open (some at) b =
      if ltb (svc.clock b.env) (at + svc.config.recovery_timeout)
      then (err (circuit_open svc.name), b)
      else persist
          (record b { snapshot = fresh svc.name half_open (some at); half_open_in_flight = 0 })

  abbrev if_open : CircuitState → Option ℕ → Action (Breaker E) (Unit {0})
  if_open opened at = leave_open at
  if_open _ at = pure tt

  -- the body of `if self._snapshot.state is CircuitState.HALF_OPEN`
  abbrev admit_probe : CircuitState → Action (Breaker E) (Unit {0})
  admit_probe half_open b =
      if leb svc.config.half_open_max_calls b.half_open_in_flight
      then (err (circuit_open svc.name), b)
      else (ok tt, record b { half_open_in_flight = b.half_open_in_flight + 1 })
  admit_probe _ b = (ok tt, b)

  -- `_before_call` after its refresh
  enter : Action (Breaker E) (Unit {0})
  unfolding persist
  enter = do
    snap ← gets (λ b. b.snapshot)
    if_open snap.state snap.opened_at
    current ← gets (λ b. b.snapshot)
    admit_probe current.state

  pub before_call : Action (Breaker E) (Unit {0})
  before_call = refresh >> enter

  abbrev succeeded : CircuitState → Snapshot → Breaker E → Breaker E
  succeeded half_open snap b = record b {
    half_open_in_flight = b.half_open_in_flight - 1;
    snapshot =
        if leb svc.config.success_threshold (snap.success_count + 1)
        then fresh svc.name closed none
        else record snap { success_count = snap.success_count + 1 };
  }
  succeeded closed snap b =
      if ltb 0 snap.failure_count
      then record b { snapshot = record snap { failure_count = 0 } }
      else b
  succeeded opened snap b = b

  pub on_success : Action (Breaker E) (Unit {0})
  unfolding persist
  on_success = do modify (λ b. succeeded b.snapshot.state b.snapshot b); persist

  abbrev failed : CircuitState → Snapshot → Breaker E → Breaker E
  failed half_open snap b =
      trip (svc.clock b.env) (record b { half_open_in_flight = b.half_open_in_flight - 1 })
  failed _ snap b =
      if leb svc.config.failure_threshold (snap.failure_count + 1)
      then trip (svc.clock b.env) b
      else record b { snapshot = record snap { failure_count = snap.failure_count + 1 } }

  pub on_failure : Action (Breaker E) (Unit {0})
  unfolding persist
  on_failure = do modify (λ b. failed b.snapshot.state b.snapshot b); persist

  -- `try: await handler() except BaseException`: what the task's handler ended with
  abbrev pub conclude {ℓ} : {T : Type ℓ} → Result T → Action (Breaker E) T
  conclude (ok result) = on_success >> pure result
  conclude (err exn) = on_failure >> raise exn

  -- The handler acts on the whole state: during its await other calls may use the breaker.
  pub call {ℓ} : {T : Type ℓ} → Action (Breaker E) T → Action (Breaker E) T
  unfolding before_call on_success on_failure
  call handler = before_call >> λ b. let (r, b') = handler b in conclude r b'
