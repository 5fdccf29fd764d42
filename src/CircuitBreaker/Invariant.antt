-- ===== src/CircuitBreaker/Invariant.antt =====
-- The invariant of a breaker, kept by each atomic method whatever other tasks did in between.
use taas_server_py.Prelude.{
  ℕ, String, ◌≤◌, ◌<◌, Option, none, some, List, [], ◌∷◌, ◌≡◌, refl, arith,
}
use taas_server_py.Exec.{Result, ok, err, Action, ◌>>=◌, ◌>>◌}
use taas_server_py.CircuitBreaker.{
  CircuitState, opened, Snapshot, Config, Repository, Service, Breaker, refresh, refresh_from,
  adopt, enter, persist, before_call, on_success, on_failure, conclude, call, init,
}

abbrev pub HasOpeningTime : CircuitState → Option ℕ → Type 0
HasOpeningTime opened none = ⊥
HasOpeningTime _ _ = Unit

pub record IsSound (cfg : Config) (snap : Snapshot) : Type 0 where
  pub failures : snap.failure_count < cfg.failure_threshold
  pub successes : snap.success_count < cfg.success_threshold
  pub since : HasOpeningTime snap.state snap.opened_at

pub record IsValid {E : Type 0} (cfg : Config) (b : Breaker E) : Type 0 where
  pub sound : IsSound cfg b.snapshot
  pub probes : b.half_open_in_flight ≤ cfg.half_open_max_calls

-- Thresholds of at least one, as in the default policy.
pub record IsSensible (cfg : Config) : Type 0 where
  pub some_failures : 0 < cfg.failure_threshold
  pub some_successes : 0 < cfg.success_threshold

-- A shared repository hands out only sound snapshots.
abbrev pub Trusted : {E : Type 0} → Config → Option (Repository E) → Type 0
Trusted cfg none = Unit
Trusted {E} cfg (some repo) =
    (name : String) (e : E) (snap : Snapshot)
    → (repo.get name e).0 ≡ ok (some snap)
    → IsSound cfg snap

module _ {E : Type 0} (svc : Service E) where
  persist-IsValid : (b : Breaker E) → IsValid svc.config b → IsValid svc.config (persist svc b).1
  unfolding persist
  persist-IsValid b v = ground arith

  refresh_from-IsValid :
      (found : Option (Repository E)) (b : Breaker E)
      → Trusted svc.config found
      → IsValid svc.config b
      → IsValid svc.config (refresh_from svc found b).1
  refresh_from-IsValid none b trust v = v
  refresh_from-IsValid (some repo) b trust v =
      adopted (repo.get svc.name b.env).0 (trust svc.name b.env)
    where
      adopted :
          (r : Result (Option Snapshot))
          → ((snap : Snapshot) → r ≡ ok (some snap) → IsSound svc.config snap)
          → IsValid svc.config
              (◌>>=◌
                (λ (c : Breaker E). (r, record c { env = (repo.get svc.name c.env).1 }))
                (adopt svc)
                b).1
      adopted (ok none) sound = ground arith
      adopted (ok (some snap)) sound = ground (arith, sound snap refl)
      adopted (err x) sound = ground arith

  refresh-IsValid :
      (b : Breaker E)
      → Trusted svc.config svc.repository
      → IsValid svc.config b
      → IsValid svc.config (refresh svc b).1
  unfolding refresh
  refresh-IsValid b = refresh_from-IsValid svc.repository b

  -- What follows the refresh.
  enter-IsValid :
      (b : Breaker E)
      → IsSensible svc.config
      → IsValid svc.config b
      → IsValid svc.config (enter svc b).1
  unfolding enter
  enter-IsValid b sensible v = ground arith

  pub before_call-IsValid :
      (b : Breaker E)
      → IsSensible svc.config
      → Trusted svc.config svc.repository
      → IsValid svc.config b
      → IsValid svc.config (before_call svc b).1
  unfolding before_call
  before_call-IsValid b sensible trust v =
      ground (arith, refresh-IsValid b trust v, enter-IsValid (refresh svc b).1 sensible)

  pub on_success-IsValid :
      (b : Breaker E)
      → IsSensible svc.config
      → IsValid svc.config b
      → IsValid svc.config (on_success svc b).1
  unfolding on_success
  on_success-IsValid b sensible v = ground arith

  pub on_failure-IsValid :
      (b : Breaker E)
      → IsSensible svc.config
      → IsValid svc.config b
      → IsValid svc.config (on_failure svc b).1
  unfolding on_failure
  on_failure-IsValid b sensible v = ground arith

  -- Whatever the other tasks do while the handler waits, a call keeps the invariant, if they do.
  pub call-IsValid :
      (T : Type 0) (handler : Action (Breaker E) T) (b : Breaker E)
      → IsSensible svc.config
      → Trusted svc.config svc.repository
      → ((c : Breaker E) → IsValid svc.config c → IsValid svc.config (handler c).1)
      → IsValid svc.config b
      → IsValid svc.config (call svc handler b).1
  unfolding call
  call-IsValid T handler b sensible trust keeps v =
      ended (before_call svc b) (before_call-IsValid b sensible trust v)
    where
      concluded :
          (r : Result T) (c : Breaker E)
          → IsValid svc.config c
          → IsValid svc.config (conclude svc r c).1
      concluded (ok a) c w = ground (arith, on_success-IsValid c sensible w)
      concluded (err x) c w = ground (arith, on_failure-IsValid c sensible w)

      ended :
          (entered : Result (Unit {0}) × Breaker E)
          → IsValid svc.config entered.1
          → IsValid svc.config
              (◌>>◌ (λ _. entered) (λ c. let (r, d) = handler c in conclude svc r d) b).1
      ended (ok _, c) w = concluded (handler c).0 (handler c).1 (keeps c w)
      ended (err x, c) w = w

-- The atomic steps of any number of tasks: entering a call, ending one, or a change elsewhere.
pub data Event (E : Type 0) : Type 0 where
  entering succeeding failing : Event E
  elsewhere : (E → E) → Event E

module _ {E : Type 0} (svc : Service E) where
  abbrev pub after : Event E → Breaker E → Breaker E
  after entering b = (before_call svc b).1
  after succeeding b = (on_success svc b).1
  after failing b = (on_failure svc b).1
  after (elsewhere f) b = record b { env = f b.env }

  pub replay : List (Event E) → Breaker E → Breaker E
  replay [] b = b
  replay (event ∷ events) b = replay events (after event b)

  replay_keeps :
      (events : List (Event E)) (b : Breaker E)
      → IsSensible svc.config
      → Trusted svc.config svc.repository
      → IsValid svc.config b
      → IsValid svc.config (replay events b)
  unfolding replay
  replay_keeps [] b sensible trust v = v
  replay_keeps (entering ∷ events) b sensible trust v =
      replay_keeps events _ sensible trust (before_call-IsValid svc b sensible trust v)
  replay_keeps (succeeding ∷ events) b sensible trust v =
      replay_keeps events _ sensible trust (on_success-IsValid svc b sensible v)
  replay_keeps (failing ∷ events) b sensible trust v =
      replay_keeps events _ sensible trust (on_failure-IsValid svc b sensible v)
  replay_keeps (elsewhere f ∷ events) b sensible trust v =
      replay_keeps events _ sensible trust (record { sound = v.sound; probes = v.probes })

  -- From a new breaker, after any interleaving of the steps of concurrent calls, the field
  -- `half_open_in_flight` is within its bound, an open breaker knows when it opened, and both counts
  -- are below their thresholds. The thresholds are at least one, and a shared repository hands out
  -- only snapshots of that kind. This bounds the field and not the probes that still run: a trip
  -- resets the field, and a call admitted by a closed breaker may lower it.
  pub replay-IsValid :
      (events : List (Event E)) (e : E)
      → IsSensible svc.config
      → Trusted svc.config svc.repository
      → IsValid svc.config (replay events (init svc e))
  replay-IsValid events e sensible trust =
      replay_keeps events (init svc e) sensible trust (ground arith)
