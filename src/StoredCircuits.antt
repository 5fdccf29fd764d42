-- ===== src/StoredCircuits.antt =====
-- libs/store_redis/src/store_redis/circuit_breaker_repository.py: `RedisCircuitBreakerRepository`.
-- The store and the JSON codec are parameters; a text that is no snapshot decodes to `none`.
pub mod Fleet
use Prim.Native.String.{◌++◌ as ◌<>◌}
use taas_server_py.Prelude.{ℕ, String, Option, none, some}
use taas_server_py.Exec.{Action, ◌>>=◌, pure}
use taas_server_py.CircuitBreaker.{Snapshot, Repository}

-- what is used of `RedisStore`
pub record Store (E B : Type 0) : Type 0 where
  pub get : String → Action E (Option B)
  pub set : String → B → ℕ → Action E (Unit {0})

-- `_key`
abbrev pub key : String → String
key name = "snapshot:" <> name

module _ {E B : Type 0} (store : Store E B) (encode : Snapshot → B) (decode : B → Option Snapshot)
    (ttl_seconds : ℕ) where
  abbrev decoded : Option B → Option Snapshot
  decoded none = none
  decoded (some raw) = decode raw

  unfoldable pub get : String → Action E (Option Snapshot)
  get name = do raw ← store.get (key name); pure (decoded raw)

  pub save : Snapshot → Action E (Unit {0})
  save snapshot = store.set (key snapshot.name) (encode snapshot) ttl_seconds

  abbrev pub repository : Repository E
  repository = record { get = get; save = save }
