-- ===== src/Bulkhead.antt =====
-- libs/foundation/src/foundation/resiliant/bulkhead.py: `BulkheadService`. `asyncio.Semaphore` and a
-- distributed quota are parameters. What is awaited acts on the whole world, other tasks included.
pub mod Permits
pub mod Calls
use taas_server_py.Prelude.{
  ℕ, ◌+◌, ◌-◌, String, Bool, true, false, ◌&&◌, not, Option, none, some, leb, if◌then◌else◌,
}
use taas_server_py.Exec.{timeout, Exn, bulkhead_full, Result, ok, err, Action}
use taas_server_py.Fallback.{is_timeout}

pub record BulkheadConfig : Type 0 where
  pub max_concurrent : ℕ
  pub max_waiters : Option ℕ
  pub acquire_timeout : Option ℕ

-- `asyncio.Semaphore`: whether it is locked, an acquisition with its deadline, and a release
pub record Semaphore (W : Type 0) : Type 0 where
  pub locked : W → Bool
  pub acquire : Option ℕ → Action W (Unit {0})
  pub release : W → W

-- `IBulkheadRepository`
pub record BulkheadRepository (W : Type 0) : Type 0 where
  pub acquire : String → Option ℕ → Action W Bool
  pub release : String → Action W (Unit {0})

-- `BulkheadService`, and where the world has its `_waiters`
pub record BulkheadService (W : Type 0) : Type 0 where
  pub name : String
  pub config : BulkheadConfig
  pub repository : Option (BulkheadRepository W)
  pub semaphore : Semaphore W
  pub waiters : W → ℕ
  pub set_waiters : ℕ → W → W

-- `max_waiters is not None and waiters >= max_waiters and locked`
abbrev pub is_full : Option ℕ → ℕ → Bool → Bool
is_full none waiters locked = false
is_full (some n) waiters locked = leb n waiters && locked

module _ {W : Type 0} (svc : BulkheadService W) where
  abbrev granted : Result Bool × W → Result (Unit {0}) × W
  granted (ok true, w) = (ok tt, w)
  granted (ok false, w) = (err (bulkhead_full svc.name), w)
  granted (err exn, w) = (err exn, w)

  -- `except TimeoutError`, where there is a deadline
  abbrev translated : Option ℕ → Exn → Exn
  translated none exn = exn
  translated (some limit) exn = if is_timeout exn then bulkhead_full svc.name else exn

  -- the end of the wait, with its `finally` block
  abbrev waited : Result (Unit {0}) × W → Result (Unit {0}) × W
  waited (res, w) =
      let w' = svc.set_waiters (svc.waiters w - 1) w in
      elim res [
        | ok _ ↦ (ok tt, w')
        | err exn ↦ (err (translated svc.config.acquire_timeout exn), w')
      ]

  -- `_acquire`, by whether there is a repository
  abbrev acquire_from : Option (BulkheadRepository W) → Action W (Unit {0})
  acquire_from (some repo) w = granted (repo.acquire svc.name svc.config.acquire_timeout w)
  acquire_from none w =
      if is_full svc.config.max_waiters (svc.waiters w) (svc.semaphore.locked w)
      then (err (bulkhead_full svc.name), w)
      else waited
          (svc.semaphore.acquire svc.config.acquire_timeout (svc.set_waiters (svc.waiters w + 1) w))

  unfoldable pub acquire : Action W (Unit {0})
  acquire = acquire_from svc.repository

  -- `_release`
  abbrev release_to : Option (BulkheadRepository W) → Action W (Unit {0})
  release_to (some repo) w = repo.release svc.name w
  release_to none w = (ok tt, svc.semaphore.release w)

  unfoldable pub release : Action W (Unit {0})
  release = release_to svc.repository

  -- a `finally` whose own exception takes the place of the outcome
  abbrev released {ℓ} : {T : Type ℓ} → Result T → Result (Unit {0}) × W → Result T × W
  released res (ok _, w) = (res, w)
  released res (err exn, w) = (err exn, w)

  abbrev held {ℓ} : {T : Type ℓ} → Action W T → Result (Unit {0}) × W → Result T × W
  held handler (ok _, w) = let (res, w') = handler w in released res (release w')
  held handler (err exn, w) = (err exn, w)

  pub execute {ℓ} : {T : Type ℓ} → Action W T → Action W T
  unfolding acquire release
  execute handler w = held handler (acquire w)
