-- ===== src/StoredCircuits/Fleet.antt =====
-- Two workers with a breaker of the same name over one store.
use taas_server_py.Prelude.{ℕ, ◌+◌, ◌<◌, String, Option, some, ◌≡◌, refl, ap, subst, sym, ◌∙◌}
use taas_server_py.Exec.{ok, err, Action, circuit_open, Result}
use taas_server_py.CircuitBreaker.{
  Repository, Snapshot, closed, opened, Service, Breaker, before_call, on_success,
}
use taas_server_py.CircuitBreaker.Shared.{before_call_open, before_call_closed, on_success_saves}
use taas_server_py.StoredCircuits.{Store, key, decoded, get, save, repository}

-- a store that works, in a stretch of time in which no entry expires
pub record StoreLaws {E B : Type 0} (store : Store E B) : Type 0 where
  pub contents : E → String → Option B
  pub get-contents : (k : String) (e : E) → store.get k e ≡ (ok (contents e k), e)
  pub set_ok : (k : String) (b : B) (n : ℕ) (e : E) → (store.set k b n e).0 ≡ ok tt
  pub contents-set :
      (k : String) (b : B) (n : ℕ) (e : E) → contents (store.set k b n e).1 k ≡ some b

module _ {E B : Type 0} (store : Store E B) (laws : StoreLaws store) (encode : Snapshot → B)
    (decode : B → Option Snapshot) (decode-encode : (s : Snapshot) → decode (encode s) ≡ some s)
    (ttl_seconds : ℕ) where
  abbrev repo_get : String → Action E (Option Snapshot)
  repo_get = get store encode decode ttl_seconds

  abbrev repo_save : Snapshot → Action E (Unit {0})
  repo_save = save store encode decode ttl_seconds

  abbrev repo : Repository E
  repo = repository store encode decode ttl_seconds

  -- an entry of the store is read back
  get-stored :
      (name : String) (s : Snapshot) (e : E)
      → laws.contents e (key name) ≡ some (encode s)
      → repo_get name e ≡ (ok (some s), e)
  unfolding get
  get-stored name s e entry =
      ap
        (λ p. elim p.0 as (λ _. Result (Option Snapshot) × E) [
          | ok raw ↦ (ok (decoded store encode decode ttl_seconds raw), p.1)
          | err x ↦ (err x, p.1)
        ])
        (laws.get-contents (key name) e)
      ∙ rw (entry, decode-encode s) refl

  saved_entry :
      (s : Snapshot) (e : E) → laws.contents (repo_save s e).1 (key s.name) ≡ some (encode s)
  unfolding save
  saved_entry s e = laws.contents-set (key s.name) (encode s) ttl_seconds e

  get-save :
      (s : Snapshot) (e : E) → let e' = (repo_save s e).1 in repo_get s.name e' ≡ (ok (some s), e')
  get-save s e = get-stored s.name s (repo_save s e).1 (saved_entry s e)

  module _ (svc other : Service E) (same_name : other.name ≡ svc.name)
      (shared : svc.repository ≡ some repo) (other_shared : other.repository ≡ some repo) where
    -- what a worker has saved is what the other one reads
    read_back :
        (s : Snapshot) (e : E)
        → s.name ≡ svc.name
        → repo_get other.name (repo_save s e).1 ≡ (ok (some s), (repo_save s e).1)
    read_back s e named =
        subst (λ n. repo_get n (repo_save s e).1 ≡ (ok (some s), (repo_save s e).1))
          (named ∙ sym same_name) (get-save s e)

    -- The store keeps that the circuit is open, so that a call of the other worker is refused. If a call
    -- of the first worker, whose breaker is closed in its own memory, then succeeds, the next call of
    -- the other worker is admitted: the success has overwritten the trip.
    pub stale_success :
        (b c : Breaker E) (s : Snapshot) (at : ℕ)
        → b.snapshot.state ≡ closed
        → b.snapshot.name ≡ svc.name
        → c.env ≡ b.env
        → repo_get other.name b.env ≡ (ok (some s), b.env)
        → s.state ≡ opened
        → s.opened_at ≡ some at
        → other.clock b.env < at + other.config.recovery_timeout
        → ((before_call other c).0 ≡ err (circuit_open other.name))
          × ((before_call other (record c { env = (on_success svc b).1.env })).0 ≡ ok tt)
    stale_success b c s at is_closed named before stored is_open since early =
        let (kept, kept_closed, kept_name, saved) = on_success_saves svc repo shared b is_closed in
        let e' = (on_success svc b).1.env in
        (
          ap (λ p. p.0)
              (before_call_open other repo other_shared s at c
                (subst (λ e. repo_get other.name e ≡ (ok (some s), e)) (sym before) stored) is_open
                since
                (subst (λ e. other.clock e < at + other.config.recovery_timeout) (sym before)
                  early)),
          ap (λ p. p.0)
              (before_call_closed other repo other_shared kept (record c { env = e' })
                (subst (λ e. repo_get other.name e ≡ (ok (some kept), e))
                  (sym (ap (λ p. p.1.env) saved)) (read_back kept b.env (kept_name ∙ named)))
                kept_closed),
        )
