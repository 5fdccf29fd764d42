-- ===== src/Bulkhead/Permits.antt =====
-- A call gives back what it took.
use taas_server_py.Prelude.{
  ℕ, ◌+◌, ◌-◌, Option, none, ◌≡◌, refl, sym, ap, ◌∙◌, arith, Bool-cases, inl, inr,
}
use taas_server_py.Exec.{Exn, Result, ok, err, Action}
use taas_server_py.Bulkhead.{BulkheadService, acquire, release, execute, is_full, waited, held}

-- what `asyncio.Semaphore` documents of its free permits, where the permits that other tasks take
-- and give back are not counted, and where the waiters stand
pub record PermitLaws {W : Type 0} (svc : BulkheadService W) : Type 0 where
  pub free : W → ℕ
  pub acquire_ok :
      (limit : Option ℕ) (w w' : W)
      → svc.semaphore.acquire limit w ≡ (ok tt, w')
      → free w' + 1 ≡ free w
  pub acquire_err :
      (limit : Option ℕ) (w w' : W) (exn : Exn)
      → svc.semaphore.acquire limit w ≡ (err exn, w')
      → free w' ≡ free w
  pub acquire-waiters :
      (limit : Option ℕ) (w : W) → svc.waiters (svc.semaphore.acquire limit w).1 ≡ svc.waiters w
  pub free-release : (w : W) → free (svc.semaphore.release w) ≡ free w + 1
  pub waiters-release : (w : W) → svc.waiters (svc.semaphore.release w) ≡ svc.waiters w
  pub waiters-set : (n : ℕ) (w : W) → svc.waiters (svc.set_waiters n w) ≡ n
  pub free-set : (n : ℕ) (w : W) → free (svc.set_waiters n w) ≡ free w

module _ {W : Type 0} (svc : BulkheadService W) (laws : PermitLaws svc)
    (local : svc.repository ≡ none) where
  -- as many free permits and waiters as before
  pub record Same (w w' : W) : Type 0 where
    pub same_free : laws.free w' ≡ laws.free w
    pub same_waiters : svc.waiters w' ≡ svc.waiters w

  -- a permit was taken, or it was not
  Taken : W → Result (Unit {0}) × W → Type 0
  Taken w (ok _, w') = (laws.free w' + 1 ≡ laws.free w) × (svc.waiters w' ≡ svc.waiters w)
  Taken w (err exn, w') = Same w w'

  counted :
      (w w' : W) (res : Result (Unit {0}))
      → svc.semaphore.acquire svc.config.acquire_timeout (svc.set_waiters (svc.waiters w + 1) w)
        ≡ (res, w')
      → svc.waiters w' ≡ svc.waiters w + 1
  counted w w' res e =
      sym (ap (λ p. svc.waiters p.1) e)
      ∙ laws.acquire-waiters svc.config.acquire_timeout (svc.set_waiters (svc.waiters w + 1) w)
      ∙ laws.waiters-set (svc.waiters w + 1) w

  waited-Taken :
      (w : W) (out : Result (Unit {0}) × W)
      → svc.semaphore.acquire svc.config.acquire_timeout (svc.set_waiters (svc.waiters w + 1) w)
        ≡ out
      → Taken w (waited svc out)
  unfolding Taken
  waited-Taken w (ok tt, w') e =
      rw (laws.free-set (svc.waiters w' - 1) w', laws.waiters-set (svc.waiters w' - 1) w')
        (
          laws.acquire_ok svc.config.acquire_timeout _ w' e ∙ laws.free-set (svc.waiters w + 1) w,
          omega (arith, counted w w' (ok tt) e),
        )
  waited-Taken w (err exn, w') e = record {
    same_free =
        laws.free-set (svc.waiters w' - 1) w'
        ∙ laws.acquire_err svc.config.acquire_timeout _ w' exn e
        ∙ laws.free-set (svc.waiters w + 1) w;
    same_waiters =
        laws.waiters-set (svc.waiters w' - 1) w' ∙ omega (arith, counted w w' (err exn) e);
  }

  acquire-Taken : (w : W) → Taken w (acquire svc w)
  unfolding acquire Taken
  acquire-Taken w =
      rw local
        (elim (Bool-cases
          (is_full svc.config.max_waiters (svc.waiters w) (svc.semaphore.locked w))) [
            | inl full ↦ rw full (record { same_free = refl; same_waiters = refl })
            | inr room ↦ rw room (waited-Taken w _ refl)
          ])

  release-free : (w : W) → (release svc w ≡ (ok tt, svc.semaphore.release w))
  unfolding release
  release-free w = rw local refl

  held-Same :
      {T : Type 0} (handler : Action W T) (w : W) (out : Result (Unit {0}) × W)
      → ((w' : W) → Same w' (handler w').1)
      → Taken w out
      → Same w (held svc handler out).1
  unfolding Taken
  held-Same handler w (ok tt, w') keeps (free, same) = rw (release-free (handler w').1) (record {
    same_free = omega (arith, laws.free-release (handler w').1, (keeps w').same_free, free);
    same_waiters = laws.waiters-release (handler w').1 ∙ (keeps w').same_waiters ∙ same;
  })
  held-Same handler w (err exn, w') keeps same = same

  -- Without a distributed quota a call leaves as many permits free, and as many tasks waiting, as it
  -- found, apart from those of other tasks: whether it is refused, runs out of its time, or its
  -- handler returns or raises. The handler itself leaves them alone.
  pub execute-Same :
      {T : Type 0} (handler : Action W T) (w : W)
      → ((w' : W) → Same w' (handler w').1)
      → Same w (execute svc handler w).1
  unfolding execute
  execute-Same handler w keeps = held-Same handler w (acquire svc w) keeps (acquire-Taken w)
