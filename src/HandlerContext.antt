-- ===== src/HandlerContext.antt =====
-- libs/foundation/src/foundation/messaging/events/handler_context.py: the cache that handlers of one
-- event share. A call of `get_or_fetch` awaits a lock and then the fetch; what it does between two
-- awaits is one step. The global lock is never contended, since no task awaits while it holds it.
pub mod Locks
pub mod Serial
pub mod Counts
pub mod Settled
pub mod Once
use taas_server_py.Prelude.{
  ℕ, ◌+◌, ◌-◌, String, Bool, true, false, Option, none, some, List, [], ◌∷◌, ◌++◌, Dict, lookup,
  insert, remove, get_elem?, modify_at, ltb, if◌then◌else◌, ◌≡◌,
}

module _ (A : Type 0) where
  pub record CachedValue : Type 0 where
    pub value : A
    pub cached_at : ℕ
    pub ttl : Option ℕ

  -- `HandlerContextMetrics`
  pub record Metrics : Type 0 where
    pub cache_hits : ℕ
    pub cache_misses : ℕ
    pub db_queries_saved : ℕ
    pub concurrent_fetches_prevented : ℕ

  -- a lock is kept with the call that holds it
  pub record HandlerContext : Type 0 where
    pub cache : Dict CachedValue
    pub locks : Dict (Option ℕ)
    pub default_ttl : Option ℕ
    pub metrics : Metrics

  -- how far a call of `get_or_fetch` has come: it was served from the cache, or its own fetch ended
  pub data Phase : Type 0 where
    waiting fetching failed : Phase
    served fetched : A → Phase

  pub record Call : Type 0 where
    pub key : String
    pub ttl : Option ℕ
    pub phase : Phase

  -- the context, the clock and the calls in the order of their arrival
  pub record System : Type 0 where
    pub context : HandlerContext
    pub now : ℕ
    pub calls : List Call

abbrev older_than : Option ℕ → ℕ → Bool
older_than none age = false
older_than (some ttl) age = ltb ttl age

abbrev pub effective_ttl : Option ℕ → Option ℕ → Option ℕ
effective_ttl none default_ttl = default_ttl
effective_ttl (some ttl) default_ttl = some ttl

module _ {A : Type 0} where
  -- `CachedValue.is_expired`
  abbrev pub is_expired : ℕ → CachedValue A → Bool
  is_expired now cached = older_than cached.ttl (now - cached.cached_at)

  abbrev unexpired : ℕ → Option (CachedValue A) → Option A
  unexpired now none = none
  unexpired now (some cached) = if is_expired now cached then none else some cached.value

  -- `get`, where the default is `None`
  unfoldable pub get : ℕ → String → HandlerContext A → Option A
  get now key c = unexpired now (lookup key c.cache)

  unfoldable pub set : ℕ → String → A → Option ℕ → HandlerContext A → HandlerContext A
  set now key value ttl c = record c {
    cache =
        insert key
          (record { value = value; cached_at = now; ttl = effective_ttl ttl c.default_ttl })
          c.cache;
  }

  pub invalidate : String → HandlerContext A → HandlerContext A
  invalidate key c = record c { cache = remove key c.cache }

  pub clear : HandlerContext A → HandlerContext A
  clear c = record c { cache = [] }

  -- `HandlerContext(default_ttl)`
  abbrev pub make_context : Option ℕ → HandlerContext A
  make_context default_ttl = record {
    cache = [];
    locks = [];
    default_ttl = default_ttl;
    metrics = record {
      cache_hits = 0;
      cache_misses = 0;
      db_queries_saved = 0;
      concurrent_fetches_prevented = 0;
    };
  }

  abbrev count_hit : ℕ → HandlerContext A → HandlerContext A
  count_hit prevented c = record c {
    metrics = record c.metrics {
      cache_hits = c.metrics.cache_hits + 1;
      db_queries_saved = c.metrics.db_queries_saved + 1;
      concurrent_fetches_prevented = c.metrics.concurrent_fetches_prevented + prevented;
    };
  }

  abbrev count_miss : HandlerContext A → HandlerContext A
  count_miss c = record c {
    metrics = record c.metrics { cache_misses = c.metrics.cache_misses + 1 };
  }

  -- `if key not in self._locks`
  abbrev new_lock : Option (Option ℕ) → String → HandlerContext A → HandlerContext A
  new_lock none key c = record c { locks = insert key none c.locks }
  new_lock (some lock) key c = c

  abbrev pub hold : String → Option ℕ → HandlerContext A → HandlerContext A
  hold key holder c = record c { locks = insert key holder c.locks }

  abbrev entered : Option A → String → HandlerContext A → Phase A × HandlerContext A
  entered (some value) key c = (served value, count_hit 0 c)
  entered none key c = (waiting, new_lock (lookup key c.locks) key c)

  -- `get_or_fetch` up to its wait for the lock of the key
  unfoldable pub enter : ℕ → String → HandlerContext A → Phase A × HandlerContext A
  enter now key c = entered (get now key c) key c

  abbrev locked : Option A → ℕ → String → HandlerContext A → Phase A × HandlerContext A
  locked (some value) i key c = (served value, count_hit 1 (hold key none c))
  locked none i key c = (fetching, count_miss (hold key (some i) c))

  -- call `i` gets the lock and looks into the cache again: it lets go of the lock, or fetches
  unfoldable pub double_check : ℕ → ℕ → String → HandlerContext A → Phase A × HandlerContext A
  double_check now i key c = locked (get now key c) i key c

  -- the fetch gives a value, which is kept, and the lock is free
  unfoldable pub finish_fetch : ℕ → String → Option ℕ → A → HandlerContext A → HandlerContext A
  unfolding set
  finish_fetch now key ttl value c = hold key none (set now key value ttl c)

  abbrev to_phase : Phase A → Call A → Call A
  to_phase phase call = record call { phase = phase }

  -- the calls of `get_or_fetch` as steps of the system
  abbrev pub arrive : String → Option ℕ → System A → System A
  arrive key ttl s =
      let (phase, c) = enter s.now key s.context in
      record s {
        context = c;
        calls = s.calls ++ (record { key = key; ttl = ttl; phase = phase }) ∷ [];
      }

  abbrev pub proceed : ℕ → Call A → System A → System A
  proceed i call s =
      let (phase, c) = double_check s.now i call.key s.context in
      record s { context = c; calls = modify_at i (to_phase phase) s.calls }

  abbrev pub succeed : ℕ → Call A → A → System A → System A
  succeed i call value s = record s {
    context = finish_fetch s.now call.key call.ttl value s.context;
    calls = modify_at i (to_phase (fetched value)) s.calls;
  }

  -- the fetch raises, and the lock is free
  abbrev pub give_up : ℕ → Call A → System A → System A
  give_up i call s = record s {
    context = hold call.key none s.context;
    calls = modify_at i (to_phase failed) s.calls;
  }

  -- no call holds the lock
  abbrev pub IsFree : String → HandlerContext A → Type 0
  IsFree key c = lookup key c.locks ≡ some none

  -- a step of a call that has arrived, or of the clock
  pub data CallStep : System A → System A → Type 0 where
    proceeds :
        {s : System A} (i : ℕ) (call : Call A)
        → get_elem? s.calls i ≡ some call
        → call.phase ≡ waiting
        → IsFree call.key s.context
        → CallStep s (proceed i call s)
    succeeds :
        {s : System A} (i : ℕ) (call : Call A) (value : A)
        → get_elem? s.calls i ≡ some call
        → call.phase ≡ fetching
        → CallStep s (succeed i call value s)
    gives_up :
        {s : System A} (i : ℕ) (call : Call A)
        → get_elem? s.calls i ≡ some call
        → call.phase ≡ fetching
        → CallStep s (give_up i call s)
    ticks : {s : System A} → CallStep s (record s { now = s.now + 1 })

  -- a step of a call, a new one, or a write by a handler
  pub data Step : System A → System A → Type 0 where
    calls : {s s' : System A} → CallStep s s' → Step s s'
    arrives : {s : System A} (key : String) (ttl : Option ℕ) → Step s (arrive key ttl s)
    sets :
        {s : System A} (key : String) (value : A) (ttl : Option ℕ)
        → Step s (record s { context = set s.now key value ttl s.context })
    invalidates :
        {s : System A} (key : String) → Step s (record s { context = invalidate key s.context })
    clears : {s : System A} → Step s (record s { context = clear s.context })

  abbrev pub start : Option ℕ → ℕ → System A
  start default_ttl now = record { context = make_context default_ttl; now = now; calls = [] }

  pub data Reachable (default_ttl : Option ℕ) (now : ℕ) : System A → Type 0 where
    begun : Reachable default_ttl now (start default_ttl now)
    next :
        {s s' : System A} → Reachable default_ttl now s → Step s s' → Reachable default_ttl now s'

  -- no writes by handlers, and no call with a time to live of its own
  pub data Undisturbed (now : ℕ) : System A → Type 0 where
    begun : Undisturbed now (start none now)
    arrived :
        {s : System A} → Undisturbed now s → (key : String) → Undisturbed now (arrive key none s)
    next : {s s' : System A} → Undisturbed now s → CallStep s s' → Undisturbed now s'
