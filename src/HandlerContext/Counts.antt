-- ===== src/HandlerContext/Counts.antt =====
-- What the metrics of a context count.
use taas_server_py.Prelude.{
  ℕ, ◌≤◌, String, Bool, true, false, Option, none, some, List, [], ◌∷◌, lookup, count, count-append,
  count-modify_at, get_elem?, ◌≡◌, refl, arith, Option-cases, inl, inr, modify_at,
}
use taas_server_py.HandlerContext.{
  Phase, waiting, fetching, failed, served, fetched, Call, System, HandlerContext, Metrics, enter,
  double_check, finish_fetch, set, invalidate, clear, get, to_phase, arrive, CallStep, Step, calls,
  arrives, proceeds, succeeds, gives_up, ticks, sets, invalidates, clears, Reachable, begun, next,
  new_lock, proceed,
}

module _ {A : Type 0} where
  abbrev is_served : Call A → Bool
  is_served c = elim c.phase [ served _ ↦ true | _ ↦ false ]

  -- its own fetch has begun
  abbrev is_miss : Call A → Bool
  is_miss c = elim c.phase [ fetching ↦ true | failed ↦ true | fetched _ ↦ true | _ ↦ false ]

  pub record Counted (m : Metrics A) (cs : List (Call A)) : Type 0 where
    pub hits : m.cache_hits ≡ count is_served cs
    pub misses : m.cache_misses ≡ count is_miss cs
    pub saved : m.db_queries_saved ≡ m.cache_hits
    pub prevented : m.concurrent_fetches_prevented ≤ m.cache_hits

  abbrev IsCounted : System A → Type 0
  IsCounted s = Counted s.context.metrics s.calls

  new_lock-metrics :
      (lock : Option (Option ℕ)) (key : String) (c : HandlerContext A)
      → (new_lock lock key c).metrics ≡ c.metrics
  new_lock-metrics none key c = refl
  new_lock-metrics (some l) key c = refl

  arrive-IsCounted :
      (key : String) (ttl : Option ℕ) (s : System A) → IsCounted s → IsCounted (arrive key ttl s)
  unfolding enter
  arrive-IsCounted key ttl s k =
      let new : Phase A → Call A = λ p. record { key = key; ttl = ttl; phase = p } in
      elim (Option-cases (get s.now key s.context)) [
        | inr (v, hit) ↦ rw hit (record {
          hits = omega (arith, k.hits, count-append is_served s.calls (new (served v) ∷ []));
          misses = omega (arith, k.misses, count-append is_miss s.calls (new (served v) ∷ []));
          saved = omega (arith, k.saved);
          prevented = omega (arith, k.prevented);
        })
        | inl miss ↦
            rw (miss, new_lock-metrics (lookup key s.context.locks) key s.context)
              (record {
                hits = omega (arith, k.hits, count-append is_served s.calls (new waiting ∷ []));
                misses = omega (arith, k.misses, count-append is_miss s.calls (new waiting ∷ []));
                saved = k.saved;
                prevented = k.prevented;
              })
      ]

  proceed-IsCounted :
      (i : ℕ) (c : Call A) (s : System A)
      → get_elem? s.calls i ≡ some c
      → c.phase ≡ waiting
      → IsCounted s
      → IsCounted (proceed i c s)
  unfolding double_check
  proceed-IsCounted i c s at waits k = elim (Option-cases (get s.now c.key s.context)) [
    | inr (v, hit) ↦ rw hit (record {
      hits =
          ground
            (arith, k.hits, waits, count-modify_at is_served i (to_phase (served v)) c s.calls at);
      misses =
          ground
            (arith, k.misses, waits, count-modify_at is_miss i (to_phase (served v)) c s.calls at);
      saved = omega (arith, k.saved);
      prevented = omega (arith, k.prevented);
    })
    | inl miss ↦ rw miss (record {
      hits =
          ground
            (arith, k.hits, waits, count-modify_at is_served i (to_phase fetching) c s.calls at);
      misses =
          ground
            (arith, k.misses, waits, count-modify_at is_miss i (to_phase fetching) c s.calls at);
      saved = k.saved;
      prevented = k.prevented;
    })
  ]

  -- a fetch ends, whichever way
  end-Counted :
      (m : Metrics A) (cs : List (Call A)) (i : ℕ) (c : Call A) (phase : Phase A)
      → get_elem? cs i ≡ some c
      → c.phase ≡ fetching
      → is_served (record c { phase = phase }) ≡ false
      → is_miss (record c { phase = phase }) ≡ true
      → Counted m cs
      → Counted m (modify_at i (to_phase phase) cs)
  end-Counted m cs i c phase at fetches not_served a_miss k = record {
    hits =
        ground (
          arith,
          k.hits,
          fetches,
          not_served,
          count-modify_at is_served i (to_phase phase) c cs at,
        );
    misses =
        ground
          (arith, k.misses, fetches, a_miss, count-modify_at is_miss i (to_phase phase) c cs at);
    saved = k.saved;
    prevented = k.prevented;
  }

  CallStep-IsCounted : {s s' : System A} → CallStep s s' → IsCounted s → IsCounted s'
  unfolding finish_fetch set
  CallStep-IsCounted {s = s} (proceeds i c at waits free) k = proceed-IsCounted i c s at waits k
  CallStep-IsCounted {s = s} (succeeds i c v at is) k =
      end-Counted s.context.metrics s.calls i c (fetched v) at is refl refl k
  CallStep-IsCounted {s = s} (gives_up i c at is) k =
      end-Counted s.context.metrics s.calls i c failed at is refl refl k
  CallStep-IsCounted ticks k = k

  Step-IsCounted : {s s' : System A} → Step s s' → IsCounted s → IsCounted s'
  unfolding set invalidate clear
  Step-IsCounted (calls step) k = CallStep-IsCounted step k
  Step-IsCounted {s = s} (arrives key ttl) k = arrive-IsCounted key ttl s k
  Step-IsCounted (sets key v ttl) k = k
  Step-IsCounted (invalidates key) k = k
  Step-IsCounted clears k = k

  -- In every state that a context can come to: the hits are the calls that were served from the cache,
  -- the misses those that went on to fetch, whatever became of it; the saved queries are the hits, and
  -- the prevented fetches are among them.
  pub Reachable-Counted :
      (default_ttl : Option ℕ) (now : ℕ) (s : System A)
      → Reachable default_ttl now s
      → Counted s.context.metrics s.calls
  Reachable-Counted default_ttl now s begun = record {
    hits = refl;
    misses = refl;
    saved = refl;
    prevented = omega arith;
  }
  Reachable-Counted default_ttl now s (next r step) =
      Step-IsCounted step (Reachable-Counted default_ttl now _ r)
