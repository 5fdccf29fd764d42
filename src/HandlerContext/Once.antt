-- ===== src/HandlerContext/Once.antt =====
-- What a context promises where nothing expires: a value is fetched once, and every call gets it.
use taas_server_py.Prelude.{
  arith, ℕ, String, none, some, Dict, lookup, get_elem?, ◌≡◌, refl, sym, ap, subst, ◌∙◌, ◌⊎◌, inl,
  inr,
}
use taas_server_py.HandlerContext.{
  CallStep, arrive, enter, failed, waiting, System, CachedValue, fetching, served, Call,
  HandlerContext, effective_ttl, arrived, begun, next, proceed, proceeds, succeeds, gives_up, ticks,
  Undisturbed, set, finish_fetch, double_check,
}
use taas_server_py.HandlerContext.Serial.{Kept, arrive-Kept, CallStep-Kept, one_holder, start-Kept}
use taas_server_py.HandlerContext.Settled.{
  Settled, Fits, Returned, get-cases, append-Settled, modify-Settled, succeed-Settled,
}

module _ {A : Type 0} where
  -- the invariant of an undisturbed system
  record Lasting (s : System A) : Type 0 where
    pub default_none : s.context.default_ttl ≡ none
    pub kept : Kept s
    pub settled : Settled s.context.cache s.calls

  waiting-Fits :
      (cache : Dict (CachedValue A)) (c : Call A) → c.ttl ≡ none → c.phase ≡ waiting → Fits cache c
  waiting-Fits cache c forever waits = record {
    no_ttl = forever;
    returned =
        λ v ret. elim ret [ inl h ↦ absurd (cc (h, waits)) | inr h ↦ absurd (cc (h, waits)) ];
    not_yet = λ h. absurd (cc (h, waits));
    not_fetched = λ v h. cc (h, waits);
  }

  failed-Fits :
      (cache : Dict (CachedValue A)) (c : Call A) → c.ttl ≡ none → c.phase ≡ failed → Fits cache c
  failed-Fits cache c forever fails = record {
    no_ttl = forever;
    returned =
        λ v ret. elim ret [ inl h ↦ absurd (cc (h, fails)) | inr h ↦ absurd (cc (h, fails)) ];
    not_yet = λ h. absurd (cc (h, fails));
    not_fetched = λ v h. cc (h, fails);
  }

  fetching-Fits :
      (cache : Dict (CachedValue A)) (c : Call A)
      → c.ttl ≡ none
      → c.phase ≡ fetching
      → lookup c.key cache ≡ none
      → Fits cache c
  fetching-Fits cache c forever fetches missing = record {
    no_ttl = forever;
    returned =
        λ v ret. elim ret [ inl h ↦ absurd (cc (h, fetches)) | inr h ↦ absurd (cc (h, fetches)) ];
    not_yet = λ _. missing;
    not_fetched = λ v h. cc (h, fetches);
  }

  served-Fits :
      (cache : Dict (CachedValue A)) (c : Call A) (v : A) (e : CachedValue A)
      → c.ttl ≡ none
      → c.phase ≡ served v
      → lookup c.key cache ≡ some e
      → e.value ≡ v
      → Fits cache c
  served-Fits cache c v e forever serves found same = record {
    no_ttl = forever;
    returned = λ w ret. elim ret [
      | inl h ↦ (e, found, same ∙ cc (h, serves))
      | inr h ↦ absurd (cc (h, serves))
    ];
    not_yet = λ h. absurd (cc (h, serves));
    not_fetched = λ w h. cc (h, serves);
  }

  -- what a call does before and after its wait leaves the cache as it is
  enter_keeps :
      (now : ℕ) (key : String) (c : HandlerContext A)
      → ((enter now key c).1.cache ≡ c.cache) × ((enter now key c).1.default_ttl ≡ c.default_ttl)
  unfolding enter
  enter_keeps now key c = ground arith

  double_check_keeps :
      (now i : ℕ) (key : String) (c : HandlerContext A)
      → ((double_check now i key c).1.cache ≡ c.cache)
        × ((double_check now i key c).1.default_ttl ≡ c.default_ttl)
  unfolding double_check
  double_check_keeps now i key c = ground arith

  enter-Fits :
      (key : String) (s : System A)
      → Lasting s
      → Fits s.context.cache
          (record { key = key; ttl = none; phase = (enter s.now key s.context).0 })
  unfolding enter
  enter-Fits key s l = elim (get-cases s.now key s.context l.settled.cached_ttl) [
    | inr (v, e, hit, found, same) ↦ rw hit (served-Fits s.context.cache _ v e refl refl found same)
    | inl (miss, _) ↦ rw miss (waiting-Fits s.context.cache _ refl refl)
  ]

  double_check-Fits :
      (i : ℕ) (c : Call A) (s : System A)
      → Lasting s
      → c.ttl ≡ none
      → Fits s.context.cache (record c { phase = (double_check s.now i c.key s.context).0 })
  unfolding double_check
  double_check-Fits i c s l forever = elim (get-cases s.now c.key s.context l.settled.cached_ttl) [
    | inr (v, e, hit, found, same) ↦
        rw hit (served-Fits s.context.cache _ v e forever refl found same)
    | inl (miss, missing) ↦ rw miss (fetching-Fits s.context.cache _ forever refl missing)
  ]

  arrive-Lasting : (key : String) (s : System A) → Lasting s → Lasting (arrive key none s)
  arrive-Lasting key s l =
      let (same, still) = enter_keeps s.now key s.context in
      record {
        default_none = still ∙ l.default_none;
        kept = arrive-Kept key none s l.kept;
        settled =
            subst (λ cache. Settled cache (arrive key none s).calls) (sym same)
              (append-Settled s.context.cache s.calls l.settled _ (enter-Fits key s l));
      }

  CallStep-Lasting : {s s' : System A} → CallStep s s' → Lasting s → Lasting s'
  unfolding finish_fetch set
  CallStep-Lasting {s = s} (proceeds i c at waits free) l =
      let (same, still) = double_check_keeps s.now i c.key s.context in
      record {
        default_none = still ∙ l.default_none;
        kept = CallStep-Kept (proceeds {s = s} i c at waits free) l.kept;
        settled =
            subst (λ cache. Settled cache (proceed i c s).calls) (sym same)
              (modify-Settled s.context.cache s.calls l.settled i c _ at
                (double_check-Fits i c s l (l.settled.call_ttl i c at)));
      }
  CallStep-Lasting {s = s} (succeeds i c v at is) l = record {
    default_none = l.default_none;
    kept = CallStep-Kept (succeeds {s = s} i c v at is) l.kept;
    settled =
        rw (l.settled.call_ttl i c at, effective_ttl, l.default_none)
          (succeed-Settled s.context.cache s.calls l.settled i c s.now v at is
            (λ j d found fetches same. one_holder s l.kept i j c d at found is fetches same));
  }
  CallStep-Lasting {s = s} (gives_up i c at is) l = record {
    default_none = l.default_none;
    kept = CallStep-Kept (gives_up {s = s} i c at is) l.kept;
    settled =
        modify-Settled s.context.cache s.calls l.settled i c failed at
          (failed-Fits s.context.cache _ (l.settled.call_ttl i c at) refl);
  }
  CallStep-Lasting ticks l = record {
    default_none = l.default_none;
    kept = l.kept;
    settled = l.settled;
  }

  Undisturbed-Lasting : (now : ℕ) (s : System A) → Undisturbed now s → Lasting s
  unfolding lookup
  Undisturbed-Lasting now s begun = record {
    default_none = refl;
    kept = start-Kept none now;
    settled = record {
      call_ttl = λ i c at. absurd cc;
      cached_ttl = λ key e found. absurd cc;
      returned = λ i c v at. absurd cc;
      not_yet = λ i c at. absurd cc;
      once = λ i j c d v w at. absurd cc;
    };
  }
  Undisturbed-Lasting now s (arrived r key) = arrive-Lasting key _ (Undisturbed-Lasting now _ r)
  Undisturbed-Lasting now s (next r step) = CallStep-Lasting step (Undisturbed-Lasting now _ r)

  -- Where nothing expires and handlers only call `get_or_fetch`, in any order: all calls for one key
  -- that have returned got one value, and of two such calls one was served from the cache.
  pub fetch_once :
      (now : ℕ) (s : System A)
      → Undisturbed now s
      → (i j : ℕ) (c d : Call A) (v w : A) → get_elem? s.calls i ≡ some c
      → get_elem? s.calls j ≡ some d
      → c.key ≡ d.key
      → Returned c v
      → Returned d w
      → (v ≡ w) × ((i ≡ j) ⊎ (c.phase ≡ served v) ⊎ (d.phase ≡ served w))
  fetch_once now s r i j c d v w at_i at_j same ret_i ret_j =
      let l = Undisturbed-Lasting now s r in
      let (e, found, e_v) = l.settled.returned i c v at_i ret_i in
      let (f, found', f_w) = l.settled.returned j d w at_j ret_j in
      (
        cc (found, found', e_v, f_w, ap (λ k. lookup k s.context.cache) same),
        elim ret_i [
          | inl c_is ↦ inr (inl c_is)
          | inr c_is ↦ elim ret_j [
            | inl d_is ↦ inr (inr d_is)
            | inr d_is ↦ inl (l.settled.once i j c d v w at_i at_j c_is d_is same)
          ]
        ],
      )
