-- ===== src/HandlerContext/Serial.antt =====
-- Calls for one key take their turns.
use taas_server_py.Prelude.{
  refl, Option-cases, ℕ, String, Option, none, some, lookup, insert, get_elem?, ◌≡◌, ap, ◌∙◌, ◌⊎◌,
  inl, inr, lookup-insert_same,
}
use taas_server_py.HandlerContext.{
  failed, invalidates, gives_up, sets, fetched, arrives, succeeds, calls, served, proceeds, Step,
  next, clear, CallStep, get, Reachable, invalidate, finish_fetch, IsFree, set, double_check, enter,
  System, waiting, fetching, Call, arrive, begun, clears, ticks, start,
}
use taas_server_py.HandlerContext.Locks.{
  LocksKept, append-LocksKept, wait-LocksKept, insert-LocksKept, modify-LocksKept,
}

module _ {A : Type 0} where
  -- each key is fetched by one call at most, and a waiting call gets its lock or waits for such a call
  pub record Serialized (s : System A) : Type 0 where
    pub one_fetch :
        (i j : ℕ) (c d : Call A)
        → get_elem? s.calls i ≡ some c
        → get_elem? s.calls j ≡ some d
        → c.phase ≡ fetching
        → d.phase ≡ fetching
        → c.key ≡ d.key
        → i ≡ j
    pub progress :
        (i : ℕ) (c : Call A)
        → get_elem? s.calls i ≡ some c
        → c.phase ≡ waiting
        → IsFree c.key s.context
          ⊎ ((j : ℕ) × (d : Call A) × (get_elem? s.calls j ≡ some d)
              × (d.key ≡ c.key)
              × (d.phase ≡ fetching))

  abbrev pub Kept : System A → Type 0
  Kept s = LocksKept s.context.locks s.calls

  pub arrive-Kept :
      (key : String) (ttl : Option ℕ) (s : System A) → Kept s → Kept (arrive key ttl s)
  unfolding enter
  arrive-Kept key ttl s kept = elim (Option-cases (get s.now key s.context)) [
    | inr (v, hit) ↦
        rw hit (append-LocksKept s.context.locks s.calls kept _ (λ e. cc e) (λ e. cc e))
    | inl miss ↦ rw miss (elim (Option-cases (lookup key s.context.locks)) [
      | inr (holder, there) ↦
          rw there (wait-LocksKept s.context.locks s.calls kept _ holder refl there)
      | inl missing ↦ rw missing (
          wait-LocksKept (insert key none s.context.locks) s.calls
            (insert-LocksKept s.context.locks s.calls kept key missing) _ none refl
            (lookup-insert_same key key none s.context.locks refl))
    ])
  ]

  pub CallStep-Kept : {s s' : System A} → CallStep s s' → Kept s → Kept s'
  unfolding double_check finish_fetch set
  CallStep-Kept {s = s} (proceeds i c at waits free) kept =
      elim (Option-cases (get s.now c.key s.context)) [
        | inr (v, hit) ↦ rw hit (
            modify-LocksKept s.context.locks s.calls kept i c none (served v) at (inl free)
              (λ e. cc e) (inr ((λ e. cc e), refl)))
        | inl miss ↦ rw miss (
            modify-LocksKept s.context.locks s.calls kept i c (some i) fetching at (inl free)
              (λ e. cc e) (inl (refl, refl)))
      ]
  CallStep-Kept {s = s} (succeeds i c v at is) kept =
      modify-LocksKept s.context.locks s.calls kept i c none (fetched v) at
        (inr (kept.fetching_holds i c at is)) (λ e. cc e) (inr ((λ e. cc e), refl))
  CallStep-Kept {s = s} (gives_up i c at is) kept =
      modify-LocksKept s.context.locks s.calls kept i c none failed at
        (inr (kept.fetching_holds i c at is)) (λ e. cc e) (inr ((λ e. cc e), refl))
  CallStep-Kept ticks kept = kept

  Step-Kept : {s s' : System A} → Step s s' → Kept s → Kept s'
  unfolding set invalidate clear
  Step-Kept (calls step) kept = CallStep-Kept step kept
  Step-Kept {s = s} (arrives key ttl) kept = arrive-Kept key ttl s kept
  Step-Kept (sets key v ttl) kept = kept
  Step-Kept (invalidates key) kept = kept
  Step-Kept clears kept = kept

  pub one_holder :
      (s : System A)
      → Kept s
      → (i j : ℕ) (c d : Call A) → get_elem? s.calls i ≡ some c
      → get_elem? s.calls j ≡ some d
      → c.phase ≡ fetching
      → d.phase ≡ fetching
      → c.key ≡ d.key
      → i ≡ j
  one_holder s kept i j c d at_i at_j c_is d_is same = cc (
    kept.fetching_holds i c at_i c_is,
    kept.fetching_holds j d at_j d_is,
    ap (λ k. lookup k s.context.locks) same,
  )

  pub start-Kept : (default_ttl : Option ℕ) (now : ℕ) → Kept (start default_ttl now)
  unfolding lookup
  start-Kept default_ttl now = record {
    fetching_holds = λ i c at is. absurd cc;
    holder_fetches = λ i key h. absurd cc;
    waiting_knows = λ i c at is. absurd cc;
  }

  module _ (default_ttl : Option ℕ) (now : ℕ) where
    Reachable-Kept : (s : System A) → Reachable default_ttl now s → Kept s
    Reachable-Kept s begun = start-Kept default_ttl now
    Reachable-Kept s (next r step) = Step-Kept step (Reachable-Kept _ r)

    -- In every state that calls, clocks and handlers can bring a context to, in any order: a key is
    -- fetched by one call at most, and a call that waits can have the lock of its key, or the call that
    -- fetches the key has it: also after fetches that raised, no lock is lost.
    pub Reachable-Serialized : (s : System A) → Reachable default_ttl now s → Serialized s
    Reachable-Serialized s r =
        let kept = Reachable-Kept s r in
        record {
          one_fetch = one_holder s kept;
          progress = λ i c at waits.
              let (holder, held) = kept.waiting_knows i c at waits in
              elim (Option-cases holder) [
                | inl free ↦ inl (held ∙ ap some free)
                | inr (j, is) ↦
                    let (d, found, same, fetches) =
                      kept.holder_fetches j c.key (held ∙ ap some is) in
                    inr (j, d, found, same, fetches)
              ];
        }
