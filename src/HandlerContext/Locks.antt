-- ===== src/HandlerContext/Locks.antt =====
-- Who holds the lock of a key, and what becomes of it when calls arrive and go on.
use taas_server_py.Prelude.{
  ℕ, String, Option, none, some, List, [], ◌∷◌, ◌++◌, Dict, lookup, insert, get_elem?, modify_at,
  get_elem?-concat, get_elem?-modify_at, ◌≡◌, ◌≢◌, sym, ap, subst, ◌∙◌, ◌⊎◌, inl, inr,
  lookup-insert_same, lookup-insert_other, text-cases, get_elem?-append, get_elem?-modify_at_self,
  get_elem?-modify_at_other,
}
use taas_server_py.HandlerContext.{Phase, waiting, fetching, Call, to_phase}

module _ {A : Type 0} where
  -- a lock is held by the call that fetches its key and by no other, and a call waits for a lock that
  -- is there
  pub record LocksKept (locks : Dict (Option ℕ)) (cs : List (Call A)) : Type 0 where
    pub fetching_holds :
        (i : ℕ) (c : Call A)
        → get_elem? cs i ≡ some c
        → c.phase ≡ fetching
        → lookup c.key locks ≡ some (some i)
    pub holder_fetches :
        (i : ℕ) (key : String)
        → lookup key locks ≡ some (some i)
        → (c : Call A) × (get_elem? cs i ≡ some c) × (c.key ≡ key) × (c.phase ≡ fetching)
    pub waiting_knows :
        (i : ℕ) (c : Call A)
        → get_elem? cs i ≡ some c
        → c.phase ≡ waiting
        → (holder : Option ℕ) × (lookup c.key locks ≡ some holder)

  module _ (locks : Dict (Option ℕ)) (cs : List (Call A)) (kept : LocksKept locks cs) where
    -- a call that ended at once
    pub append-LocksKept :
        (c : Call A) → c.phase ≢ fetching → c.phase ≢ waiting → LocksKept locks (cs ++ c ∷ [])
    append-LocksKept c idle served_now = record {
      fetching_holds = λ i d at is. elim (get_elem?-concat i c d cs at) [
        | inl old ↦ kept.fetching_holds i d old is
        | inr (last, same) ↦ absurd (idle (subst (λ e. e.phase ≡ fetching) same is))
      ];
      holder_fetches = λ i key h.
          let (d, at, same, is) = kept.holder_fetches i key h in
          (d, get_elem?-append i cs (c ∷ []) at, same, is);
      waiting_knows = λ i d at is. elim (get_elem?-concat i c d cs at) [
        | inl old ↦ kept.waiting_knows i d old is
        | inr (last, same) ↦ absurd (served_now (subst (λ e. e.phase ≡ waiting) same is))
      ];
    }

    -- a call that waits for a lock that was there
    pub wait-LocksKept :
        (c : Call A) (holder : Option ℕ)
        → c.phase ≡ waiting
        → lookup c.key locks ≡ some holder
        → LocksKept locks (cs ++ c ∷ [])
    wait-LocksKept c holder waits there = record {
      fetching_holds = λ i d at is. elim (get_elem?-concat i c d cs at) [
        | inl old ↦ kept.fetching_holds i d old is
        | inr (last, same) ↦ absurd (cc (ap (λ e. e.phase) same))
      ];
      holder_fetches = λ i key h.
          let (d, at, same, is) = kept.holder_fetches i key h in
          (d, get_elem?-append i cs (c ∷ []) at, same, is);
      waiting_knows = λ i d at is. elim (get_elem?-concat i c d cs at) [
        | inl old ↦ kept.waiting_knows i d old is
        | inr (last, same) ↦ (holder, rw same there)
      ];
    }

    -- a new lock
    pub insert-LocksKept :
        (key : String) → lookup key locks ≡ none → LocksKept (insert key none locks) cs
    insert-LocksKept key missing = record {
      fetching_holds = λ i d at is. elim (text-cases key d.key) [
        | inl same ↦ absurd (cc (kept.fetching_holds i d at is, ap (λ k. lookup k locks) same))
        | inr other ↦ lookup-insert_other key d.key none locks other ∙ kept.fetching_holds i d at is
      ];
      holder_fetches = λ i k h. elim (text-cases key k) [
        | inl same ↦ absurd (cc (lookup-insert_same key k none locks same))
        | inr other ↦ kept.holder_fetches i k (sym (lookup-insert_other key k none locks other) ∙ h)
      ];
      waiting_knows = λ i d at is. elim (text-cases key d.key) [
        | inl same ↦ (none, lookup-insert_same key d.key none locks same)
        | inr other ↦
            let (holder, h) = kept.waiting_knows i d at is in
            (holder, lookup-insert_other key d.key none locks other ∙ h)
      ];
    }

    -- the lock of call `i` passes to `holder`, and the call to `phase`
    module _ (i : ℕ) (c : Call A) (holder : Option ℕ) (phase : Phase A)
        (at : get_elem? cs i ≡ some c)
        (own : (lookup c.key locks ≡ some none) ⊎ (lookup c.key locks ≡ some (some i)))
        (moved_on : phase ≢ waiting) where
      others_differ : (j : ℕ) (k : String) → i ≢ j → lookup k locks ≡ some (some j) → c.key ≢ k
      others_differ j k other h same = elim own [
        | inl free ↦ cc (ap (λ x. lookup x locks) same)
        | inr held ↦ other (cc (ap (λ x. lookup x locks) same))
      ]

      pub modify-LocksKept :
          ((phase ≡ fetching) × (holder ≡ some i)) ⊎ ((phase ≢ fetching) × (holder ≡ none))
          → LocksKept (insert c.key holder locks) (modify_at i (to_phase phase) cs)
      modify-LocksKept which = record {
        fetching_holds = λ j d found is.
            elim (get_elem?-modify_at i j (to_phase phase) d cs found) [
              | inl (here, (x, was, now)) ↦ elim which [
                | inl (_, holds) ↦
                    let that : x ≡ c = cc (was, at, ap (get_elem? cs) here) in
                    let same : c.key ≡ d.key =
                      sym (ap (λ e. e.key) (now ∙ ap (to_phase phase) that)) in
                    lookup-insert_same c.key d.key holder locks same
                    ∙ ap some (holds ∙ ap some here)
                | inr (idle, _) ↦ absurd (idle (cc (ap (λ e. e.phase) now, is)))
              ]
              | inr (there, was) ↦
                  let held = kept.fetching_holds j d was is in
                  lookup-insert_other c.key d.key holder locks (others_differ j d.key there held)
                  ∙ held
            ];
        holder_fetches = λ j k h. elim (text-cases c.key k) [
          | inl same ↦
              let is_holder : holder ≡ some j =
                cc (lookup-insert_same c.key k holder locks same, h) in
              elim which [
                | inl (is, holds) ↦
                    let here : i ≡ j = cc (is_holder, holds) in
                    (
                      to_phase phase c,
                      subst
                          (λ n.
                            get_elem? (modify_at i (to_phase phase) cs) n ≡ some (to_phase phase c))
                          here (get_elem?-modify_at_self i (to_phase phase) cs at),
                      same,
                      is,
                    )
                | inr (_, free) ↦ absurd (cc (is_holder, free))
              ]
          | inr other ↦
              let (d, found, d_key, is) =
                kept.holder_fetches j k
                  (sym (lookup-insert_other c.key k holder locks other) ∙ h) in
              let there : i ≢ j = λ e. other (cc (found, at, ap (get_elem? cs) e, d_key)) in
              (d, get_elem?-modify_at_other i j (to_phase phase) cs there found, d_key, is)
        ];
        waiting_knows = λ j d found is. elim (get_elem?-modify_at i j (to_phase phase) d cs found) [
          | inl (here, (x, was, now)) ↦ absurd (moved_on (cc (ap (λ e. e.phase) now, is)))
          | inr (there, was) ↦ elim (text-cases c.key d.key) [
            | inl same ↦ (holder, lookup-insert_same c.key d.key holder locks same)
            | inr other ↦
                let (before, h) = kept.waiting_knows j d was is in
                (before, lookup-insert_other c.key d.key holder locks other ∙ h)
          ]
        ];
      }
