-- ===== src/HandlerContext/Settled.antt =====
-- What holds of a cache in which nothing expires, and of the calls on it.
use taas_server_py.Prelude.{
  ℕ, String, none, some, List, [], ◌∷◌, ◌++◌, Dict, lookup, insert, lookup-insert_same,
  lookup-insert_other, text-cases, get_elem?, modify_at, get_elem?-concat, get_elem?-modify_at, ◌≡◌,
  ◌≢◌, refl, sym, ap, subst, ◌∙◌, ◌⊎◌, inl, inr, Option-cases,
}
use taas_server_py.HandlerContext.{
  CachedValue, Phase, fetching, served, fetched, Call, HandlerContext, get, to_phase, unexpired,
  is_expired,
}

module _ {A : Type 0} where
  -- a call that returned this value
  abbrev pub Returned : Call A → A → Type 0
  Returned c v = (c.phase ≡ served v) ⊎ (c.phase ≡ fetched v)

  pub record Settled (cache : Dict (CachedValue A)) (cs : List (Call A)) : Type 0 where
    pub call_ttl : (i : ℕ) (c : Call A) → get_elem? cs i ≡ some c → c.ttl ≡ none
    pub cached_ttl : (key : String) (e : CachedValue A) → lookup key cache ≡ some e → e.ttl ≡ none
    pub returned :
        (i : ℕ) (c : Call A) (v : A)
        → get_elem? cs i ≡ some c
        → Returned c v
        → (e : CachedValue A) × (lookup c.key cache ≡ some e) × (e.value ≡ v)
    pub not_yet :
        (i : ℕ) (c : Call A)
        → get_elem? cs i ≡ some c
        → c.phase ≡ fetching
        → lookup c.key cache ≡ none
    pub once :
        (i j : ℕ) (c d : Call A) (v w : A)
        → get_elem? cs i ≡ some c
        → get_elem? cs j ≡ some d
        → c.phase ≡ fetched v
        → d.phase ≡ fetched w
        → c.key ≡ d.key
        → i ≡ j

  module _ (now : ℕ) (key : String) (c : HandlerContext A)
      (lasting : (k : String) (e : CachedValue A) → lookup k c.cache ≡ some e → e.ttl ≡ none) where
    pub get-cases :
        ((get now key c ≡ none) × (lookup key c.cache ≡ none))
        ⊎ ((v : A) × (e : CachedValue A) × (get now key c ≡ some v)
            × (lookup key c.cache ≡ some e)
            × (e.value ≡ v))
    unfolding get
    get-cases = elim (Option-cases (lookup key c.cache)) [
      | inl missing ↦ inl (rw missing refl, missing)
      | inr (e, found) ↦
          inr (e.value, e, rw (found, unexpired, is_expired, lasting key e found) refl, found, refl)
    ]

  -- a call that can be added where this is cached, and that did not fetch a value itself
  pub record Fits (cache : Dict (CachedValue A)) (c : Call A) : Type 0 where
    pub no_ttl : c.ttl ≡ none
    pub returned :
        (v : A) → Returned c v → (e : CachedValue A) × (lookup c.key cache ≡ some e) × (e.value ≡ v)
    pub not_yet : c.phase ≡ fetching → lookup c.key cache ≡ none
    pub not_fetched : (v : A) → c.phase ≢ fetched v

  module _ (cache : Dict (CachedValue A)) (cs : List (Call A)) (settled : Settled cache cs) where
    -- a call is added, or takes the place of one
    change-Settled :
        (cs' : List (Call A)) (c : Call A)
        → Fits cache c
        → ((j : ℕ) (d : Call A) → get_elem? cs' j ≡ some d → (get_elem? cs j ≡ some d) ⊎ (d ≡ c))
        → Settled cache cs'
    change-Settled cs' c fits split = record {
      call_ttl = λ j d at. elim (split j d at) [
        | inl old ↦ settled.call_ttl j d old
        | inr new ↦ ap (λ x. x.ttl) new ∙ fits.no_ttl
      ];
      cached_ttl = settled.cached_ttl;
      returned = λ j d v at. elim (split j d at) [
        | inl old ↦ settled.returned j d v old
        | inr new ↦
            subst
              (λ x.
                Returned x v → (e : CachedValue A) × (lookup x.key cache ≡ some e) × (e.value ≡ v))
              (sym new) (fits.returned v)
      ];
      not_yet = λ j d at. elim (split j d at) [
        | inl old ↦ settled.not_yet j d old
        | inr new ↦
            subst (λ x. x.phase ≡ fetching → lookup x.key cache ≡ none) (sym new) fits.not_yet
      ];
      once = λ i j d f v w at_i at_j d_is f_is same. elim (split i d at_i) [
        | inr new ↦ absurd (fits.not_fetched v (sym (ap (λ x. x.phase) new) ∙ d_is))
        | inl old ↦ elim (split j f at_j) [
          | inr new ↦ absurd (fits.not_fetched w (sym (ap (λ x. x.phase) new) ∙ f_is))
          | inl old' ↦ settled.once i j d f v w old old' d_is f_is same
        ]
      ];
    }

    pub append-Settled : (c : Call A) → Fits cache c → Settled cache (cs ++ c ∷ [])
    append-Settled c fits =
        change-Settled (cs ++ c ∷ []) c fits λ j d at. elim (get_elem?-concat j c d cs at) [
          | inl old ↦ inl old
          | inr (_, new) ↦ inr new
        ]

    pub modify-Settled :
        (i : ℕ) (c : Call A) (phase : Phase A)
        → get_elem? cs i ≡ some c
        → Fits cache (to_phase phase c)
        → Settled cache (modify_at i (to_phase phase) cs)
    modify-Settled i c phase at fits =
        change-Settled (modify_at i (to_phase phase) cs) (to_phase phase c) fits λ j d found.
          elim (get_elem?-modify_at i j (to_phase phase) d cs found) [
            | inl (here, (x, was, now)) ↦
                let that : x ≡ c = cc (was, at, ap (get_elem? cs) here) in
                inr (now ∙ ap (to_phase phase) that)
            | inr (_, old) ↦ inl old
          ]

    -- the fetch of call `i` ends, while no other call fetches the key
    module _ (i : ℕ) (c : Call A) (now : ℕ) (v : A) (at : get_elem? cs i ≡ some c)
        (is : c.phase ≡ fetching)
        (alone : (j : ℕ) (d : Call A)
          → get_elem? cs j ≡ some d
          → d.phase ≡ fetching
          → c.key ≡ d.key
          → i ≡ j) where
      abbrev pub entry : CachedValue A
      entry = record { value = v; cached_at = now; ttl = none }

      abbrev pub cache' : Dict (CachedValue A)
      cache' = insert c.key entry cache

      abbrev pub cs' : List (Call A)
      cs' = modify_at i (to_phase (fetched v)) cs

      -- a call after the step: this one, or one that was there, whose key differs if it has returned
      succeed-cases :
          (j : ℕ) (d : Call A)
          → get_elem? cs' j ≡ some d
          → ((i ≡ j) × (d ≡ to_phase (fetched v) c)) ⊎ ((i ≢ j) × (get_elem? cs j ≡ some d))
      succeed-cases j d found = elim (get_elem?-modify_at i j (to_phase (fetched v)) d cs found) [
        | inl (here, (x, was, new)) ↦
            let that : x ≡ c = cc (was, at, ap (get_elem? cs) here) in
            inl (here, new ∙ ap (to_phase (fetched v)) that)
        | inr old ↦ inr old
      ]

      distinct_keys :
          (j : ℕ) (d : Call A) (w : A) → get_elem? cs j ≡ some d → Returned d w → c.key ≢ d.key
      distinct_keys j d w old ret same =
          let (e, found, _) = settled.returned j d w old ret in
          cc (settled.not_yet i c at is, found, ap (λ k. lookup k cache) same)

      pub succeed-Settled : Settled cache' cs'
      succeed-Settled = record {
        call_ttl = λ j d found. elim (succeed-cases j d found) [
          | inl (_, new) ↦ ap (λ x. x.ttl) new ∙ settled.call_ttl i c at
          | inr (_, old) ↦ settled.call_ttl j d old
        ];
        cached_ttl = λ k e found. elim (text-cases c.key k) [
          | inl same ↦
              let here : entry ≡ e = cc (lookup-insert_same c.key k entry cache same, found) in
              sym (ap (λ x. x.ttl) here)
          | inr other ↦
              settled.cached_ttl k e (sym (lookup-insert_other c.key k entry cache other) ∙ found)
        ];
        returned = λ j d w found ret. elim (succeed-cases j d found) [
          | inl (_, new) ↦ (
            entry,
            lookup-insert_same c.key d.key entry cache (sym (ap (λ x. x.key) new)),
            elim ret [
              | inl h ↦ absurd (cc (h, ap (λ x. x.phase) new))
              | inr h ↦ cc (h, ap (λ x. x.phase) new)
            ],
          )
          | inr (_, old) ↦
              let (e, there, same) = settled.returned j d w old ret in
              (
                e,
                lookup-insert_other c.key d.key entry cache (distinct_keys j d w old ret) ∙ there,
                same,
              )
        ];
        not_yet = λ j d found fetches. elim (succeed-cases j d found) [
          | inl (_, new) ↦ absurd (cc (fetches, ap (λ x. x.phase) new))
          | inr (there, old) ↦
              lookup-insert_other c.key d.key entry cache
                (λ same. there (alone j d old fetches same))
              ∙ settled.not_yet j d old fetches
        ];
        once = λ j k d f w x at_j at_k d_is f_is same. elim (succeed-cases j d at_j) [
          | inl (here, new) ↦ elim (succeed-cases k f at_k) [
            | inl (here', new') ↦ sym here ∙ here'
            | inr (_, old') ↦
                absurd (distinct_keys k f x old' (inr f_is) (sym (ap (λ y. y.key) new) ∙ same))
          ]
          | inr (_, old) ↦ elim (succeed-cases k f at_k) [
            | inl (here', new') ↦
                absurd (distinct_keys j d w old (inr d_is) (sym (ap (λ y. y.key) new') ∙ sym same))
            | inr (_, old') ↦ settled.once j k d f w x old old' d_is f_is same
          ]
        ];
      }
