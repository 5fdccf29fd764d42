-- ===== src/Flows/Services.antt =====
-- Every step of registered flows is served.
use taas_server_py.Prelude.{
  subst, String, true, Option, some, List, [], ◌∷◌, str_eq, ◌≡◌, refl, arith, Bool-cases,
  Option-cases, inl, inr, ◌⊎◌, ap, sym, ◌∙◌, ◌&&◌, All,
}
use text.Mathlib.TextPositions.{eq_refl}
use taas_server_py.Exec.{Result, ok, err}
use taas_server_py.EventProcessor.{EventHandler, register, get_handler}
use taas_server_py.EventProcessor.Registry.{get_handler-register}
use taas_server_py.Flows.{
  EventStep, FlowMap, contains_pair, iter_flow_steps, Registration, Progress, add_events,
  add_handler, add_handlers, add_steps, register_schema_registry_schemas, then_steps,
  register_handlers_from_flows,
}
use taas_server_py.Flows.Handlers.{add_events-Alone, after_step, add_steps_typed, add_steps_untyped}

module _ {E : Type 0} (event_type topic_for_event : String → Option String)
    (make : String → EventHandler E) where
  -- a handler is bound to the type
  pub Bound : String → Registration E → Type 0
  Bound t r = (g : EventHandler E) × (get_handler t r.handlers ≡ some g)

  -- what has been seen is bound
  SeenBound : Progress E → Type 0
  SeenBound p = (t h : String) → contains_pair p.registered_handlers t h ≡ true → Bound t p.target

  register-Bound :
      (t u h : String) (r : Registration E)
      → Bound t r ⊎ (str_eq u t ≡ true)
      → Bound t (record r { handlers = register u (make h) r.handlers })
  unfolding Bound
  register-Bound t u h r which = elim (Bool-cases (str_eq u t)) [
    | inl same ↦ (make h, get_handler-register u t (make h) r.handlers ∙ rw same refl)
    | inr other ↦ elim which [
      | inl (g, is) ↦ (g, get_handler-register u t (make h) r.handlers ∙ rw other is)
      | inr same ↦ absurd (cc (same, other))
    ]
  ]

  add_handler-Bound :
      (t u h : String) (p : Progress E)
      → Bound t p.target
      → Bound t (add_handler event_type topic_for_event make u p h).target
  unfolding add_handler
  add_handler-Bound t u h p bound = elim (Bool-cases (contains_pair p.registered_handlers u h)) [
    | inl known ↦ rw known bound
    | inr new ↦ rw new (register-Bound t u h p.target (inl bound))
  ]

  add_handler_self :
      (u h : String) (p : Progress E)
      → SeenBound p
      → Bound u (add_handler event_type topic_for_event make u p h).target
  unfolding add_handler SeenBound
  add_handler_self u h p seen = elim (Bool-cases (contains_pair p.registered_handlers u h)) [
    | inl known ↦ rw known (seen u h known)
    | inr new ↦ rw new (register-Bound u u h p.target (inr (eq_refl u)))
  ]

  add_handler-SeenBound :
      (u h : String) (p : Progress E)
      → SeenBound p
      → SeenBound (add_handler event_type topic_for_event make u p h)
  unfolding add_handler SeenBound contains_pair
  add_handler-SeenBound u h p seen = elim (Bool-cases (contains_pair p.registered_handlers u h)) [
    | inl known ↦ rw known seen
    | inr new ↦ rw new (λ t g found. elim (Bool-cases (str_eq u t && str_eq h g)) [
      | inl this ↦ register-Bound t u h p.target (inr (ground (arith, this)))
      | inr other ↦ register-Bound t u h p.target (inl (seen t g (rw other at found)))
    ])
  ]

  add_handlers-Bound :
      (t u : String) (hs : List String) (p : Progress E)
      → Bound t p.target
      → Bound t (add_handlers event_type topic_for_event make u p hs).target
  unfolding add_handlers
  add_handlers-Bound t u [] p bound = bound
  add_handlers-Bound t u (h ∷ hs) p bound =
      add_handlers-Bound t u hs _ (add_handler-Bound t u h p bound)

  add_handlers-SeenBound :
      (u : String) (hs : List String) (p : Progress E)
      → SeenBound p
      → SeenBound (add_handlers event_type topic_for_event make u p hs)
  unfolding add_handlers
  add_handlers-SeenBound u [] p seen = seen
  add_handlers-SeenBound u (h ∷ hs) p seen =
      add_handlers-SeenBound u hs _ (add_handler-SeenBound u h p seen)

  -- a step without handlers, or one whose event type is bound
  pub Served : Registration E → EventStep → Type 0
  Served r step =
      (step.handlers ≡ []) ⊎ ((t : String) × (event_type step.event ≡ some t) × Bound t r)

  add_handlers-Served :
      (step : EventStep) (t : String) (hs : List String) (p : Progress E)
      → event_type step.event ≡ some t
      → step.handlers ≡ hs
      → SeenBound p
      → Served (add_handlers event_type topic_for_event make t p hs).target step
  unfolding Served add_handlers
  add_handlers-Served step t [] p typed same seen = inl same
  add_handlers-Served step t (h ∷ hs) p typed same seen =
      inr (t, typed, add_handlers-Bound t t hs _ (add_handler_self t h p seen))

  add_events-SeenBound :
      (p : Progress E) (cs : List String)
      → SeenBound p
      → SeenBound (add_events event_type topic_for_event make p cs)
  unfolding SeenBound Bound
  add_events-SeenBound p cs seen t h found =
      let (same, still) = add_events-Alone event_type topic_for_event make p cs in
      let (g, is) = seen t h (sym (ap (λ l. contains_pair l t h) still) ∙ found) in
      (g, ap (get_handler t) same ∙ is)

  after_step-Bound :
      (t u : String) (step : EventStep) (p : Progress E)
      → Bound t p.target
      → Bound t (after_step event_type topic_for_event make step u p).target
  unfolding after_step Bound
  after_step-Bound t u step p (g, is) =
      let (same, _) =
        add_events-Alone event_type topic_for_event make p (step.event ∷ step.emits) in
      add_handlers-Bound t u step.handlers _ (g, ap (get_handler t) same ∙ is)

  -- what is bound stays bound while further steps are registered
  add_steps-Bound :
      (t : String) (steps : List EventStep) (p : Progress E)
      → Bound t p.target
      → Bound t (add_steps event_type topic_for_event make steps p).1.target
  unfolding add_steps
  add_steps-Bound t [] p bound = bound
  add_steps-Bound t (step ∷ steps) p bound = elim (Option-cases (event_type step.event)) [
    | inl untyped ↦
        rw (add_steps_untyped event_type topic_for_event make step steps p untyped) bound
    | inr (u, typed) ↦ rw (add_steps_typed event_type topic_for_event make step steps p u typed) (
        add_steps-Bound t steps (after_step event_type topic_for_event make step u p)
          (after_step-Bound t u step p bound))
  ]

  add_steps_keeps-Served :
      (step : EventStep) (steps : List EventStep) (p : Progress E)
      → Served p.target step
      → Served (add_steps event_type topic_for_event make steps p).1.target step
  unfolding Served
  add_steps_keeps-Served step steps p (inl no_handlers) = inl no_handlers
  add_steps_keeps-Served step steps p (inr (t, typed, bound)) =
      inr (t, typed, add_steps-Bound t steps p bound)

  add_steps-Served :
      (steps : List EventStep) (p : Progress E)
      → SeenBound p
      → (add_steps event_type topic_for_event make steps p).0 ≡ ok tt
      → All (Served (add_steps event_type topic_for_event make steps p).1.target) steps
  unfolding after_step
  add_steps-Served [] p seen done = tt
  add_steps-Served (step ∷ steps) p seen done = elim (Option-cases (event_type step.event)) [
    | inl untyped ↦ absurd (
        cc (
          ap (λ out. out.0)
              (add_steps_untyped event_type topic_for_event make step steps p untyped),
          done,
        ))
    | inr (t, typed) ↦
        let seen' = add_events-SeenBound p (step.event ∷ step.emits) seen in
        let one = add_handlers-Served step t step.handlers _ typed refl seen' in
        subst (λ out. All (Served out.1.target) (step ∷ steps))
          (sym (add_steps_typed event_type topic_for_event make step steps p t typed))
          (
            add_steps_keeps-Served step steps (after_step event_type topic_for_event make step t p)
                one,
            add_steps-Served steps (after_step event_type topic_for_event make step t p)
                (add_handlers-SeenBound t step.handlers _ seen')
                (sym (
                    ap (λ out. out.0)
                      (add_steps_typed event_type topic_for_event make step steps p t typed))
                  ∙ done),
          )
  ]

  start-SeenBound :
      (r : Registration E)
      → SeenBound (record { target = r; registered_events = []; registered_handlers = [] })
  unfolding SeenBound contains_pair
  start-SeenBound r t h found = absurd cc

  -- A registration that succeeds, with the consumer enabled, leaves each step of the flows served: its
  -- event type has a handler, unless the step names none.
  pub register_handlers-Served :
      (flows : FlowMap) (r : Registration E)
      → (register_handlers_from_flows event_type topic_for_event make true flows r).0 ≡ ok tt
      → All
          (Served (register_handlers_from_flows event_type topic_for_event make true flows r).1)
          (iter_flow_steps flows)
  unfolding register_handlers_from_flows
  register_handlers-Served flows r done =
      go (register_schema_registry_schemas event_type topic_for_event make flows r) done
    where
      go :
          (out : Result (Unit {0}) × Registration E)
          → (then_steps event_type topic_for_event make flows out).0 ≡ ok tt
          → All
              (Served (then_steps event_type topic_for_event make flows out).1)
              (iter_flow_steps flows)
      go (err e, r') h = absurd cc
      go (ok _, r') h = add_steps-Served (iter_flow_steps flows) _ (start-SeenBound r') h
