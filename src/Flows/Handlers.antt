-- ===== src/Flows/Handlers.antt =====
-- One handler for an event type is bound.
use taas_server_py.Prelude.{
  All, sym, Bool-cases, Option-cases, inl, inr, String, true, false, Option, none, some, List, [],
  ◌∷◌, ◌++◌, str_eq, ◌≡◌, refl, arith, ap, ◌∙◌,
}
use taas_server_py.Exec.{Result, ok, err, type_error}
use taas_server_py.EventProcessor.{EventHandler, get_handler}
use taas_server_py.EventProcessor.Registry.{get_handler-register, get_handler-register_self}
use taas_server_py.Flows.{
  EventStep, FlowMap, contains, contains_pair, iter_flow_steps, Registration, Progress, add_event,
  add_events, add_handler, add_handlers, add_steps, register_schema_registry_schemas, then_steps,
  register_handlers_from_flows,
}

module _ {E : Type 0} (event_type topic_for_event : String → Option String)
    (make : String → EventHandler E) where
  -- serializers leave the handlers alone
  abbrev pub Alone : Progress E → Progress E → Type 0
  Alone p p' =
      (p'.target.handlers ≡ p.target.handlers) × (p'.registered_handlers ≡ p.registered_handlers)

  add_event-Alone :
      (p : Progress E) (c : String) → Alone p (add_event event_type topic_for_event make p c)
  unfolding add_event
  add_event-Alone p c = ground arith

  pub add_events-Alone :
      (p : Progress E) (cs : List String)
      → Alone p (add_events event_type topic_for_event make p cs)
  unfolding add_events
  add_events-Alone p [] = (refl, refl)
  add_events-Alone p (c ∷ cs) =
      let (one, seen) = add_event-Alone p c in
      let (rest, seen') = add_events-Alone (add_event event_type topic_for_event make p c) cs in
      (rest ∙ one, seen' ∙ seen)

  add_handler_unseen :
      (t g h : String) (p : Progress E)
      → contains_pair p.registered_handlers t h ≡ false
      → str_eq g h ≡ false
      → contains_pair (add_handler event_type topic_for_event make t p g).registered_handlers t h
        ≡ false
  unfolding add_handler contains_pair
  add_handler_unseen t g h p new other = ground (arith, new, other)

  add_handler_other :
      (t u g h : String) (p : Progress E)
      → contains_pair p.registered_handlers t h ≡ false
      → str_eq g h ≡ false
      → contains_pair (add_handler event_type topic_for_event make u p g).registered_handlers t h
        ≡ false
  unfolding add_handler contains_pair
  add_handler_other t u g h p new other = ground (arith, new, other)

  add_handlers_last :
      (t : String) (hs : List String) (h : String) (p : Progress E)
      → contains_pair p.registered_handlers t h ≡ false
      → contains hs h ≡ false
      → get_handler t
          (add_handlers event_type topic_for_event make t p (hs ++ h ∷ [])).target.handlers
        ≡ some (make h)
  unfolding add_handlers add_handler contains
  add_handlers_last t [] h p new other =
      rw (add_handlers, add_handler, new) (get_handler-register_self t (make h) p.target.handlers)
  add_handlers_last t (g ∷ hs) h p new other =
      add_handlers_last t hs h (add_handler event_type topic_for_event make t p g)
        (add_handler_unseen t g h p new (ground (arith, other))) (ground (arith, other))

  -- the progress after the events and the handlers of a step
  unfoldable pub after_step : EventStep → String → Progress E → Progress E
  after_step step t p =
      add_handlers event_type topic_for_event make t
        (add_events event_type topic_for_event make p (step.event ∷ step.emits)) step.handlers

  module _ (step : EventStep) (steps : List EventStep) (p : Progress E) where
    abbrev pub next : Option String → Result (Unit {0}) × Progress E
    next o = elim o as (λ _. Result (Unit {0}) × Progress E) [
      | none ↦ (err type_error, p)
      | some t ↦ add_steps event_type topic_for_event make steps (after_step step t p)
    ]

    pub add_steps_typed :
        (t : String)
        → event_type step.event ≡ some t
        → add_steps event_type topic_for_event make (step ∷ steps) p
          ≡ add_steps event_type topic_for_event make steps (after_step step t p)
    unfolding add_steps after_step
    add_steps_typed t typed = ap next typed

    pub add_steps_untyped :
        event_type step.event ≡ none
        → add_steps event_type topic_for_event make (step ∷ steps) p ≡ (err type_error, p)
    unfolding add_steps after_step
    add_steps_untyped untyped = ap next untyped

  add_handlers_unseen :
      (t u h : String) (hs : List String) (p : Progress E)
      → contains_pair p.registered_handlers t h ≡ false
      → contains hs h ≡ false
      → contains_pair (add_handlers event_type topic_for_event make u p hs).registered_handlers t h
        ≡ false
  unfolding add_handlers contains
  add_handlers_unseen t u h [] p new other = new
  add_handlers_unseen t u h (g ∷ hs) p new other =
      add_handlers_unseen t u h hs (add_handler event_type topic_for_event make u p g)
        (add_handler_other t u g h p new (ground (arith, other))) (ground (arith, other))

  after_step_unseen :
      (t u h : String) (step : EventStep) (p : Progress E)
      → contains_pair p.registered_handlers t h ≡ false
      → contains step.handlers h ≡ false
      → contains_pair (after_step step u p).registered_handlers t h ≡ false
  unfolding after_step
  after_step_unseen t u h step p new other =
      let (_, seen) = add_events-Alone p (step.event ∷ step.emits) in
      add_handlers_unseen t u h step.handlers _ (ap (λ l. contains_pair l t h) seen ∙ new) other

  -- the handlers of another event type
  add_handler_elsewhere :
      (t u h : String) (p : Progress E)
      → str_eq u t ≡ false
      → get_handler t (add_handler event_type topic_for_event make u p h).target.handlers
        ≡ get_handler t p.target.handlers
  unfolding add_handler
  add_handler_elsewhere t u h p other =
      elim (Bool-cases (contains_pair p.registered_handlers u h)) [
        | inl known ↦ rw known refl
        | inr new ↦ rw new (get_handler-register u t (make h) p.target.handlers ∙ rw other refl)
      ]

  add_handlers_elsewhere :
      (t u : String) (hs : List String) (p : Progress E)
      → str_eq u t ≡ false
      → get_handler t (add_handlers event_type topic_for_event make u p hs).target.handlers
        ≡ get_handler t p.target.handlers
  unfolding add_handlers
  add_handlers_elsewhere t u [] p other = refl
  add_handlers_elsewhere t u (h ∷ hs) p other =
      add_handlers_elsewhere t u hs (add_handler event_type topic_for_event make u p h) other
      ∙ add_handler_elsewhere t u h p other

  after_step_elsewhere :
      (t u : String) (step : EventStep) (p : Progress E)
      → str_eq u t ≡ false
      → get_handler t (after_step step u p).target.handlers ≡ get_handler t p.target.handlers
  unfolding after_step
  after_step_elsewhere t u step p other =
      let (same, _) = add_events-Alone p (step.event ∷ step.emits) in
      add_handlers_elsewhere t u step.handlers _ other ∙ ap (get_handler t) same

  after_step_last :
      (step : EventStep) (t : String) (hs : List String) (h : String) (p : Progress E)
      → step.handlers ≡ hs ++ h ∷ []
      → contains_pair p.registered_handlers t h ≡ false
      → contains hs h ≡ false
      → get_handler t (after_step step t p).target.handlers ≡ some (make h)
  unfolding after_step
  after_step_last step t hs h p handlers new other =
      let (_, seen) = add_events-Alone p (step.event ∷ step.emits) in
      ap
        (λ l.
          get_handler t
            (add_handlers event_type topic_for_event make t
              (add_events event_type topic_for_event make p (step.event ∷ step.emits))
              l).target.handlers)
        handlers
      ∙ add_handlers_last t hs h _ (ap (λ l. contains_pair l t h) seen ∙ new) other

  -- a step of another event type
  pub OtherType : String → EventStep → Type 0
  OtherType t step = (u : String) → event_type step.event ≡ some u → str_eq u t ≡ false

  add_steps_elsewhere :
      (t : String) (steps : List EventStep) (p : Progress E)
      → All (OtherType t) steps
      → get_handler t (add_steps event_type topic_for_event make steps p).1.target.handlers
        ≡ get_handler t p.target.handlers
  unfolding add_steps OtherType
  add_steps_elsewhere t [] p others = refl
  add_steps_elsewhere t (step ∷ steps) p (other, others) =
      elim (Option-cases (event_type step.event)) [
        | inl untyped ↦ rw (add_steps_untyped step steps p untyped) refl
        | inr (u, typed) ↦ rw (add_steps_typed step steps p u typed) (
            add_steps_elsewhere t steps (after_step step u p) others
            ∙ after_step_elsewhere t u step p (other u typed))
      ]

  add_steps_last :
      (before after : List EventStep) (step : EventStep) (t : String) (hs : List String)
      (h : String) (p : Progress E)
      → event_type step.event ≡ some t
      → step.handlers ≡ hs ++ h ∷ []
      → contains hs h ≡ false
      → All (λ s. contains s.handlers h ≡ false) before
      → All (OtherType t) after
      → contains_pair p.registered_handlers t h ≡ false
      → (add_steps event_type topic_for_event make (before ++ step ∷ after) p).0 ≡ ok tt
      → get_handler t
          (add_steps event_type topic_for_event make (before ++ step ∷ after) p).1.target.handlers
        ≡ some (make h)
  add_steps_last [] after step t hs h p typed handlers other earlier later new done =
      rw (add_steps_typed step after p t typed) (
        add_steps_elsewhere t after (after_step step t p) later
        ∙ after_step_last step t hs h p handlers new other)
  add_steps_last (s ∷ before) after step t hs h p typed handlers other (absent, earlier) later new
        done =
      elim (Option-cases (event_type s.event)) [
        | inl untyped ↦
            absurd (
              cc (ap (λ out. out.0) (add_steps_untyped s (before ++ step ∷ after) p untyped), done))
        | inr (u, is_u) ↦ rw (add_steps_typed s (before ++ step ∷ after) p u is_u) (
            add_steps_last before after step t hs h (after_step s u p) typed handlers other earlier
              later (after_step_unseen t u h s p new absent)
              (sym (ap (λ out. out.0) (add_steps_typed s (before ++ step ∷ after) p u is_u))
                ∙ done))
      ]

  -- Flows in which a step names several handlers for its event type: after a registration that
  -- succeeds, the registry gives one of them for this type, the last. The last handler differs from the
  -- others of the step, no earlier step names it, and no later step has this event type.
  pub last_handler_wins :
      (flows : FlowMap) (before after : List EventStep) (step : EventStep) (t : String)
      (hs : List String) (h : String) (r : Registration E)
      → iter_flow_steps flows ≡ before ++ step ∷ after
      → event_type step.event ≡ some t
      → step.handlers ≡ hs ++ h ∷ []
      → contains hs h ≡ false
      → All (λ s. contains s.handlers h ≡ false) before
      → All (OtherType t) after
      → (register_handlers_from_flows event_type topic_for_event make true flows r).0 ≡ ok tt
      → get_handler t
          (register_handlers_from_flows event_type topic_for_event make true flows r).1.handlers
        ≡ some (make h)
  unfolding register_handlers_from_flows contains_pair
  last_handler_wins flows before after step t hs h r split typed handlers other earlier later done =
      go (register_schema_registry_schemas event_type topic_for_event make flows r) done
    where
      go :
          (out : Result (Unit {0}) × Registration E)
          → (then_steps event_type topic_for_event make flows out).0 ≡ ok tt
          → get_handler t (then_steps event_type topic_for_event make flows out).1.handlers
            ≡ some (make h)
      go (err e, r') h' = absurd cc
      go (ok _, r') h' =
          let start : Progress E = record {
            target = r';
            registered_events = [];
            registered_handlers = [];
          } in
          ap
            (λ steps.
              get_handler t
                (add_steps event_type topic_for_event make steps start).1.target.handlers)
            split
          ∙ add_steps_last before after step t hs h start typed handlers other earlier later refl (
              ap (λ steps. (add_steps event_type topic_for_event make steps start).0) (sym split)
              ∙ h')
