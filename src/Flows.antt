-- ===== src/Flows.antt =====
-- libs/foundation/src/foundation/messaging/events/flow_registration.py: what is registered for the
-- flows of events that a domain declares. Classes are named by texts; how an event type, a topic and
-- a handler come from a class are parameters.
pub mod Classes
pub mod Schemas
pub mod Handlers
pub mod Services
use taas_server_py.Prelude.{
  String, Bool, true, false, ◌||◌, ◌&&◌, Option, none, some, List, [], ◌∷◌, ◌++◌, Dict, str_eq,
  if◌then◌else◌,
}
use taas_server_py.Exec.{Exn, value_error, type_error, Result, ok, err, Action}
use taas_server_py.EventProcessor.{EventHandler, register}

pub record EventStep : Type 0 where
  pub event : String
  pub handlers : List String
  pub emits : List String

-- `FlowMap`
abbrev pub FlowMap : Type 0
FlowMap = List (String × List EventStep)

unfoldable pub contains : List String → String → Bool
contains [] a = false
contains (x ∷ xs) a = str_eq x a || contains xs a

unfoldable pub contains_pair : List (String × String) → String → String → Bool
contains_pair [] a b = false
contains_pair ((x, y) ∷ xs) a b = (str_eq x a && str_eq y b) || contains_pair xs a b

unfoldable pub iter_flow_steps : FlowMap → List EventStep
iter_flow_steps [] = []
iter_flow_steps ((name, steps) ∷ flows) = steps ++ iter_flow_steps flows

-- the classes of the steps, in their order
unfoldable pub classes_of : List EventStep → List String
classes_of [] = []
classes_of (step ∷ steps) = (step.event ∷ step.emits) ++ classes_of steps

-- those that are not in `seen`, which grows
unfoldable pub unseen : List String → List String → List String
unfolding contains
unseen seen [] = []
unseen seen (c ∷ cs) =
    let rest = unseen (if contains seen c then seen else c ∷ seen) cs in
    if contains seen c then rest else c ∷ rest

unfoldable pub iter_flow_event_classes : FlowMap → List String
iter_flow_event_classes flows = unseen [] (classes_of (iter_flow_steps flows))

-- what a messaging service and a registry have been told
pub record Registration (E : Type 0) : Type 0 where
  pub schemas : List (String × String)
  pub serializers : List String
  pub handlers : Dict (EventHandler E)

-- the registration and the two sets of `register_handlers_from_flows`
pub record Progress (E : Type 0) : Type 0 where
  pub target : Registration E
  pub registered_events : List String
  pub registered_handlers : List (String × String)

-- an event class that declares no `event_type` is a `TypeError`, one that has no topic a `ValueError`
module _ {E : Type 0} (event_type : String → Option String)
    (topic_for_event : String → Option String) (make : String → EventHandler E) where
  abbrev paired :
      String → Option String → Result (List (String × String)) → Result (List (String × String))
  paired c none rest = err value_error
  paired c (some topic) (ok pairs) = ok ((topic, c) ∷ pairs)
  paired c (some topic) (err e) = err e

  unfoldable pub pairs_of : List String → Result (List (String × String))
  pairs_of [] = ok []
  pairs_of (c ∷ cs) = paired c (topic_for_event c) (pairs_of cs)

  unfoldable pub topic_event_schema_pairs : FlowMap → Result (List (String × String))
  topic_event_schema_pairs flows = pairs_of (iter_flow_event_classes flows)

  abbrev add_schemas : Result (List (String × String)) → Action (Registration E) (Unit {0})
  add_schemas (ok pairs) r = (ok tt, record r { schemas = r.schemas ++ pairs })
  add_schemas (err e) r = (err e, r)

  unfoldable pub register_schema_registry_schemas : FlowMap → Action (Registration E) (Unit {0})
  register_schema_registry_schemas flows = add_schemas (topic_event_schema_pairs flows)

  -- `register_event_serializer` for a class that is not in the set
  unfoldable pub add_event : Progress E → String → Progress E
  add_event p c = if contains p.registered_events c then p else record p {
    target = record p.target { serializers = p.target.serializers ++ c ∷ [] };
    registered_events = c ∷ p.registered_events;
  }

  unfoldable pub add_events : Progress E → List String → Progress E
  add_events p [] = p
  add_events p (c ∷ cs) = add_events (add_event p c) cs

  -- `registry.register` for a pair that is not in the set
  unfoldable pub add_handler : String → Progress E → String → Progress E
  add_handler t p h = if contains_pair p.registered_handlers t h then p else record p {
    target = record p.target { handlers = register t (make h) p.target.handlers };
    registered_handlers = (t, h) ∷ p.registered_handlers;
  }

  unfoldable pub add_handlers : String → Progress E → List String → Progress E
  add_handlers t p [] = p
  add_handlers t p (h ∷ hs) = add_handlers t (add_handler t p h) hs

  -- the loop over the steps
  unfoldable pub add_steps : List EventStep → Action (Progress E) (Unit {0})
  add_steps [] p = (ok tt, p)
  add_steps (step ∷ steps) p = elim (event_type step.event) [
    | none ↦ (err type_error, p)
    | some t ↦
        add_steps steps (add_handlers t (add_events p (step.event ∷ step.emits)) step.handlers)
  ]

  abbrev then_steps :
      FlowMap → Result (Unit {0}) × Registration E → Result (Unit {0}) × Registration E
  then_steps flows (err e, r) = (err e, r)
  then_steps flows (ok _, r) =
      let (res, p) =
        add_steps (iter_flow_steps flows)
          (record { target = r; registered_events = []; registered_handlers = [] }) in
      (res, p.target)

  -- `consumer_enabled` is `msg_service.is_consumer_enabled()`
  unfoldable pub register_handlers_from_flows : Bool → FlowMap → Action (Registration E) (Unit {0})
  unfolding register_schema_registry_schemas add_steps
  register_handlers_from_flows consumer_enabled flows r =
      if consumer_enabled
      then then_steps flows (register_schema_registry_schemas flows r)
      else (ok tt, r)
