-- ===== src/Flows/Schemas.antt =====
-- The schemas that are registered for flows.
use taas_server_py.Prelude.{String, Option, none, some, List, [], ◌∷◌, ◌++◌, ◌≡◌, refl}
use taas_server_py.Exec.{value_error, Result, ok, err}
use taas_server_py.EventProcessor.{EventHandler}
use taas_server_py.Flows.{
  FlowMap, iter_flow_event_classes, pairs_of, paired, topic_event_schema_pairs, Registration,
  register_schema_registry_schemas, add_schemas,
}

module _ {E : Type 0} (event_type topic_for_event : String → Option String)
    (make : String → EventHandler E) where
  -- each class with its topic, in order
  pub data Routed : List String → List (String × String) → Type 0 where
    done : Routed [] []
    also :
        (c topic : String) {cs : List String} {pairs : List (String × String)}
        → topic_for_event c ≡ some topic
        → Routed cs pairs
        → Routed (c ∷ cs) ((topic, c) ∷ pairs)

  -- a class that has no topic
  pub data Unroutable : List String → Type 0 where
    here : (c : String) (cs : List String) → topic_for_event c ≡ none → Unroutable (c ∷ cs)
    later : (c : String) {cs : List String} → Unroutable cs → Unroutable (c ∷ cs)

  abbrev Outcome : List String → Result (List (String × String)) → Type 0
  Outcome cs (ok pairs) = Routed cs pairs
  Outcome cs (err e) = (e ≡ value_error) × Unroutable cs

  paired-Outcome :
      (c : String) (cs : List String) (topic : Option String)
      (rest : Result (List (String × String)))
      → topic_for_event c ≡ topic
      → Outcome cs rest
      → Outcome (c ∷ cs) (paired event_type topic_for_event make c topic rest)
  paired-Outcome c cs none rest h o = (refl, here c cs h)
  paired-Outcome c cs (some topic) (ok pairs) h o = also c topic h o
  paired-Outcome c cs (some topic) (err e) h (same, o) = (same, later c o)

  pairs_of-Outcome : (cs : List String) → Outcome cs (pairs_of event_type topic_for_event make cs)
  unfolding pairs_of
  pairs_of-Outcome [] = done
  pairs_of-Outcome (c ∷ cs) = paired-Outcome c cs (topic_for_event c) _ refl (pairs_of-Outcome cs)

  -- what a registration comes to
  pub SchemasAdded : FlowMap → Registration E → Result (Unit {0}) × Registration E → Type 0
  SchemasAdded flows r (ok _, r') =
      (pairs : List (String × String)) × Routed (iter_flow_event_classes flows) pairs
      × (r' ≡ record r { schemas = r.schemas ++ pairs })
  SchemasAdded flows r (err e, r') =
      (e ≡ value_error) × Unroutable (iter_flow_event_classes flows) × (r' ≡ r)

  -- Either one schema is registered for each event class of the flows, under its topic and in their
  -- order; or a class has no topic, then it is a `ValueError`, and none is registered.
  pub register-SchemasAdded :
      (flows : FlowMap) (r : Registration E)
      → SchemasAdded flows r
          (register_schema_registry_schemas event_type topic_for_event make flows r)
  unfolding SchemasAdded register_schema_registry_schemas topic_event_schema_pairs
  register-SchemasAdded flows r =
      go (pairs_of event_type topic_for_event make (iter_flow_event_classes flows))
        (pairs_of-Outcome (iter_flow_event_classes flows))
    where
      go :
          (res : Result (List (String × String)))
          → Outcome (iter_flow_event_classes flows) res
          → SchemasAdded flows r (add_schemas event_type topic_for_event make res r)
      go (ok pairs) o = (pairs, o, refl)
      go (err e) (same, o) = (same, o, refl)
