-- ===== src/Tests/Registration.antt =====
-- The registration of a small flow of events.
use taas_server_py.Prelude.{true, String, Option, some, none, [], ◌∷◌, ◌≡◌, refl, All}
use taas_server_py.Exec.{ok}
use taas_server_py.EventProcessor.{EventHandler, ProcessingResult, get_handler}
use taas_server_py.Flows.{
  EventStep, FlowMap, Registration, contains, classes_of, iter_flow_steps, iter_flow_event_classes,
  register_handlers_from_flows, unseen, pairs_of, topic_event_schema_pairs,
}
use taas_server_py.Flows.Handlers.{last_handler_wins}
use taas_server_py.Flows.Services.{Served, register_handlers-Served}

abbrev signup : EventStep
signup = record {
  event = "UserRegistered";
  handlers = "Welcome" ∷ "Audit" ∷ [];
  emits = "TenantCreated" ∷ "UserRegistered" ∷ [];
}

abbrev flows : FlowMap
flows = ("signup", signup ∷ []) ∷ []

abbrev succeeded : ProcessingResult
succeeded = record {
  event_id = "1";
  success = true;
  message = "";
  retry_count = 0;
  processing_time_ms = 0;
  error = none;
  handler_name = none;
}

abbrev make : String → EventHandler (Unit {0})
make name = record { handler_name = name; handle_event = λ event e. (ok succeeded, e) }

abbrev topic : String → Option String
topic c = some "iam"

abbrev empty : Registration (Unit {0})
empty = record { schemas = []; serializers = []; handlers = [] }

-- the sign-up after another flow
abbrev two_flows : FlowMap
two_flows =
    ("billing", record { event = "Paid"; handlers = "Receipt" ∷ []; emits = [] } ∷ [])
    ∷ ("signup", signup ∷ [])
    ∷ []

last_handler_wins_example :
    get_handler "UserRegistered"
      (register_handlers_from_flows some topic make true two_flows empty).1.handlers
    ≡ some (make "Audit")
unfolding contains register_handlers_from_flows topic_event_schema_pairs iter_flow_event_classes
    iter_flow_steps classes_of pairs_of unseen
last_handler_wins_example =
    last_handler_wins some topic make two_flows
      (record { event = "Paid"; handlers = "Receipt" ∷ []; emits = [] } ∷ []) [] signup
      "UserRegistered" ("Welcome" ∷ []) "Audit" empty refl refl refl refl (refl, tt) tt refl

register_handlers-Served_example :
    All
      (Served some topic make (register_handlers_from_flows some topic make true flows empty).1)
      (iter_flow_steps flows)
unfolding contains register_handlers_from_flows topic_event_schema_pairs iter_flow_event_classes
    iter_flow_steps classes_of pairs_of unseen
register_handlers-Served_example = register_handlers-Served some topic make flows empty refl
