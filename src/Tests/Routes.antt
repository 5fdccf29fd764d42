-- ===== src/Tests/Routes.antt =====
-- The routing over a table in memory, whose commit works, and a Kafka client that notes what it sends.
use taas_server_py.Prelude.{
  String, true, Option, none, some, List, [], ◌∷◌, count, ◌≡◌, refl, arith, sym, ap,
}
use taas_server_py.Exec.{Result, ok, Action}
use taas_server_py.Sql.Model.{list_table, list_table-laws}
use taas_server_py.Outbox.{OutboxRow, OutboxConfig, DomainEvent, is_due, save_event, pending_row}
use taas_server_py.Routing.{
  outbox, RoutingConfig, get_routing_for_channel, Options, Services, Messaging, publish_event,
}
use taas_server_py.Routing.Delivery.{ServicesLaws, Delivered, publish_event-Delivered}
use taas_server_py.Routing.Stored.{outbox_services, outbox_services-laws, routed_due}
use taas_server_py.KafkaProducer.{Client, Producer, publish, publish_args}
use taas_server_py.KafkaProducer.Keys.{through_kafka, ordering_key_lost}

abbrev routing : RoutingConfig
routing = record {
  enabled = true;
  routing_default = outbox;
  direct_channels = "notifications" ∷ [];
  outbox_channels = [];
}

abbrev outbox_config : OutboxConfig
outbox_config = record {
  batch_size = 10;
  max_retries = 3;
  processing_timeout = 30;
  use_skip_locked = true;
}

-- the channels and the keys that were sent
abbrev Sent : Type 0
Sent = List (String × Option String)

abbrev kafka : Client DomainEvent String Sent (Unit {0}) (Unit {0})
kafka = record {
  encode_message = λ channel event e. (event.payload, e);
  encode_utf8 = λ s. s;
  get_propagated_headers = λ e. [];
  send = λ channel kwargs e. (ok tt, (channel, kwargs.key) ∷ e);
  send_and_wait = λ channel kwargs e. (ok tt, (channel, kwargs.key) ∷ e);
  done = λ r. r;
}

abbrev commit_works : List OutboxRow → Action (List OutboxRow) (Unit {0})
commit_works t u = (ok tt, t)

abbrev flush_works : OutboxRow → List OutboxRow → Result (Unit {0})
flush_works row t = ok tt

abbrev services : Services DomainEvent (Producer Sent)
services =
    outbox_services list_table 700 outbox_config "r1" 100 flush_works (λ headers. "{}") commit_works
      (λ event channel options p. (ok tt, p))

abbrev kafka_services : Services DomainEvent (Producer Sent)
kafka_services = through_kafka kafka services

services_laws : ServicesLaws services
services_laws =
    outbox_services-laws list_table 700 outbox_config "r1" 100 flush_works (λ headers. "{}")
      commit_works (λ event channel options p. (ok tt, p)) list_table-laws
      (λ t u v did. sym (ap (λ o. o.1) did)) (λ t u v exn did. cc did)

abbrev paid : DomainEvent
paid = record { event_id = "e1"; event_type = "paid"; class_name = "Paid"; payload = ok "{}" }

abbrev by_key : String → Options
by_key key = record { ordering_key = some key; headers = []; max_retries = none }

abbrev idle : Messaging (List OutboxRow) (Producer Sent)
idle = record {
  main = [];
  session = none;
  open_sessions = 0;
  env = record { ready = true; messages_published = 0; env = [] };
}

sent_without_key :
    (publish_event routing kafka_services paid "notifications" (by_key "a") idle).1.env.env
    ≡ ("notifications", none) ∷ []
unfolding publish_event publish publish_args get_routing_for_channel
sent_without_key = refl

ordering_key_lost_example :
    publish_event routing kafka_services paid "notifications" (by_key "a") idle
    ≡ publish_event routing kafka_services paid "notifications" (by_key "b") idle
unfolding get_routing_for_channel
ordering_key_lost_example =
    ordering_key_lost kafka routing services paid "notifications" (by_key "b") (some "a") idle refl

publish_event-Delivered_example :
    Delivered services services_laws paid "orders"
      (by_key "a")
      idle
      (get_routing_for_channel routing "orders")
      (publish_event routing services paid "orders" (by_key "a") idle)
publish_event-Delivered_example =
    publish_event-Delivered routing services services_laws paid "orders" (by_key "a") idle

routed_due_example :
    count (is_due 700 160) (publish_event routing services paid "orders" (by_key "a") idle).1.main
    ≡ 1
unfolding get_routing_for_channel save_event
routed_due_example =
    routed_due list_table 700 outbox_config "r1" 100 flush_works (λ headers. "{}") commit_works
      (λ event channel options p. (ok tt, p)) list_table-laws routing paid "orders" (by_key "a")
      idle
      (pending_row list_table outbox_config flush_works "r1" 100 paid "{}" "orders" (some "a") "{}"
          none
        ∷ [])
      160 "{}" (λ t u v did. sym (ap (λ o. o.1) did)) refl refl refl refl refl (omega arith)
      (omega arith)
