-- ===== src/KafkaProducer/Keys.antt =====
-- The keys of messages that other parts publish through the Kafka service.
use taas_server_py.Prelude.{String, Option, ◌≡◌, refl}
use taas_server_py.Exec.{Result, ok, err}
use taas_server_py.Routing.{
  direct, RoutingConfig, get_routing_for_channel, Options, Services, Messaging, publish_event,
}
use taas_server_py.KafkaProducer.{Client, Producer, publish, publish_args}

module _ {M B E F R : Type 0} (client : Client M B E F R) where
  abbrev discard : Result F × Producer E → Result (Unit {0}) × Producer E
  discard (ok _, p) = (ok tt, p)
  discard (err exn, p) = (err exn, p)

  -- the routing with the Kafka service as its broker
  abbrev pub through_kafka : Services M (Producer E) → Services M (Producer E)
  through_kafka svc = record svc {
    publish = λ event channel options p.
        discard (
          publish client (publish_args client event channel options.headers options.ordering_key)
            p);
  }

  -- An event that is routed directly to the Kafka service: its ordering key makes no difference, neither
  -- to the messages that are sent nor to the result.
  pub ordering_key_lost :
      (cfg : RoutingConfig) (svc : Services M (Producer E)) (event : M) (channel : String)
      → (options : Options) (key : Option String) (s : Messaging svc.Tbl (Producer E))
      → get_routing_for_channel cfg channel ≡ direct
      → publish_event cfg
          (through_kafka svc)
          event
          channel
          (record options { ordering_key = key })
          s
        ≡ publish_event cfg (through_kafka svc) event channel options s
  unfolding publish_event publish publish_args
  ordering_key_lost cfg svc event channel options key s routed = rw (routed) refl
