-- ===== src/KafkaProducer.antt =====
-- libs/messaging_kafka/src/messaging_kafka: `publish` of
-- aiokafka_messaging.py, and the headers of aiokafka_helper.py. The Kafka client, the encoder and
-- tracing are parameters; `correlation_id` and `reply_to`, which are only logged, are left out.
pub mod Keys
use taas_server_py.Prelude.{
  ℕ, ◌+◌, String, Bool, true, false, Option, none, some, List, [], ◌∷◌, ◌++◌, if◌then◌else◌, str_eq,
}
use taas_server_py.Exec.{Exn, runtime_error, Result, ok, err, Action}

-- what a caller may pass as the key of a message
pub data Key (B : Type 0) : Type 0 where
  text : String → Key B
  bytes : B → Key B
  other_key : Key B

-- the arguments of `publish`; `kwargs` takes the keywords that it has no parameter for
pub record PublishArgs (M B : Type 0) : Type 0 where
  pub channel : String
  pub message : M
  pub key : Option (Key B)
  pub timestamp_ms : Option ℕ
  pub headers : List (String × Option String)
  pub partition : Option ℕ
  pub no_confirm : Bool
  pub kwargs : List (String × Option String)

-- `send_kwargs`, of a message in bytes `B`
pub record SendKwargs (B : Type 0) : Type 0 where
  pub value : B
  pub headers : List (String × B)
  pub key : Option B
  pub partition : Option ℕ
  pub timestamp_ms : Option ℕ

-- a future of the client, `F`, and what comes of it, `R`
pub record Client (M B E F R : Type 0) : Type 0 where
  pub encode_message : String → M → Action E B
  pub encode_utf8 : String → B
  pub get_propagated_headers : E → List (String × B)
  pub send : String → SendKwargs B → Action E F
  pub send_and_wait : String → SendKwargs B → Action E R
  pub done : R → F

pub record Producer (E : Type 0) : Type 0 where
  pub ready : Bool
  pub messages_published : ℕ
  pub env : E

module _ {M B E F R : Type 0} (client : Client M B E F R) where
  -- the headers that have a value
  unfoldable pub to_aiokafka_headers : List (String × Option String) → List (String × B)
  to_aiokafka_headers [] = []
  to_aiokafka_headers ((name, none) ∷ headers) = to_aiokafka_headers headers
  to_aiokafka_headers ((name, some value) ∷ headers) =
      (name, client.encode_utf8 value) ∷ to_aiokafka_headers headers

  abbrev kafka_headers : List (String × Option String) → E → List (String × B)
  kafka_headers [] e = client.get_propagated_headers e
  kafka_headers (h ∷ headers) e = to_aiokafka_headers (h ∷ headers)

  abbrev key_bytes : Option (Key B) → Option B
  key_bytes (some (text key)) = some (client.encode_utf8 key)
  key_bytes (some (bytes key)) = some key
  key_bytes _ = none

  abbrev send_kwargs : PublishArgs M B → B → E → SendKwargs B
  send_kwargs args encoded e = record {
    value = encoded;
    headers = kafka_headers args.headers e;
    key = key_bytes args.key;
    partition = args.partition;
    timestamp_ms = args.timestamp_ms;
  }

  abbrev count_published :
      {A : Type 0} → (A → F) → Producer E → Result A × E → Result F × Producer E
  count_published future p (ok a, e) =
      (ok (future a), record p { messages_published = p.messages_published + 1; env = e })
  count_published future p (err exn, e) = (err exn, record p { env = e })

  abbrev send_encoded : PublishArgs M B → Producer E → Result B × E → Result F × Producer E
  send_encoded args p (ok encoded, e) =
      let kwargs = send_kwargs args encoded e in
      if args.no_confirm
      then count_published (λ f. f) p (client.send args.channel kwargs e)
      else count_published client.done p (client.send_and_wait args.channel kwargs e)
  send_encoded args p (err exn, e) = (err exn, record p { env = e })

  -- `publish`
  unfoldable pub publish : PublishArgs M B → Action (Producer E) F
  publish args p =
      if p.ready
      then send_encoded args p (client.encode_message args.channel args.message p.env)
      else (err runtime_error, p)

  -- the call of `publish` that the routing, the outbox and the scheduler make
  unfoldable pub publish_args :
      M → String → List (String × Option String) → Option String → PublishArgs M B
  publish_args message channel headers ordering_key = record {
    channel = channel;
    message = message;
    key = none;
    timestamp_ms = none;
    headers = headers;
    partition = none;
    no_confirm = false;
    kwargs = ("ordering_key", ordering_key) ∷ [];
  }
