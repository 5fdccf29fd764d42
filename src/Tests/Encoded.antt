-- ===== src/Tests/Encoded.antt =====
-- The encoder with values that are texts or dates, and codecs that know one event.
use taas_server_py.Prelude.{
  ℕ, String, true, false, Option, none, some, [], ◌∷◌, Dict, lookup, str_eq, if◌then◌else◌, ◌≡◌,
  refl, subst, inl,
}
use taas_server_py.Exec.{app, Result, ok, err, ok_same}
use taas_server_py.KafkaConsumer.{run_consuming, Services, moved, ConsumerRecord}
use taas_server_py.MsgEncoder.{
  json, EventClass, Data, dict, instance_of, as_bytes, Codec, encode_msg, decode_msg, msgpack, Wire,
  reconstruct_event, filtered,
}
use taas_server_py.MsgEncoder.RoundTrip.{Carried, Registered, WireLaw, decode_msg-encode_msg}
use taas_server_py.MsgEncoder.Malformed.{decoding, malformed_ends_loop}
use taas_server_py.Tests.Consumption.{client, settings, at_start, event_of}

data Value : Type 0 where
  word : String → Value
  date : ℕ → Value

-- what a byte string holds: values that were packed, or a text
data Bytes : Type 0 where
  packed : Data Value → Bytes
  utf8 : String → Bytes

abbrev word_of : Value → Option String
word_of (word s) = some s
word_of (date n) = none

abbrev order_class : EventClass
order_class = record {
  name = "Order";
  field_types = ("m_serializer", false) ∷ ("placed", true) ∷ [];
}

abbrev order : Dict Value
order = ("m_serializer", word "order_serializer") ∷ ("placed", date 9) ∷ []

abbrev unpacked_from : Wire Bytes → Result (Data Value)
unpacked_from (as_bytes (packed fields)) = ok fields
unpacked_from _ = err (app 2)

abbrev text_in : Bytes → Result String
text_in (utf8 s) = ok s
text_in _ = err (app 3)

-- MsgPack keeps dates; JSON reads the text of the order alone
abbrev codec : Codec Value (Dict Value) Bytes
codec = record {
  is_none = λ v. false;
  is_hashable = λ v. true;
  as_text = word_of;
  fromisoformat = λ s. if str_eq s "2026-01-01" then some (date 9) else none;
  construct = λ cls fields. ok fields;
  as_dict = λ event. event;
  pack = λ value. ok (packed value);
  unpack = unpacked_from;
  json_encode = λ value. ok (utf8 "<order>");
  json_decode = λ s.
      if str_eq s "<order>"
      then ok
          (dict (("m_serializer", word "order_serializer") ∷ ("placed", word "2026-01-01") ∷ []))
      else err (app 1);
  decode_utf8 = text_in;
  is_json_error = λ exn. false;
}

abbrev registry : Dict EventClass
registry = ("order_serializer", order_class) ∷ []

abbrev base_class : EventClass
base_class = record { name = "BaseEvent"; field_types = [] }

order-WireLaw : WireLaw codec registry base_class msgpack (λ v. v) order
unfolding WireLaw
order-WireLaw b written =
    subst (λ b. unpacked_from (as_bytes b) ≡ ok (dict order)) (ok_same written) refl

order-Registered : Registered codec registry base_class (λ v. v) order_class order
unfolding lookup Carried
order-Registered = record {
  name = "order_serializer";
  serializer = word "order_serializer";
  present = refl;
  not_none = refl;
  hashable = refl;
  is_text = refl;
  not_empty = refl;
  registered = refl;
  carried = (refl, (inl (refl, refl), tt));
  constructs = refl;
}

decode_msg-encode_msg_example :
    decode_msg codec registry base_class msgpack (as_bytes (packed (dict order)))
    ≡ ok (instance_of order)
unfolding encode_msg
decode_msg-encode_msg_example =
    decode_msg-encode_msg codec registry base_class (λ v. v) msgpack order_class order
      (packed (dict order)) order-WireLaw order-Registered refl

-- in JSON the date comes as a text
json_date_read :
    decode_msg codec registry base_class json (as_bytes (utf8 "<order>")) ≡ ok (instance_of order)
unfolding decode_msg reconstruct_event filtered lookup
json_date_read = refl

abbrev bytes_at : ℕ → String → ConsumerRecord Bytes
bytes_at offset s = record {
  topic = "orders";
  partition = 0;
  offset = offset;
  value = some (utf8 s);
}

abbrev byte_client : Services ℕ Bytes
byte_client = record {
  decode = λ topic raw e. (ok (event_of "good"), e);
  process_event = client.process_event;
  commit = client.commit;
  publish_dlq = client.publish_dlq;
  now = client.now;
  running = client.running;
}

malformed_ends_loop_example :
    run_consuming
      (settings 1)
      (decoding codec registry base_class (λ msg. event_of "good") json byte_client)
      (bytes_at 4 "{" ∷ bytes_at 5 "<order>" ∷ [])
      at_start
    ≡ (err (app 1), record at_start { position = moved "orders" 0 5 at_start.position })
malformed_ends_loop_example =
    malformed_ends_loop codec registry base_class (λ msg. event_of "good") (settings 1) byte_client
      (bytes_at 4 "{") (bytes_at 5 "<order>" ∷ []) at_start (utf8 "{") "{" 1 refl refl refl refl
      refl
