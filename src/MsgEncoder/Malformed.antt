-- ===== src/MsgEncoder/Malformed.antt =====
-- A malformed message, and what it does to a Kafka consumer that reads it with this encoder.
use taas_server_py.Prelude.{ℕ, String, true, false, some, List, ◌∷◌, Dict, ◌≡◌, refl}
use taas_server_py.Exec.{Exn, Result, ok, err}
use taas_server_py.EventProcessor.{BaseEvent}
use taas_server_py.KafkaConsumer.{
  ConsumerRecord, Consumption, Settings, Services, process_message, fetch, run_consuming,
}
use taas_server_py.MsgEncoder.{Encoding, json, EventClass, Message, as_bytes, Codec, decode_msg}

module _ {V I B E : Type 0} (codec : Codec V I B) (registry : Dict EventClass) (base : EventClass)
    (view : Message V I → BaseEvent) where
  abbrev viewed : Result (Message V I) → E → Result BaseEvent × E
  viewed (ok msg) e = (ok (view msg), e)
  viewed (err exn) e = (err exn, e)

  -- the services of a consumer that decodes with the encoder
  abbrev pub decoding : Encoding → Services E B → Services E B
  decoding enc svc = record svc {
    decode = λ topic raw e. viewed (decode_msg codec registry base enc (as_bytes raw)) e;
  }

  -- With JSON, a message whose text is refused by an error that is not `json.JSONDecodeError` ends the
  -- loop of the consumer with this error, whatever messages follow; no later message is committed.
  pub malformed_ends_loop :
      (cfg : Settings) (svc : Services E B) (message : ConsumerRecord B)
      → (messages : List (ConsumerRecord B)) (s : Consumption E) (raw : B) (text : String) (n : ℕ)
      → svc.running s.env ≡ true
      → message.value ≡ some raw
      → codec.decode_utf8 raw ≡ ok text
      → codec.json_decode text ≡ err (Exn.app n)
      → codec.is_json_error (Exn.app n) ≡ false
      → run_consuming cfg (decoding json svc) (message ∷ messages) s
        ≡ (err (Exn.app n), fetch cfg (decoding json svc) message s)
  unfolding run_consuming process_message decode_msg
  malformed_ends_loop cfg svc message messages s raw text n on value utf8 refused unlike =
      rw (on, value, utf8, refused, unlike) refl
