-- ===== src/KafkaConsumer.antt =====
-- libs/messaging_kafka/src/messaging_kafka/aiokafka_messaging.py: the sequential loop of the consumer,
-- what it does with a message, and `send_to_dlq` of libs/foundation's base_messaging.py. The Kafka
-- client, the decoder and the event processor are parameters.
pub mod Bounds
pub mod Letters
use taas_server_py.Prelude.{
  ℕ, ◌+◌, String, Bool, true, false, ◌&&◌, Option, none, some, List, [], ◌∷◌, ◌++◌, leb, str_eq,
  ◌==◌, if◌then◌else◌,
}
use taas_server_py.Exec.{Exn, decoder_error, cancelled, is_exception, Result, ok, err, Action}
use taas_server_py.EventProcessor.{BaseEvent, ProcessingResult, Processing}

pub record ConsumerRecord (B : Type 0) : Type 0 where
  pub topic : String
  pub partition : ℕ
  pub offset : ℕ
  pub value : Option B

pub record DlqEvent : Type 0 where
  pub original_event : BaseEvent
  pub error : String
  pub failed_at : ℕ
  pub retry_count : ℕ

-- the counters of `MessageServiceStats` that the loop changes
pub record Stats : Type 0 where
  pub messages_processed : ℕ
  pub messages_failed : ℕ
  pub messages_retried : ℕ
  pub messages_dlq : ℕ

-- an offset for each partition of each topic
abbrev pub Offsets : Type 0
Offsets = String → ℕ → ℕ

abbrev pub moved : String → ℕ → ℕ → Offsets → Offsets
moved topic partition offset offsets t p =
    if str_eq topic t && (partition == p) then offset else offsets t p

-- the offsets of the next messages and those that are committed, the letters that the dead-letter
-- producer has taken, whose delivery `send` does not wait for, and the surroundings
pub record Consumption (E : Type 0) : Type 0 where
  pub position : Offsets
  pub committed : Offsets
  pub stats : Stats
  pub sent_letters : List DlqEvent
  pub env : E

pub record Settings : Type 0 where
  pub auto_commit : Bool
  pub dlq_enabled : Bool
  pub retry_max_retries : ℕ

-- the decoder, the event processor, `consumer.commit` and `_publish_dlq_event`, which returns when the
-- producer has taken the letter
pub record Services (E B : Type 0) : Type 0 where
  pub decode : String → B → Action E BaseEvent
  pub process_event : Action (Processing E) ProcessingResult
  pub commit : Action E (Unit {0})
  pub publish_dlq : DlqEvent → Action E (Unit {0})
  pub now : E → ℕ
  pub running : E → Bool

-- `except MsgDecoderError`
abbrev pub is_decoder_error : Exn → Bool
is_decoder_error decoder_error = true
is_decoder_error _ = false

-- `except asyncio.CancelledError`
abbrev pub loop_end : Exn → Result (Unit {0})
loop_end cancelled = ok tt
loop_end exn = err exn

abbrev or_unknown : Option String → String
or_unknown none = "Unknown error"
or_unknown (some error) = if str_eq error "" then "Unknown error" else error

module _ {E B : Type 0} (cfg : Settings) (svc : Services E B) where
  abbrev committed_by : Consumption E → Result (Unit {0}) × E → Result (Unit {0}) × Consumption E
  committed_by s (ok _, e) = (ok tt, record s { committed = s.position; env = e })
  committed_by s (err exn, e) = (if is_exception exn then ok tt else err exn, record s { env = e })

  -- `_maybe_commit`: a commit without arguments is one of the position of every partition
  unfoldable pub maybe_commit : Action (Consumption E) (Unit {0})
  maybe_commit s = if cfg.auto_commit then (ok tt, s) else committed_by s (svc.commit s.env)

  abbrev count_processed : Consumption E → Consumption E
  count_processed s = record s {
    stats = record s.stats { messages_processed = s.stats.messages_processed + 1 };
  }

  abbrev count_failed : Consumption E → Consumption E
  count_failed s = record s {
    stats = record s.stats { messages_failed = s.stats.messages_failed + 1 };
  }

  abbrev count_retried : Consumption E → Consumption E
  count_retried s = record s {
    stats = record s.stats { messages_retried = s.stats.messages_retried + 1 };
  }

  abbrev count_dlq : Consumption E → Consumption E
  count_dlq s = record s { stats = record s.stats { messages_dlq = s.stats.messages_dlq + 1 } }

  -- the letter of `send_to_dlq`
  abbrev pub letter_for : BaseEvent → Option String → E → DlqEvent
  letter_for event error e = record {
    original_event = event;
    error = or_unknown error;
    failed_at = svc.now e;
    retry_count = event.retry_count;
  }

  abbrev pub sent :
      DlqEvent → Consumption E → Result (Unit {0}) × E → Result (Unit {0}) × Consumption E
  sent letter s (ok _, e) =
      maybe_commit (count_dlq (record s { sent_letters = s.sent_letters ++ letter ∷ []; env = e }))
  sent letter s (err exn, e) = (err exn, record s { env = e })

  -- the failure path
  unfoldable pub failure_path : BaseEvent → Option String → Action (Consumption E) (Unit {0})
  failure_path event error s =
      if cfg.dlq_enabled && leb cfg.retry_max_retries event.retry_count
      then sent (letter_for event error s.env) s
          (svc.publish_dlq (letter_for event error s.env) s.env)
      else if cfg.dlq_enabled
      then (ok tt, count_retried s)
      else (ok tt, s)

  -- an error that is reported, counted and passed over
  abbrev skip : Action (Consumption E) (Unit {0})
  skip s = maybe_commit (count_failed s)

  -- the surroundings and the retries that the processor has counted
  abbrev pub after_processing : Consumption E → Processing E → Consumption E
  after_processing s p = record s {
    stats = record s.stats { messages_retried = p.messages_retried };
    env = p.env;
  }

  abbrev with_result :
      Consumption E → Result ProcessingResult × Processing E → Result (Unit {0}) × Consumption E
  with_result s (ok result, p) =
      let s' = after_processing s p in
      if result.success
      then maybe_commit (count_processed s')
      else failure_path p.event result.error (count_failed s')
  with_result s (err exn, p) =
      let s' = after_processing s p in if is_exception exn then skip s' else (err exn, s')

  abbrev with_event : Consumption E → Result BaseEvent × E → Result (Unit {0}) × Consumption E
  with_event s (ok event, e) = with_result s (
      svc.process_event
        (record { event = event; messages_retried = s.stats.messages_retried; env = e }))
  with_event s (err exn, e) =
      let s' = record s { env = e } in if is_decoder_error exn then skip s' else (err exn, s')

  abbrev with_value : String → Option B → Action (Consumption E) (Unit {0})
  with_value topic none s = (ok tt, s)
  with_value topic (some raw) s = with_event s (svc.decode topic raw s.env)

  -- `_process_message`
  unfoldable pub process_message : ConsumerRecord B → Action (Consumption E) (Unit {0})
  process_message message = with_value message.topic message.value

  -- the client hands out a message
  abbrev pub fetch : ConsumerRecord B → Consumption E → Consumption E
  fetch message s = record s {
    position = moved message.topic message.partition (message.offset + 1) s.position;
  }

  -- a message is done with; or its error ends the loop
  abbrev pub resume :
      Action (Consumption E) (Unit {0})
      → Result (Unit {0}) × Consumption E
      → Result (Unit {0}) × Consumption E
  resume next (ok _, s) = next s
  resume next (err exn, s) = (loop_end exn, s)

  -- `_run_consuming` with one worker, over the messages that the client hands out
  unfoldable pub run_consuming : List (ConsumerRecord B) → Action (Consumption E) (Unit {0})
  run_consuming [] s = (ok tt, s)
  run_consuming (message ∷ messages) s =
      let next = run_consuming messages in
      let s' = fetch message s in
      if svc.running s.env then resume next (process_message message s') else (ok tt, s')
