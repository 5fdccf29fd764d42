-- ===== src/Tests/Consumption.antt =====
-- The Kafka consumer with a client whose commits work and a queue that is down when its clock is 9.
use taas_server_py.Prelude.{
  ℕ, ◌+◌, String, true, false, Option, none, some, List, [], ◌∷◌, length, str_eq, if◌then◌else◌,
  ◌==◌, ◌≡◌, refl, arith, ◌<◌,
}
use taas_server_py.Exec.{app, decoder_error, ok, err}
use taas_server_py.EventProcessor.{BaseEvent, ProcessingResult, Processing}
use taas_server_py.KafkaConsumer.{
  ConsumerRecord, Consumption, Settings, Services, maybe_commit, failure_path, process_message,
  run_consuming,
}
use taas_server_py.KafkaConsumer.Bounds.{Sound, Ordered, run_consuming-Sound}
use taas_server_py.KafkaConsumer.Letters.{failed_message_skipped}

abbrev pub event_of : String → BaseEvent
event_of raw = record { event_id = raw; event_type = "order"; retry_count = 1 }

abbrev result_of : BaseEvent → ProcessingResult
result_of event = record {
  event_id = event.event_id;
  success = str_eq event.event_id "good";
  message = "";
  retry_count = event.retry_count;
  processing_time_ms = 1;
  error = none;
  handler_name = none;
}

abbrev pub client : Services ℕ String
client = record {
  decode = λ topic raw e. if str_eq raw "x" then (err decoder_error, e) else (ok (event_of raw), e);
  process_event = λ p. (ok (result_of p.event), record p { env = p.env + 1 });
  commit = λ e. (ok tt, e);
  publish_dlq = λ letter e. if e == 9 then (err (app 0), e) else (ok tt, e);
  now = λ e. e;
  running = λ e. true;
}

abbrev pub settings : ℕ → Settings
settings limit = record { auto_commit = false; dlq_enabled = true; retry_max_retries = limit }

abbrev pub message_at : ℕ → Option String → ConsumerRecord String
message_at offset value = record { topic = "orders"; partition = 0; offset = offset; value = value }

abbrev pub at_start : Consumption ℕ
at_start = record {
  position = λ topic p. 4;
  committed = λ topic p. 4;
  stats = record {
    messages_processed = 0;
    messages_failed = 0;
    messages_retried = 0;
    messages_dlq = 0;
  };
  sent_letters = [];
  env = 0;
}

abbrev batch : List (ConsumerRecord String)
batch =
    message_at 4 (some "good")
    ∷ message_at 6 (some "x")
    ∷ message_at 7 none
    ∷ message_at 8 (some "late")
    ∷ []

abbrev after_batch : Consumption ℕ
after_batch = (run_consuming (settings 1) client batch at_start).1

batch_commits : after_batch.committed "orders" 0 ≡ 9
unfolding run_consuming process_message maybe_commit failure_path
batch_commits = refl

run_consuming-Sound_example : Sound (length batch) at_start after_batch
unfolding Ordered
run_consuming-Sound_example =
    run_consuming-Sound (settings 1) client batch at_start (λ topic p. omega arith)
      (omega arith, (omega arith, (omega arith, (omega arith, tt))))

abbrev processed_by : String → ℕ → ℕ → Processing ℕ
processed_by raw retried e = record { event = event_of raw; messages_retried = retried; env = e }

abbrev one_batch : List (ConsumerRecord String)
one_batch = message_at 4 (some "late") ∷ message_at 5 (some "good") ∷ []

failed_message_skipped_example :
    (run_consuming (settings 3) client one_batch at_start).0 ≡ ok tt
    × (run_consuming (settings 3) client one_batch at_start).1.committed "orders" 0 ≡ 6
    × 4 < (run_consuming (settings 3) client one_batch at_start).1.committed "orders" 0
    × (run_consuming (settings 3) client one_batch at_start).1.sent_letters ≡ []
failed_message_skipped_example =
    failed_message_skipped (settings 3) client (message_at 4 (some "late"))
      (message_at 5 (some "good")) at_start (result_of (event_of "late"))
      (result_of (event_of "good")) (processed_by "late" 0 1) (processed_by "good" 1 2) 2 refl refl
      (omega arith) refl refl refl
      (record {
        raw = "late";
        event = event_of "late";
        decoded_env = 0;
        value = refl;
        decoded = refl;
        processed = refl;
      })
      refl (omega arith) refl
      (record {
        raw = "good";
        event = event_of "good";
        decoded_env = 1;
        value = refl;
        decoded = refl;
        processed = refl;
      })
      refl refl
