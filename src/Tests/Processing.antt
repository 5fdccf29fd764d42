-- ===== src/Tests/Processing.antt =====
-- The event processor of libs/foundation at a concrete event.
use taas_server_py.Prelude.{
  ℕ, ◌+◌, ltb, true, false, none, some, [], refl, arith, if◌then◌else◌, String,
}
use taas_server_py.Exec.{Exn, app, ok, err}
use taas_server_py.EventProcessor.{
  EventProcessorConfig, EventHandler, Processing, ProcessingResult, process_event,
}
use taas_server_py.EventProcessor.Tries.{Tried, process_event-Tried}

abbrev cfg : EventProcessorConfig
cfg = record { retry_enabled = true; enable_metrics = true }

abbrev done : ProcessingResult
done = record {
  event_id = "e1";
  success = true;
  message = "Processed with OK status";
  retry_count = 0;
  processing_time_ms = 0;
  error = none;
  handler_name = none;
}

-- a service that is up again at time 5; a call of it takes two units
abbrev mailer : EventHandler ℕ
mailer = record {
  handler_name = "Mailer";
  handle_event = λ event now. (if ltb now 5 then err (app 1) else ok done, now + 2);
}

abbrev registered : Processing ℕ
registered = record {
  event = record { event_id = "e1"; event_type = "Registered"; retry_count = 0 };
  messages_retried = 0;
  env = 0;
}

abbrev show : Exn → String
show exn = "error"

abbrev wait : ℕ → Processing ℕ → Processing ℕ
wait d p = record p { env = p.env + d }

process_event-Tried_example :
    Tried cfg
      (λ now. now)
      show
      (λ n. n)
      wait
      (λ d p. refl)
      3
      mailer
      registered
      (process_event cfg (λ now. now) show (λ n. n) wait (λ _. false) 3 (some mailer) [] registered)
process_event-Tried_example =
    process_event-Tried cfg (λ now. now) show (λ n. n) wait (λ d p. refl) 3 mailer (some mailer) []
      registered refl (omega arith) refl
