-- ===== src/EventProcessor.antt =====
-- libs/foundation/src/foundation/messaging/events: event_processor.py, and the registry of
-- event_handler.py. A handler acts on the surroundings; tracing and logging are not modelled.
pub mod Tries
pub mod Registry
use taas_server_py.Prelude.{
  ℕ, ◌+◌, ◌-◌, ◌++◌, String, Bool, true, false, not, Option, none, some, Dict, lookup, insert, keep,
  map, length, List, str_eq, if◌then◌else◌, remove,
}
use Prim.Native.String.{◌++◌ as ◌<>◌}
use taas_server_py.Exec.{Exn, is_exception, Result, ok, err, Action}
use taas_server_py.Retry.{execute_tenacity_async}

-- what is read of a `BaseEvent`
pub record BaseEvent : Type 0 where
  pub event_id : String
  pub event_type : String
  pub retry_count : ℕ

-- `success` of `None` is falsy, like `False`
pub record ProcessingResult : Type 0 where
  pub event_id : String
  pub success : Bool
  pub message : String
  pub retry_count : ℕ
  pub processing_time_ms : ℕ
  pub error : Option String
  pub handler_name : Option String

pub record EventProcessorConfig : Type 0 where
  pub retry_enabled : Bool
  pub enable_metrics : Bool

-- the event, the counter `messages_retried` and the surroundings
pub record Processing (E : Type 0) : Type 0 where
  pub event : BaseEvent
  pub messages_retried : ℕ
  pub env : E

pub record EventHandler (E : Type 0) : Type 0 where
  pub handler_name : String
  pub handle_event : BaseEvent → Action E ProcessingResult

-- `HandlerRegistry`
module _ {E : Type 0} where
  pub register : String → EventHandler E → Dict (EventHandler E) → Dict (EventHandler E)
  register = insert

  pub unregister : String → Dict (EventHandler E) → Dict (EventHandler E)
  unregister = remove

  pub get_handler : String → Dict (EventHandler E) → Option (EventHandler E)
  get_handler = lookup

-- `clock` is `time.time` in milliseconds, `show` is `str` of an exception
module _ {E : Type 0} (cfg : EventProcessorConfig) (clock : E → ℕ) (show : Exn → String) where
  -- one more retry is counted
  abbrev pub count_retry : Processing E → Processing E
  count_retry p = record p {
    event = record p.event { retry_count = p.event.retry_count + 1 };
    messages_retried = if cfg.enable_metrics then p.messages_retried + 1 else p.messages_retried;
  }

  abbrev timed : EventHandler E → ℕ → E → ProcessingResult → ProcessingResult
  timed handler start e result = record result {
    processing_time_ms = clock e - start;
    handler_name = some handler.handler_name;
  }

  abbrev handled :
      EventHandler E
      → ℕ
      → Processing E
      → Result ProcessingResult × E
      → Result ProcessingResult × Processing E
  handled handler start p (ok result, e) =
      let p' = record p { env = e } in
      (ok (timed handler start e result), if result.success then p' else count_retry p')
  handled handler start p (err exn, e) =
      let p' = record p { env = e } in (err exn, if is_exception exn then count_retry p' else p')

  -- `process_event_with_handler`
  pub process_event_with_handler : EventHandler E → ℕ → Action (Processing E) ProcessingResult
  process_event_with_handler handler start p =
      handled handler start p (handler.handle_event p.event p.env)

  abbrev not_found : BaseEvent → ProcessingResult
  not_found event = record {
    event_id = event.event_id;
    success = false;
    message = "Handler not found";
    retry_count = 0;
    processing_time_ms = 0;
    error = some ("No handler for event type: " <> event.event_type);
    handler_name = none;
  }

  -- the result for an exception that is left
  abbrev pub failure : EventHandler E → ℕ → Exn → Processing E → ProcessingResult
  failure handler start exn p = record {
    event_id = p.event.event_id;
    success = false;
    message = "Failed";
    retry_count = p.event.retry_count;
    processing_time_ms = clock p.env - start;
    error = some (show exn);
    handler_name = some handler.handler_name;
  }

  -- `except Exception`
  abbrev pub caught :
      EventHandler E
      → ℕ
      → Result ProcessingResult × Processing E
      → Result ProcessingResult × Processing E
  caught handler start (ok result, p) = (ok result, p)
  caught handler start (err exn, p) =
      if is_exception exn then (ok (failure handler start exn p), p) else (err exn, p)

  module _ {D : Type 0} (delay_of : ℕ → D) (sleep : D → Processing E → Processing E)
      (task_cancelled : Processing E → Bool) (max_attempts : ℕ) where
    abbrev pub tried : EventHandler E → ℕ → Action (Processing E) ProcessingResult
    tried handler start =
        if cfg.retry_enabled
        then execute_tenacity_async delay_of sleep task_cancelled max_attempts none
            (process_event_with_handler handler start)
        else process_event_with_handler handler start

    abbrev process_with : Option (EventHandler E) → Action (Processing E) ProcessingResult
    process_with none p = (ok (not_found p.event), p)
    process_with (some handler) p = caught handler (clock p.env) (tried handler (clock p.env) p)

    abbrev pub or_registered :
        Option (EventHandler E) → Dict (EventHandler E) → String → Option (EventHandler E)
    or_registered (some handler) handlers event_type = some handler
    or_registered none handlers event_type = get_handler event_type handlers

    pub process_event :
        Option (EventHandler E) → Dict (EventHandler E) → Action (Processing E) ProcessingResult
    unfolding process_event_with_handler get_handler
    process_event handler handlers p =
        process_with (or_registered handler handlers p.event.event_type) p
