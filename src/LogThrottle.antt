-- ===== src/LogThrottle.antt =====
-- libs/foundation/src/foundation/observability/log_throttle.py: `ThrottledLogFilter`. A reading of
-- `time.monotonic` is an argument, and the interval is not negative. The note that is appended to a
-- message is kept apart from its text, as the two numbers that stand in it.
pub mod Groups
pub mod Counts
pub mod Rate
use taas_server_py.Prelude.{
  ℕ, ◌+◌, ◌&&◌, ◌==◌, String, Bool, true, false, Option, none, some, List, [], ◌∷◌, str_eq, ltb,
  leb, max_of, if◌then◌else◌,
}

-- what the filter reads of a `logging.LogRecord`, and its note
pub record LogRecord : Type 0 where
  pub name : String
  pub levelno : ℕ
  pub msg : String
  pub note : Option (ℕ × ℕ)

-- the logger's name, the level and the template
pub record Key : Type 0 where
  pub name : String
  pub levelno : ℕ
  pub msg : String

pub record GroupState : Type 0 where
  pub window_start : ℕ
  pub emitted : ℕ
  pub suppressed : ℕ

pub record ThrottledLogFilter : Type 0 where
  pub burst : ℕ
  pub interval_seconds : ℕ
  pub state : Key → Option GroupState

abbrev pub key_eq : Key → Key → Bool
key_eq a b = str_eq a.name b.name && a.levelno == b.levelno && str_eq a.msg b.msg

abbrev pub key_of : LogRecord → Key
key_of r = record { name = r.name; levelno = r.levelno; msg = r.msg }

-- `self._state[key] = group`
abbrev pub assign : Key → GroupState → (Key → Option GroupState) → Key → Option GroupState
assign key group state k = if key_eq key k then some group else state k

-- `__init__`
pub make_filter : ℕ → ℕ → ThrottledLogFilter
make_filter burst interval_seconds = record {
  burst = max_of 1 burst;
  interval_seconds = interval_seconds;
  state = λ _. none;
}

-- `_annotate_suppressed`
abbrev pub annotate_suppressed : LogRecord → ℕ → ℕ → LogRecord
annotate_suppressed r suppressed interval = record r { note = some (suppressed, interval) }

abbrev pub new_group : ℕ → GroupState
new_group now = record { window_start = now; emitted = 1; suppressed = 0 }

-- the verdict, the record and the new state of its group
abbrev pub filter_group :
    ThrottledLogFilter → ℕ → LogRecord → Option GroupState → Bool × LogRecord × GroupState
filter_group f now r none = (true, r, new_group now)
filter_group f now r (some state) =
    if leb (state.window_start + f.interval_seconds) now
    then (
      true,
      (if state.suppressed == 0
          then r
          else annotate_suppressed r state.suppressed f.interval_seconds),
      new_group now,
    )
    else if ltb state.emitted f.burst
    then (true, r, record state { emitted = state.emitted + 1 })
    else (false, r, record state { suppressed = state.suppressed + 1 })

pub filter : ThrottledLogFilter → ℕ → LogRecord → Bool × LogRecord × ThrottledLogFilter
filter f now r =
    let (emits, r', group) = filter_group f now r (f.state (key_of r)) in
    (emits, r', record f { state = assign (key_of r) group f.state })

pub reset : ThrottledLogFilter → ThrottledLogFilter
reset f = record f { state = λ _. none }

-- The records of a logger, each with the time at which it is logged: what becomes of them.
pub filter_all :
    ThrottledLogFilter → List (ℕ × LogRecord) → List (Bool × LogRecord) × ThrottledLogFilter
unfolding filter
filter_all f [] = ([], f)
filter_all f ((now, r) ∷ rest) =
    let (emits, r', f') = filter f now r in
    let (done, f'') = filter_all f' rest in ((emits, r') ∷ done, f'')
