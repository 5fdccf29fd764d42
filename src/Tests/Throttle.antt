-- ===== src/Tests/Throttle.antt =====
-- The log throttle of libs/foundation on concrete records.
use taas_server_py.Prelude.{ℕ, none, List, [], ◌∷◌}
use taas_server_py.LogThrottle.{LogRecord}

abbrev refused : LogRecord
refused = record {
  name = "aiokafka.conn";
  levelno = 40;
  msg = "Unable connect to node";
  note = none;
}

abbrev other : LogRecord
other = record refused { msg = "Closing connection" }

abbrev events : List (ℕ × LogRecord)
events = (1, refused) ∷ (5, refused) ∷ (6, other) ∷ (20, refused) ∷ (70, refused) ∷ []
