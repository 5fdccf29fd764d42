-- ===== src/Tests/Letters.antt =====
-- The dead-letter queues of libs/resiliant and libs/foundation at concrete contents.
use taas_server_py.Prelude.{
  String, ℕ, ◌+◌, true, Option, none, some, List, [], ◌∷◌, ◌≡◌, refl, arith, str_eq_iff, str_eq,
  if◌then◌else◌,
}
use taas_server_py.Exec.{ok, Action}
use taas_server_py.Sql.Keys.{IsKeyed}
use taas_server_py.Dlq.{DlqRow, DeadLetterConfig, pending, DeadLetterMessage, Store}
use taas_server_py.Dlq.Replay.{StoreLaws}

abbrev letter : DlqRow
letter = record {
  id = "a";
  event_id = "e1";
  event_type = "Created";
  handler_name = "OrderHandler";
  source_destination = none;
  source_service = none;
  payload = "{}";
  headers = "{}";
  status = pending;
  retry_count = 1;
  max_retries = 3;
  original_error = "down";
  last_error = none;
  correlation_id = none;
  user_id = none;
  tenant_id = none;
  failed_at = 10;
  created_at = 10;
  updated_at = 10;
  processed_at = none;
}

abbrev letters : List DlqRow
letters = letter ∷ record letter { id = "b" } ∷ []

abbrev cfg : DeadLetterConfig
cfg = record { batch_size = 10; page_size = 50; max_retries = 3; use_skip_locked = true }

letters-IsKeyed : IsKeyed (λ r. r.id) letters
letters-IsKeyed k = ground (arith, str_eq_iff "a" k, str_eq_iff "b" k, a_b)
  where
    a_b : ¬ (◌≡◌ {A = String} "a" "b")
    a_b e = cc ((str_eq_iff "a" "b").1 e)

abbrev failures : List (String × ℕ)
failures = ("timeout", 20) ∷ ("timeout", 30) ∷ []

-- messages by their ids, and a count of what was sent
abbrev Mail : Type 0
Mail = (String → Option DeadLetterMessage) × ℕ

abbrev mail_store : Store Mail
mail_store = record {
  enqueue = λ m e. (ok tt, ((λ j. if str_eq m.id j then some m else e.0 j), e.1));
  get = λ id e. (ok (e.0 id), e);
  delete = λ id e. (ok tt, ((λ j. if str_eq id j then none else e.0 j), e.1));
}

mail_store-laws : StoreLaws mail_store
mail_store-laws = record {
  contents = λ e. e.0;
  get-contents = λ id e. refl;
  delete_ok = λ id e. refl;
  delete-contents = λ id j e. refl;
}

abbrev send : DeadLetterMessage → Action Mail (Unit {0})
send m e = (ok tt, (e.0, e.1 + 1))

abbrev message : DeadLetterMessage
message = record {
  id = "m";
  source = "orders";
  payload = "{}";
  headers = "{}";
  error = "down";
  attempts = 1;
  enqueued_at = 10;
  original_message_id = none;
}

abbrev mailbox : Mail
mailbox = ((λ j. if str_eq "m" j then some message else none), 0)
