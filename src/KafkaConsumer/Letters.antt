-- ===== src/KafkaConsumer/Letters.antt =====
-- What becomes of the events that fail: the letters that are sent, and the events that are lost.
use taas_server_py.Prelude.{
  ℕ, ◌+◌, ◌<◌, true, false, some, [], ◌∷◌, ◌++◌, eqb_refl, lt→leb, ◌≡◌, refl, arith, ◌⊎◌, ◌∙◌,
}
use text.Mathlib.TextPositions.{eq_refl}
use taas_server_py.Exec.{Exn, Result, ok, err}
use taas_server_py.EventProcessor.{BaseEvent, ProcessingResult, Processing}
use taas_server_py.KafkaConsumer.{
  ConsumerRecord, DlqEvent, Consumption, Settings, Services, maybe_commit, count_processed,
  count_failed, count_retried, failure_path, after_processing, with_result, process_message, fetch,
  run_consuming,
}

module _ {E : Type 0} where
  -- what a letter of an event that has no retries left comes to
  pub data Settled (s : Consumption E) (letter : DlqEvent)
      : Result (Unit {0}) × Consumption E → Type 0 where
    taken :
        {res : Result (Unit {0})} {t : Consumption E}
        → t.sent_letters ≡ s.sent_letters ++ letter ∷ []
        → t.stats.messages_dlq ≡ s.stats.messages_dlq + 1
        → (t.committed ≡ s.committed) ⊎ (t.committed ≡ s.position)
        → Settled s letter (res, t)
    stopped :
        {exn : Exn} {t : Consumption E}
        → t.sent_letters ≡ s.sent_letters
        → t.stats.messages_dlq ≡ s.stats.messages_dlq
        → t.committed ≡ s.committed
        → Settled s letter (err exn, t)

module _ {E B : Type 0} (cfg : Settings) (svc : Services E B) where
  -- the message is decoded, and the processor returns
  pub record Outcome (message : ConsumerRecord B) (retried : ℕ) (e : E) (result : ProcessingResult)
      (p : Processing E) : Type 0 where
    pub raw : B
    pub event : BaseEvent
    pub decoded_env : E
    pub value : message.value ≡ some raw
    pub decoded : svc.decode message.topic raw e ≡ (ok event, decoded_env)
    pub processed :
        svc.process_event (record { event = event; messages_retried = retried; env = decoded_env })
        ≡ (ok result, p)

  process_message-Outcome :
      (message : ConsumerRecord B) (s : Consumption E) (result : ProcessingResult)
      (p : Processing E)
      → Outcome message s.stats.messages_retried s.env result p
      → process_message cfg svc message s ≡ with_result cfg svc s (ok result, p)
  unfolding process_message
  process_message-Outcome message s result p o = rw (o.value, o.decoded, o.processed) refl

  -- the state after a failed result that is counted as a retry
  below_limit :
      (message : ConsumerRecord B) (s : Consumption E) (result : ProcessingResult)
      (p : Processing E)
      → Outcome message s.stats.messages_retried s.env result p
      → result.success ≡ false
      → cfg.dlq_enabled ≡ true
      → p.event.retry_count < cfg.retry_max_retries
      → process_message cfg svc message s
        ≡ (ok tt, count_retried cfg svc (count_failed cfg svc (after_processing cfg svc s p)))
  unfolding failure_path
  below_limit message s result p o failed enabled low =
      process_message-Outcome message s result p o
      ∙ rw (failed, enabled, lt→leb cfg.retry_max_retries p.event.retry_count low) refl

  success_commits :
      (message : ConsumerRecord B) (s : Consumption E) (result : ProcessingResult)
      (p : Processing E) (e : E)
      → Outcome message s.stats.messages_retried s.env result p
      → result.success ≡ true
      → cfg.auto_commit ≡ false
      → svc.commit p.env ≡ (ok tt, e)
      → process_message cfg svc message s ≡ (
        ok tt,
        record (count_processed cfg svc (after_processing cfg svc s p)) {
          committed = s.position;
          env = e;
        },
      )
  unfolding maybe_commit
  success_commits message s result p e o succeeded manual works =
      process_message-Outcome message s result p o ∙ rw (succeeded, manual, works) refl

  abbrev skipped : ConsumerRecord B → Consumption E → Processing E → Consumption E
  skipped message s p =
      count_retried cfg svc
        (count_failed cfg svc (after_processing cfg svc (fetch cfg svc message s) p))

  -- With manual commits, a message whose result is a failure below the limit of retries, and a later one
  -- of its partition that comes next, succeeds and is committed: the committed offset of the partition is
  -- past both messages, and no letter has been sent for the first.
  pub failed_message_skipped :
      (first second : ConsumerRecord B) (s : Consumption E) (bad good : ProcessingResult)
      → (p q : Processing E) (e : E) → second.topic ≡ first.topic
      → second.partition ≡ first.partition
      → first.offset < second.offset
      → cfg.auto_commit ≡ false
      → cfg.dlq_enabled ≡ true
      → svc.running s.env ≡ true
      → Outcome first s.stats.messages_retried s.env bad p
      → bad.success ≡ false
      → p.event.retry_count < cfg.retry_max_retries
      → svc.running p.env ≡ true
      → Outcome second (p.messages_retried + 1) p.env good q
      → good.success ≡ true
      → svc.commit q.env ≡ (ok tt, e)
      → (run_consuming cfg svc (first ∷ second ∷ []) s).0 ≡ ok tt
        × (run_consuming cfg svc (first ∷ second ∷ []) s).1.committed first.topic first.partition
          ≡ second.offset + 1
        × first.offset
          < (run_consuming cfg svc (first ∷ second ∷ []) s).1.committed first.topic first.partition
        × (run_consuming cfg svc (first ∷ second ∷ []) s).1.sent_letters ≡ s.sent_letters
  unfolding run_consuming
  failed_message_skipped first second s bad good p q e topic partition later manual enabled on one
        fails low on_still two succeeds done =
      rw (on, below_limit first (fetch cfg svc first s) bad p one fails enabled low)
        (rw
          (
            on_still,
            success_commits second (fetch cfg svc second (skipped first s p)) good q e two succeeds
                manual done,
          )
          rw (topic, partition, eq_refl first.topic, eqb_refl first.partition)
          (refl, refl, omega (arith, later), refl))
