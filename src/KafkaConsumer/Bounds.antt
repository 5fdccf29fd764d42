-- ===== src/KafkaConsumer/Bounds.antt =====
-- What the consumer's offsets and counters keep.
use taas_server_py.Prelude.{
  str_eq, str_eq_iff, Bool-cases, ◌==◌, ℕ, ◌+◌, ◌≤◌, String, ◌&&◌, Option, none, some, List, [],
  ◌∷◌, length, length-append, leb, ◌≡◌, refl, arith, inl, inr, ◌⊎◌, sym, subst, ap, ◌∙◌, if-intro,
  suc,
}
use taas_server_py.Exec.{is_exception, Result, ok, err, Action}
use taas_server_py.EventProcessor.{BaseEvent, ProcessingResult, Processing}
use taas_server_py.KafkaConsumer.{
  ConsumerRecord, DlqEvent, Consumption, Settings, Services, is_decoder_error, committed_by,
  maybe_commit, count_retried, letter_for, sent, failure_path, with_result, with_event, with_value,
  process_message, fetch, Offsets, moved, resume, run_consuming,
}

module _ {E : Type 0} where
  -- what a commit may change
  pub record Commits (s t : Consumption E) : Type 0 where
    pub position : t.position ≡ s.position
    pub stats : t.stats ≡ s.stats
    pub sent_letters : t.sent_letters ≡ s.sent_letters
    pub committed : (t.committed ≡ s.committed) ⊎ (t.committed ≡ s.position)

  -- what is done with one message: the position stays, at most one more message is counted, and the
  -- letters that are counted are those that were sent, each for a failed message
  pub record Handled (s t : Consumption E) : Type 0 where
    pub position : t.position ≡ s.position
    pub committed : (t.committed ≡ s.committed) ⊎ (t.committed ≡ s.position)
    pub counted :
        t.stats.messages_processed + t.stats.messages_failed
        ≤ s.stats.messages_processed + s.stats.messages_failed + 1
    pub letters :
        t.stats.messages_dlq + length s.sent_letters ≡ s.stats.messages_dlq + length t.sent_letters
    pub for_failed :
        t.stats.messages_dlq + s.stats.messages_failed
        ≤ t.stats.messages_failed + s.stats.messages_dlq

  abbrev CommitsBy : Consumption E → Result (Unit {0}) × Consumption E → Type 0
  CommitsBy s (res, t) = Commits s t

  abbrev HandledBy : Consumption E → Result (Unit {0}) × Consumption E → Type 0
  HandledBy s (res, t) = Handled s t

  -- what holds after a loop: each commit is within what was fetched, no message is counted twice, and the
  -- letters that are counted are those that were sent, each for a failed message
  pub record Sound (n : ℕ) (s t : Consumption E) : Type 0 where
    pub within : (topic : String) (p : ℕ) → t.committed topic p ≤ t.position topic p
    pub forward : (topic : String) (p : ℕ) → s.position topic p ≤ t.position topic p
    pub counted :
        t.stats.messages_processed + t.stats.messages_failed
        ≤ s.stats.messages_processed + s.stats.messages_failed + n
    pub letters :
        t.stats.messages_dlq + length s.sent_letters ≡ s.stats.messages_dlq + length t.sent_letters
    pub for_failed :
        t.stats.messages_dlq + s.stats.messages_failed
        ≤ t.stats.messages_failed + s.stats.messages_dlq

module _ {B : Type 0} where
  -- the messages that the client hands out of each partition from an offset on
  unfoldable pub Ordered : Offsets → List (ConsumerRecord B) → Type 0
  Ordered from [] = Unit
  Ordered from (message ∷ messages) =
      (from message.topic message.partition ≤ message.offset)
      × Ordered (moved message.topic message.partition (message.offset + 1) from) messages

module _ {E B : Type 0} (cfg : Settings) (svc : Services E B) where
  committed_by-Commits :
      (s : Consumption E) (out : Result (Unit {0}) × E) → Commits s (committed_by cfg svc s out).1
  committed_by-Commits s (ok _, e) = record {
    position = refl;
    stats = refl;
    sent_letters = refl;
    committed = inr refl;
  }
  committed_by-Commits s (err exn, e) = record {
    position = refl;
    stats = refl;
    sent_letters = refl;
    committed = inl refl;
  }

  pub maybe_commit-Commits : (s : Consumption E) → Commits s (maybe_commit cfg svc s).1
  unfolding maybe_commit
  maybe_commit-Commits s =
      if-intro (CommitsBy s) cfg.auto_commit _ _
        (λ _. record { position = refl; stats = refl; sent_letters = refl; committed = inl refl })
        (λ _. committed_by-Commits s (svc.commit s.env))

  -- a state in which only the counters, the letters and the surroundings have changed
  commit_after-Handled :
      (s u : Consumption E)
      → u.position ≡ s.position
      → u.committed ≡ s.committed
      → u.stats.messages_processed + u.stats.messages_failed
        ≤ s.stats.messages_processed + s.stats.messages_failed + 1
      → u.stats.messages_dlq + length s.sent_letters ≡ s.stats.messages_dlq + length u.sent_letters
      → u.stats.messages_dlq + s.stats.messages_failed
        ≤ u.stats.messages_failed + s.stats.messages_dlq
      → Handled s (maybe_commit cfg svc u).1
  commit_after-Handled s u at was counted letters for_failed =
      let c = maybe_commit-Commits u in
      record {
        position = c.position ∙ at;
        committed = elim c.committed [ inl h ↦ inl (h ∙ was) | inr h ↦ inr (h ∙ at) ];
        counted = rw c.stats counted;
        letters = rw (c.stats, c.sent_letters) letters;
        for_failed = rw c.stats for_failed;
      }

  -- one message more has failed
  failed-Handled :
      (s u : Consumption E)
      → u.position ≡ s.position
      → u.committed ≡ s.committed
      → u.stats.messages_processed ≡ s.stats.messages_processed
      → u.stats.messages_failed ≡ s.stats.messages_failed + 1
      → u.stats.messages_dlq ≡ s.stats.messages_dlq
      → u.sent_letters ≡ s.sent_letters
      → Handled s u
  failed-Handled s u at was processed failed dlq dead = record {
    position = at;
    committed = inl was;
    counted = omega (arith, processed, failed);
    letters = omega (arith, dlq, ap length dead);
    for_failed = omega (arith, dlq, failed);
  }

  sent-Handled :
      (s u : Consumption E) (letter : DlqEvent) (out : Result (Unit {0}) × E)
      → u.position ≡ s.position
      → u.committed ≡ s.committed
      → u.stats.messages_processed ≡ s.stats.messages_processed
      → u.stats.messages_failed ≡ s.stats.messages_failed + 1
      → u.stats.messages_dlq ≡ s.stats.messages_dlq
      → u.sent_letters ≡ s.sent_letters
      → Handled s (sent cfg svc letter u out).1
  sent-Handled s u letter (ok _, e) at was processed failed dlq dead =
      commit_after-Handled s _ at was (omega (arith, processed, failed))
        (omega (arith, dlq, length-append u.sent_letters (letter ∷ []), ap length dead))
        (omega (arith, dlq, failed))
  sent-Handled s u letter (err exn, e) at was processed failed dlq dead =
      failed-Handled s _ at was processed failed dlq dead

  module _ (s : Consumption E) where
    failure_path-Handled :
        (u : Consumption E) (event : BaseEvent) (error : Option String)
        → u.position ≡ s.position
        → u.committed ≡ s.committed
        → u.stats.messages_processed ≡ s.stats.messages_processed
        → u.stats.messages_failed ≡ s.stats.messages_failed + 1
        → u.stats.messages_dlq ≡ s.stats.messages_dlq
        → u.sent_letters ≡ s.sent_letters
        → Handled s (failure_path cfg svc event error u).1
    unfolding failure_path
    failure_path-Handled u event error at was processed failed dlq dead =
        if-intro (HandledBy s) (cfg.dlq_enabled && leb cfg.retry_max_retries event.retry_count) _ _
          (λ _.
            sent-Handled s u (letter_for cfg svc event error u.env) _ at was processed failed dlq
              dead)
          (λ _.
            if-intro (HandledBy s) cfg.dlq_enabled _ _
              (λ _. failed-Handled s (count_retried cfg svc u) at was processed failed dlq dead)
              (λ _. failed-Handled s u at was processed failed dlq dead))

    -- an error, or a message without a value
    passed-Handled :
        (u : Consumption E)
        → u.position ≡ s.position
        → u.committed ≡ s.committed
        → u.stats.messages_processed ≡ s.stats.messages_processed
        → u.stats.messages_failed ≡ s.stats.messages_failed
        → u.stats.messages_dlq ≡ s.stats.messages_dlq
        → u.sent_letters ≡ s.sent_letters
        → Handled s u
    passed-Handled u at was processed failed dlq dead = record {
      position = at;
      committed = inl was;
      counted = omega (arith, processed, failed);
      letters = omega (arith, dlq, ap length dead);
      for_failed = omega (arith, dlq, failed);
    }

    with_result-Handled :
        (u : Consumption E) (out : Result ProcessingResult × Processing E)
        → u.position ≡ s.position
        → u.committed ≡ s.committed
        → u.stats ≡ s.stats
        → u.sent_letters ≡ s.sent_letters
        → HandledBy s (with_result cfg svc u out)
    with_result-Handled u (ok result, p) at was stats dead =
        let processed = ap (λ x. x.messages_processed) stats in
        let failed = ap (λ x. x.messages_failed) stats in
        let dlq = ap (λ x. x.messages_dlq) stats in
        if-intro (HandledBy s) result.success _ _
          (λ _.
            commit_after-Handled s _ at was (omega (arith, processed, failed))
              (omega (arith, dlq, ap length dead)) (omega (arith, dlq, failed)))
          (λ _.
            failure_path-Handled _ p.event result.error at was processed (omega (arith, failed)) dlq
              dead)
    with_result-Handled u (err exn, p) at was stats dead =
        let processed = ap (λ x. x.messages_processed) stats in
        let failed = ap (λ x. x.messages_failed) stats in
        let dlq = ap (λ x. x.messages_dlq) stats in
        if-intro (HandledBy s) (is_exception exn) _ _
          (λ _.
            commit_after-Handled s _ at was (omega (arith, processed, failed))
              (omega (arith, dlq, ap length dead)) (omega (arith, dlq, failed)))
          (λ _. passed-Handled _ at was processed failed dlq dead)

    with_event-Handled : (out : Result BaseEvent × E) → HandledBy s (with_event cfg svc s out)
    with_event-Handled (ok event, e) = with_result-Handled s _ refl refl refl refl
    with_event-Handled (err exn, e) =
        if-intro (HandledBy s) (is_decoder_error exn) _ _
          (λ _. commit_after-Handled s _ refl refl (omega arith) (omega arith) (omega arith))
          (λ _. passed-Handled _ refl refl refl refl refl refl)

    with_value-Handled :
        (topic : String) (value : Option B) → HandledBy s (with_value cfg svc topic value s)
    with_value-Handled topic none = passed-Handled s refl refl refl refl refl refl
    with_value-Handled topic (some raw) = with_event-Handled (svc.decode topic raw s.env)

  process_message-Handled :
      (message : ConsumerRecord B) (s : Consumption E)
      → HandledBy s (process_message cfg svc message s)
  unfolding process_message
  process_message-Handled message s = with_value-Handled s message.topic message.value

  -- fetching a message moves no position back
  moved-ahead :
      (topic : String) (partition offset : ℕ) (from : Offsets) (t : String) (p : ℕ)
      → from topic partition ≤ offset
      → from t p ≤ moved topic partition (offset + 1) from t p
  moved-ahead topic partition offset from t p h = elim (Bool-cases (str_eq topic t)) [
    | inl same ↦ elim (Bool-cases (partition == p)) [
      | inl equal ↦
          let at : partition ≡ p = ground arith in
          rw (same, equal, sym ((str_eq_iff topic t).0 same), sym at) (omega (arith, h))
      | inr differs ↦ rw (same, differs) (omega arith)
    ]
    | inr other ↦ rw other (omega arith)
  ]

  one-Sound :
      (n : ℕ) (message : ConsumerRecord B) (s t : Consumption E)
      → ((topic : String) (p : ℕ) → s.committed topic p ≤ s.position topic p)
      → s.position message.topic message.partition ≤ message.offset
      → Handled (fetch cfg svc message s) t
      → Sound (suc n) s t
  one-Sound n message s t within ahead h =
      let forward : (topic : String) (p : ℕ) → s.position topic p ≤ t.position topic p = λ topic p.
        subst (λ f. s.position topic p ≤ f topic p) (sym h.position)
          (moved-ahead message.topic message.partition message.offset s.position topic p ahead) in
      record {
        within = λ topic p. elim h.committed [
          | inl kept ↦ omega (arith, ap (λ f. f topic p) kept, forward topic p, within topic p)
          | inr moves ↦ omega (arith, ap (λ f. f topic p) moves, ap (λ f. f topic p) h.position)
        ];
        forward = forward;
        counted = omega (arith, h.counted);
        letters = h.letters;
        for_failed = h.for_failed;
      }

  Sound-trans : (n : ℕ) (s t u : Consumption E) → Sound 1 s t → Sound n t u → Sound (suc n) s u
  Sound-trans n s t u a b = record {
    within = b.within;
    forward = λ topic p. omega (arith, a.forward topic p, b.forward topic p);
    counted = omega (arith, a.counted, b.counted);
    letters = omega (arith, a.letters, b.letters);
    for_failed = omega (arith, a.for_failed, b.for_failed);
  }

  SoundBy : ℕ → Consumption E → Result (Unit {0}) × Consumption E → Type 0
  SoundBy n s (res, t) = Sound n s t

  resume-Sound :
      (n : ℕ) (at : Offsets) (s : Consumption E) (next : Action (Consumption E) (Unit {0}))
      → ((t : Consumption E) → Sound 1 s t → t.position ≡ at → SoundBy (suc n) s (next t))
      → (out : Result (Unit {0}) × Consumption E) → Sound 1 s out.1
      → out.1.position ≡ at
      → SoundBy (suc n) s (resume cfg svc next out)
  unfolding SoundBy
  resume-Sound n at s next continue (ok _, t) sound here = continue t sound here
  resume-Sound n at s next continue (err exn, t) sound _ = record {
    within = sound.within;
    forward = sound.forward;
    counted = omega (arith, sound.counted);
    letters = sound.letters;
    for_failed = sound.for_failed;
  }

  -- However the loop ends: in each partition of each topic, the committed offset is within what was
  -- fetched; at most one count is made for a message; and the letters that are counted are those that
  -- the dead-letter producer has taken, each for a failed message. The client hands out the messages of
  -- one partition in the order of their offsets, and starts where the commits are within the positions.
  pub run_consuming-Sound :
      (messages : List (ConsumerRecord B)) (s : Consumption E)
      → ((topic : String) (p : ℕ) → s.committed topic p ≤ s.position topic p)
      → Ordered s.position messages
      → Sound (length messages) s (run_consuming cfg svc messages s).1
  unfolding run_consuming Ordered SoundBy
  run_consuming-Sound [] s within order = record {
    within = within;
    forward = λ topic p. omega arith;
    counted = omega arith;
    letters = refl;
    for_failed = omega arith;
  }
  run_consuming-Sound (message ∷ messages) s within (ahead, order) =
      let s' = fetch cfg svc message s in
      let done = process_message-Handled message s' in
      if-intro (SoundBy (suc (length messages)) s) (svc.running s.env) _ _
        (λ _.
          resume-Sound (length messages)
            (moved message.topic message.partition (message.offset + 1) s.position) s _
            (λ t sound here. Sound-trans (length messages) s t _ sound (
              run_consuming-Sound messages t sound.within
                (subst (λ n. Ordered n messages) (sym here) order)))
            (process_message cfg svc message s') (one-Sound 0 message s _ within ahead done)
            done.position)
        (λ _.
          one-Sound (length messages) message s s' within ahead
            (passed-Handled s' s' refl refl refl refl refl refl))
