-- ===== src/OutboxPoller/Rows.antt =====
-- What the poller does to the rows of the outbox, whatever the broker does.
use taas_server_py.Prelude.{
  inl, inr, Bool-cases, ℕ, some, List, [], ◌∷◌, length, Pointwise-trans, ◌≡◌, refl, arith,
}
use taas_server_py.Exec.{is_exception, Result, ok, err, Action}
use taas_server_py.Sql.{Table, TableLaws}
use taas_server_py.Outbox.{OutboxRow, OutboxConfig}
use taas_server_py.Outbox.Budget.{
  SameBudget-trans, KeepsBudget, refl_budget, mark_published-KeepsBudget, fetch-KeepsBudget,
}
use taas_server_py.OutboxPoller.{
  publish_ended, Poller, publish_event, publish_all, poll_and_publish, claimed, fetched_state,
  poll_ended,
}

module _ (db : Table OutboxRow) (laws : TableLaws db) (week : ℕ) (cfg : OutboxConfig) {E : Type 0}
    (publish : OutboxRow → Action E (Unit {0})) (clock : E → ℕ) where
  publish_event-KeepsBudget :
      (event : OutboxRow) (p : Poller db.Tbl E)
      → KeepsBudget db p.tbl (publish_event db week cfg publish clock event p).1.tbl
  unfolding publish_event
  publish_event-KeepsBudget event p = ended (publish event p.broker).0 (publish event p.broker).1
    where
      ended :
          (res : Result (Unit {0})) (e : E)
          → KeepsBudget db p.tbl
              (publish_ended db week cfg publish clock event res (record p { broker = e })).1.tbl
      ended (ok _) e = mark_published-KeepsBudget db laws week cfg event.id (clock e) p.tbl
      ended (err exn) e = elim (Bool-cases (is_exception exn)) [
        | inl caught ↦ rw caught (refl_budget db p.tbl)
        | inr passed ↦ rw passed (refl_budget db p.tbl)
      ]

  abbrev after_event :
      List OutboxRow → Result (Unit {0}) × Poller db.Tbl E → Result (Unit {0}) × Poller db.Tbl E
  after_event events (res, p') = elim res [
    | ok _ ↦ publish_all db week cfg publish clock events p'
    | err exn ↦ (err exn, p')
  ]

  publish_all-KeepsBudget :
      (events : List OutboxRow) (p : Poller db.Tbl E)
      → KeepsBudget db p.tbl (publish_all db week cfg publish clock events p).1.tbl
  unfolding publish_all
  publish_all-KeepsBudget [] p = refl_budget db p.tbl
  publish_all-KeepsBudget (event ∷ events) p =
      next (publish_event db week cfg publish clock event p) (publish_event-KeepsBudget event p)
        (publish_all-KeepsBudget events (publish_event db week cfg publish clock event p).1)
    where
      next :
          (q : Result (Unit {0}) × Poller db.Tbl E)
          → KeepsBudget db p.tbl q.1.tbl
          → KeepsBudget db q.1.tbl (publish_all db week cfg publish clock events q.1).1.tbl
          → KeepsBudget db p.tbl (after_event events q).1.tbl
      next (ok _, q) h k = Pointwise-trans SameBudget-trans h k
      next (err exn, q) h k = h

  poll_ended_tbl :
      (n : ℕ) (res : Result (Unit {0})) (p : Poller db.Tbl E)
      → (poll_ended db week cfg publish clock n res p).1.tbl ≡ p.tbl
  poll_ended_tbl n (ok _) p = refl
  poll_ended_tbl n (err exn) p = ground arith

  -- No poll changes the retry count of an event or marks one as failed or as a dead letter,
  -- whether the broker accepts the events, raises or is cancelled.
  pub poll-KeepsBudget :
      (p : Poller db.Tbl E)
      → KeepsBudget db p.tbl (poll_and_publish db week cfg publish clock p).1.tbl
  unfolding poll_and_publish
  poll-KeepsBudget p =
      let (events, t) = claimed db week cfg publish clock p in
      let start = fetched_state db week cfg publish clock events t p in
      let (res, p') = publish_all db week cfg publish clock events start in
      rw (poll_ended_tbl (length events) res p') (
        Pointwise-trans SameBudget-trans
          (fetch-KeepsBudget db laws week cfg (some cfg.batch_size) (clock p.broker)
            (clock p.broker) p.tbl)
          (publish_all-KeepsBudget events start))
