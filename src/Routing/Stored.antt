-- ===== src/Routing/Stored.antt =====
-- The outbox service behind the routing: what `publish_event` stores, a poller of the outbox may claim.
use taas_server_py.Prelude.{
  ℕ, ◌+◌, ◌≤◌, ◌<◌, String, le→leb, lt→ltb, Option, none, List, [], ◌∷◌, ◌++◌, count, count-append,
  or_default, ◌≡◌, refl, sym, ap, ◌∙◌,
}
use taas_server_py.Exec.{ok_same, Exn, Result, ok, err, Action}
use taas_server_py.Sql.{Table, TableLaws}
use taas_server_py.Outbox.{
  OutboxRow, OutboxConfig, DomainEvent, is_due, save_event, with_payload, flushed, pending_row,
}
use taas_server_py.Routing.{
  outbox, RoutingConfig, get_routing_for_channel, Options, Services, Messaging, publish_event,
}
use taas_server_py.Routing.Delivery.{ServicesLaws}

-- the flush and the commit of a session, the broker and the text of headers are parameters, and so are
-- the id and the time of a row
module _ {E : Type 0} (db : Table OutboxRow) (week : ℕ) (config : OutboxConfig) (id : String)
    (now : ℕ) (flush : OutboxRow → db.Tbl → Result (Unit {0}))
    (dumps : List (String × Option String) → String) (commit : db.Tbl → Action db.Tbl (Unit {0}))
    (publish : DomainEvent → String → Options → Action E (Unit {0})) where
  abbrev pub saved : DomainEvent → String → Options → Action db.Tbl OutboxRow
  saved event channel options =
      save_event db config flush id now event channel options.ordering_key (dumps options.headers)
        options.max_retries

  abbrev pub outbox_services : Services DomainEvent E
  outbox_services = record {
    Tbl = db.Tbl;
    Row = OutboxRow;
    save_event = saved;
    commit = commit;
    publish = publish;
  }

  module _ (laws : TableLaws db) where
    flushed-rows :
        (row : OutboxRow) (t u : db.Tbl) (done : Result (Unit {0})) (saved_row : OutboxRow)
        → flushed db config flush row t done ≡ (ok saved_row, u)
        → db.rows u ≡ db.rows t ++ saved_row ∷ []
    flushed-rows row t u (ok _) saved_row did =
        sym (ap (λ o. db.rows o.1) did)
        ∙ laws.rows-add_row row t
        ∙ ap (λ r. db.rows t ++ r ∷ []) (ok_same (ap (λ o. o.0) did))
    flushed-rows row t u (err exn) saved_row did = cc did

    with_payload-rows :
        (event : DomainEvent) (channel : String) (options : Options) (t u : db.Tbl)
        (payload : Result String) (row : OutboxRow)
        → with_payload db config flush id now event channel options.ordering_key
            (dumps options.headers)
            options.max_retries
            t
            payload
          ≡ (ok row, u)
        → db.rows u ≡ db.rows t ++ row ∷ []
    with_payload-rows event channel options t u (ok payload) row did = flushed-rows _ t u _ row did
    with_payload-rows event channel options t u (err exn) row did = cc did

    -- the services meet the laws when the commit does
    pub outbox_services-laws :
        ((t u v : db.Tbl) → commit t u ≡ (ok tt, v) → db.rows v ≡ db.rows t)
        → ((t u v : db.Tbl) (exn : Exn) → commit t u ≡ (err exn, v) → db.rows v ≡ db.rows u)
        → ServicesLaws outbox_services
    unfolding save_event
    outbox_services-laws commits rolls_back = record {
      rows = db.rows;
      rows-save_event = λ event channel options t u row did.
          with_payload-rows event channel options t u event.payload row did;
      rows-commit = commits;
      rows-commit_failed = rolls_back;
    }

    -- An event that is routed to the outbox, by a caller without a session, whose payload can be written,
    -- whose insert the database takes and whose commit works, is one more row that a poller may claim
    -- for a week, if it may be retried at all.
    pub routed_due :
        (cfg : RoutingConfig) (event : DomainEvent) (channel : String) (options : Options)
        (s : Messaging db.Tbl E) (main : db.Tbl) (later : ℕ) (payload : String)
        → ((t u v : db.Tbl) → commit t u ≡ (ok tt, v) → db.rows v ≡ db.rows t)
        → get_routing_for_channel cfg channel ≡ outbox
        → s.session ≡ none
        → event.payload ≡ ok payload
        → flush
            (pending_row db config flush id now event payload channel options.ordering_key
              (dumps options.headers)
              options.max_retries)
            s.main
          ≡ ok tt
        → commit (saved event channel options s.main).1 s.main ≡ (ok tt, main)
        → 0 < or_default options.max_retries config.max_retries
        → later ≤ now + week
        → count
            (is_due week later)
            (db.rows (publish_event cfg outbox_services event channel options s).1.main)
          ≡ count (is_due week later) (db.rows s.main) + 1
    unfolding publish_event save_event
    routed_due cfg event channel options s main later payload commits routed alone written taken
          done budget fresh =
        let row =
          pending_row db config flush id now event payload channel options.ordering_key
            (dumps options.headers) options.max_retries in
        let did : commit (db.add_row row s.main) s.main ≡ (ok tt, main) =
          rw (written, taken) at done in
        rw
          (
            routed,
            alone,
            written,
            taken,
            did,
            commits _ _ _ did,
            laws.rows-add_row row s.main,
            count-append (is_due week later) (db.rows s.main) (row ∷ []),
            lt→ltb 0 (or_default options.max_retries config.max_retries) budget,
            le→leb later (now + week) fresh,
          )
          refl
