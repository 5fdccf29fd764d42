-- ===== src/Routing/Delivery.antt =====
-- What becomes of an event that is published, on every path.
use taas_server_py.Prelude.{
  ◌+◌, String, Option, none, some, List, [], ◌∷◌, ◌++◌, ◌≡◌, refl, arith, subst, ◌∙◌,
}
use taas_server_py.Exec.{Exn, Result, ok, err}
use taas_server_py.Routing.{
  RoutingStrategy, direct, outbox, RoutingConfig, get_routing_for_channel, Options, Services,
  Messaging, published, through_outbox, route, saved_alone, saved_within, committed, publish_event,
  new_session,
}

-- what a session promises of the rows: a save adds its row, and a commit that succeeds makes the rows
-- of the session those of the database, which one that fails leaves as they are
pub record ServicesLaws {M E : Type 0} (svc : Services M E) : Type 1 where
  pub rows : svc.Tbl → List svc.Row
  pub rows-save_event :
      (event : M) (channel : String) (options : Options) (t u : svc.Tbl) (row : svc.Row)
      → svc.save_event event channel options t ≡ (ok row, u)
      → rows u ≡ rows t ++ row ∷ []
  pub rows-commit : (t u v : svc.Tbl) → svc.commit t u ≡ (ok tt, v) → rows v ≡ rows t
  pub rows-commit_failed :
      (t u v : svc.Tbl) (exn : Exn) → svc.commit t u ≡ (err exn, v) → rows v ≡ rows u

module _ {M E : Type 0} (svc : Services M E) (laws : ServicesLaws svc) (event : M)
    (channel : String) (options : Options) where
  -- the outcomes of `publish_event` in the state `s`: what the broker made of the event; the row that
  -- the outbox made of it, in the database or in the session of the caller; or an error of the outbox
  -- or the commit, after which the database has what it had, and one session more is open when the
  -- service had opened one
  pub data Delivered (s : Messaging svc.Tbl E)
      : RoutingStrategy → Result (Option svc.Row) × Messaging svc.Tbl E → Type 0 where
    handed_over :
        (e : E)
        → svc.publish event channel options s.env ≡ (ok tt, e)
        → Delivered s direct (ok none, record s { env = e })
    refused :
        (exn : Exn) (e : E)
        → svc.publish event channel options s.env ≡ (err exn, e)
        → Delivered s direct (err exn, record s { env = e })
    stored :
        (row : svc.Row) (t main : svc.Tbl)
        → s.session ≡ none
        → svc.save_event event channel options s.main ≡ (ok row, t)
        → laws.rows main ≡ laws.rows s.main ++ row ∷ []
        → Delivered s outbox (ok (some row), record s { main = main })
    joined :
        (row : svc.Row) (t u : svc.Tbl)
        → s.session ≡ some t
        → svc.save_event event channel options t ≡ (ok row, u)
        → laws.rows u ≡ laws.rows t ++ row ∷ []
        → Delivered s outbox (ok (some row), record s { session = some u })
    leaked :
        (exn : Exn) (main : svc.Tbl)
        → s.session ≡ none
        → laws.rows main ≡ laws.rows s.main
        → Delivered s outbox
            (err exn, record s { main = main; open_sessions = s.open_sessions + 1 })
    failed :
        (exn : Exn) (t u : svc.Tbl)
        → s.session ≡ some t
        → svc.save_event event channel options t ≡ (err exn, u)
        → Delivered s outbox (err exn, record s { session = some u })

module _ {M E : Type 0} (cfg : RoutingConfig) (svc : Services M E) (laws : ServicesLaws svc)
    (event : M) (channel : String) (options : Options) (s : Messaging svc.Tbl E) where
  committed-Delivered :
      (row : svc.Row) (t : svc.Tbl) (out : Result (Unit {0}) × svc.Tbl)
      → s.session ≡ none
      → svc.save_event event channel options s.main ≡ (ok row, t)
      → svc.commit t s.main ≡ out
      → Delivered svc laws event channel options s outbox
          (committed cfg svc row (new_session cfg svc s) out)
  committed-Delivered row t (ok _, main) alone saved did =
      subst
        (λ n.
          Delivered svc laws event channel options s outbox
            (ok (some row), record s { main = main; open_sessions = n }))
        (omega arith)
        (stored row t main alone saved (
          laws.rows-commit t s.main main did
          ∙ laws.rows-save_event event channel options s.main t row saved))
  committed-Delivered row t (err exn, main) alone saved did =
      leaked exn main alone (laws.rows-commit_failed t s.main main exn did)

  saved_alone-Delivered :
      (out : Result svc.Row × svc.Tbl)
      → s.session ≡ none
      → svc.save_event event channel options s.main ≡ out
      → Delivered svc laws event channel options s outbox
          (saved_alone cfg svc (new_session cfg svc s) out)
  saved_alone-Delivered (ok row, t) alone did = committed-Delivered row t _ alone did refl
  saved_alone-Delivered (err exn, t) alone did = leaked exn s.main alone refl

  saved_within-Delivered :
      (t : svc.Tbl) (out : Result svc.Row × svc.Tbl)
      → s.session ≡ some t
      → svc.save_event event channel options t ≡ out
      → Delivered svc laws event channel options s outbox (saved_within cfg svc s out)
  saved_within-Delivered t (ok row, u) within did =
      joined row t u within did (laws.rows-save_event event channel options t u row did)
  saved_within-Delivered t (err exn, u) within did = failed exn t u within did

  through_outbox-Delivered :
      (session : Option svc.Tbl)
      → s.session ≡ session
      → Delivered svc laws event channel options s outbox
          (through_outbox cfg svc event channel options session s)
  through_outbox-Delivered none at = saved_alone-Delivered _ at refl
  through_outbox-Delivered (some t) at = saved_within-Delivered t _ at refl

  published-Delivered :
      (out : Result (Unit {0}) × E)
      → svc.publish event channel options s.env ≡ out
      → Delivered svc laws event channel options s direct (published cfg svc s out)
  published-Delivered (ok _, e) did = handed_over e did
  published-Delivered (err exn, e) did = refused exn e did

  route-Delivered :
      (strategy : RoutingStrategy)
      → Delivered svc laws event channel options s strategy
          (route cfg svc event channel options strategy s)
  route-Delivered outbox = through_outbox-Delivered s.session refl
  route-Delivered direct = published-Delivered _ refl

  -- Whatever the outbox and the broker do: an event that is routed directly is published by the broker
  -- once, with the broker's result, and no row changes; one that is routed to the outbox is saved there,
  -- and is one new row of the database when the caller has no session, or one new row of the caller's
  -- session. After an error the database has the rows that it had, and a session that the service has
  -- opened stays open. Saves, commits and rollbacks work on the rows as documented.
  pub publish_event-Delivered :
      Delivered svc laws event channel options s
        (get_routing_for_channel cfg channel)
        (publish_event cfg svc event channel options s)
  unfolding publish_event
  publish_event-Delivered = route-Delivered (get_routing_for_channel cfg channel)
