-- ===== src/Routing.antt =====
-- libs/foundation/src/foundation/messaging: message_routing_service.py, and
-- `get_routing_for_channel` of types.py. The outbox and the broker are parameters; logging is not
-- modelled, and a session is the table as it sees it.
pub mod Strategy
pub mod Delivery
pub mod Stored
use taas_server_py.Prelude.{
  ℕ, ◌+◌, ◌-◌, String, Bool, true, false, Option, none, some, List, if◌then◌else◌,
}
use taas_server_py.Exec.{Result, ok, err, Action}
use taas_server_py.Sql.{is_in}

pub data RoutingStrategy : Type 0 where
  direct outbox : RoutingStrategy

-- what the routing reads of `OutboxConfig`
pub record RoutingConfig : Type 0 where
  pub enabled : Bool
  pub routing_default : RoutingStrategy
  pub direct_channels : List String
  pub outbox_channels : List String

unfoldable pub get_routing_for_channel : RoutingConfig → String → RoutingStrategy
get_routing_for_channel cfg channel =
    if cfg.enabled
    then (if is_in channel cfg.direct_channels
        then direct
        else if is_in channel cfg.outbox_channels
        then outbox
        else cfg.routing_default)
    else direct

-- the keyword arguments of `publish_event`
pub record Options : Type 0 where
  pub ordering_key : Option String
  pub headers : List (String × Option String)
  pub max_retries : Option ℕ

-- `save_event` in a session, the commit of a session over the database, and `publish` of the broker
pub record Services (M E : Type 0) : Type 1 where
  pub Tbl : Type 0
  pub Row : Type 0
  pub save_event : M → String → Options → Action Tbl Row
  pub commit : Tbl → Action Tbl (Unit {0})
  pub publish : M → String → Options → Action E (Unit {0})

-- the database as a new session sees it, the session of the caller, the sessions that the service has
-- not closed, and the broker
pub record Messaging (T E : Type 0) : Type 0 where
  pub main : T
  pub session : Option T
  pub open_sessions : ℕ
  pub env : E

module _ {M E : Type 0} (cfg : RoutingConfig) (svc : Services M E) where
  abbrev Routed : Type 0
  Routed = Result (Option svc.Row) × Messaging svc.Tbl E

  abbrev new_session : Messaging svc.Tbl E → Messaging svc.Tbl E
  new_session s = record s { open_sessions = s.open_sessions + 1 }

  abbrev close : Messaging svc.Tbl E → Messaging svc.Tbl E
  close s = record s { open_sessions = s.open_sessions - 1 }

  abbrev committed : svc.Row → Messaging svc.Tbl E → Result (Unit {0}) × svc.Tbl → Routed
  committed row s (ok _, main) = (ok (some row), close (record s { main = main }))
  committed row s (err exn, main) = (err exn, record s { main = main })

  -- saved in a session of the service's own
  abbrev saved_alone : Messaging svc.Tbl E → Result svc.Row × svc.Tbl → Routed
  saved_alone s (ok row, t) = committed row s (svc.commit t s.main)
  saved_alone s (err exn, t) = (err exn, s)

  -- saved in the session of the caller
  abbrev saved_within : Messaging svc.Tbl E → Result svc.Row × svc.Tbl → Routed
  saved_within s (ok row, t) = (ok (some row), record s { session = some t })
  saved_within s (err exn, t) = (err exn, record s { session = some t })

  abbrev pub published : Messaging svc.Tbl E → Result (Unit {0}) × E → Routed
  published s (ok _, e) = (ok none, record s { env = e })
  published s (err exn, e) = (err exn, record s { env = e })

  abbrev pub through_outbox :
      M → String → Options → Option svc.Tbl → Action (Messaging svc.Tbl E) (Option svc.Row)
  through_outbox event channel options none s =
      saved_alone (new_session s) (svc.save_event event channel options s.main)
  through_outbox event channel options (some t) s =
      saved_within s (svc.save_event event channel options t)

  abbrev pub route :
      M → String → Options → RoutingStrategy → Action (Messaging svc.Tbl E) (Option svc.Row)
  route event channel options outbox s = through_outbox event channel options s.session s
  route event channel options direct s = published s (svc.publish event channel options s.env)

  -- `publish_event`
  unfoldable pub publish_event :
      M → String → Options → Action (Messaging svc.Tbl E) (Option svc.Row)
  publish_event event channel options =
      route event channel options (get_routing_for_channel cfg channel)
