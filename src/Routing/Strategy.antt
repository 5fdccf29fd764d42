-- ===== src/Routing/Strategy.antt =====
-- Which channels go through the outbox.
use taas_server_py.Prelude.{String, true, false, ◌≡◌, arith, ◌⊎◌}
use mathlib.Core.Logic.{◌↔◌}
use taas_server_py.Sql.{is_in}
use taas_server_py.Routing.{outbox, RoutingConfig, get_routing_for_channel}

-- the channels that are bound for the outbox
pub Outbound : RoutingConfig → String → Type 0
Outbound cfg channel =
    (cfg.enabled ≡ true)
    × (is_in channel cfg.direct_channels ≡ false)
    × ((is_in channel cfg.outbox_channels ≡ true) ⊎ (cfg.routing_default ≡ outbox))

-- An event goes through the outbox exactly when the outbox is enabled, its channel is not listed as
-- direct, and it is listed for the outbox or the outbox is the default.
pub outbox_iff :
    (cfg : RoutingConfig) (channel : String)
    → get_routing_for_channel cfg channel ≡ outbox ↔ Outbound cfg channel
unfolding get_routing_for_channel Outbound
outbox_iff cfg channel = (λ h. ground arith, λ (on, listed, way). ground arith)
