-- ===== src/Tests/Services.antt =====
-- The service registry of libs/foundation with concrete services. A factory counts its calls, and the
-- one of the cache asks the registry for the pool.
use taas_server_py.Prelude.{String, ℕ, ◌+◌, true, false, [], ◌∷◌, refl}
use taas_server_py.Exec.{ok, Action}
use taas_server_py.ServiceRegistry.{instance_of, factory, Registry, get}
use taas_server_py.ServiceRegistry.Slots.{view, Modest, Requests, get-Requests}

data Factory : Type 0 where
  connect cache : Factory

abbrev Services : Type 0
Services = Registry ℕ String Factory

abbrev connected : Action Services String
connected r = (ok "pool", record r { env = r.env + 1 })

-- a stand-in for a service that resolves another one
abbrev run : Factory → Action Services String
run connect r = connected r
run cache r =
    (ok "cache", record r { singletons = ("Pool", "pool") ∷ r.singletons; env = r.env + 1 })

abbrev services : Services
services = record {
  services =
      ("Cache", (factory cache, true))
      ∷ ("Pool", (factory connect, true))
      ∷ ("Clock", (instance_of "utc", true))
      ∷ ("Job", (factory connect, false))
      ∷ [];
  singletons = ("Clock", "utc") ∷ [];
  env = 0;
}

run-Modest : Modest run
unfolding Modest
run-Modest k connect single r e = refl
run-Modest k cache single r e = refl

get-Requests_example :
    Requests run "Cache" true services (view services "Cache") (get run "Cache" true services)
get-Requests_example = get-Requests run "Cache" true services run-Modest
