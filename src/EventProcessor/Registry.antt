-- ===== src/EventProcessor/Registry.antt =====
-- The registry of handlers is a map: one handler for an event type, the last.
use taas_server_py.Prelude.{
  String, some, Dict, str_eq, if◌then◌else◌, lookup-insert, lookup-insert_self, ◌≡◌,
}
use taas_server_py.EventProcessor.{EventHandler, register, get_handler}

module _ {E : Type 0} (t u : String) (h : EventHandler E) (handlers : Dict (EventHandler E)) where
  pub get_handler-register :
      get_handler u (register t h handlers)
      ≡ (if str_eq t u then some h else get_handler u handlers)
  unfolding get_handler register
  get_handler-register = lookup-insert t u h handlers

pub get_handler-register_self :
    {E : Type 0} (t : String) (h : EventHandler E) (handlers : Dict (EventHandler E))
    → get_handler t (register t h handlers) ≡ some h
unfolding get_handler register
get_handler-register_self t h handlers = lookup-insert_self t h handlers
