-- ===== src/ServiceRegistry.antt =====
-- libs/foundation/src/foundation/state/service_registry.py: `ServiceRegistry`. A type stands by its
-- name. An implementation is an instance, or what is called for one: a factory or a class, named by an
-- `F`; what a call does, to the registry too, is a parameter.
pub mod Slots
use taas_server_py.Prelude.{
  String, Bool, true, false, not, ◌&&◌, Option, none, some, List, [], ◌∷◌, Dict, lookup, insert,
  remove, if◌then◌else◌,
}
use taas_server_py.Exec.{value_error, type_error, Result, ok, err, Action}

module _ (E V F : Type 0) where
  pub data Implementation : Type 0 where
    instance_of : V → Implementation
    factory : F → Implementation

  -- `_services` and `_singletons`, and the surroundings of the factories
  pub record Registry : Type 0 where
    pub services : Dict (Implementation × Bool)
    pub singletons : Dict V
    pub env : E

abbrev add_running : {V : Type 0} → String → Option V → List (String × V) → List (String × V)
add_running k none rest = rest
add_running k (some v) rest = (k, v) ∷ rest

module _ {E V F : Type 0} where
  abbrev pub is_callable : Implementation E V F → Bool
  is_callable (instance_of v) = false
  is_callable (factory make) = true

  abbrev eager : String → Implementation E V F → Bool → Dict V → Dict V
  eager k (instance_of v) true d = insert k v d
  eager k _ _ d = d

  pub register :
      String → Implementation E V F → Bool → Action (Registry E V F) (Implementation E V F)
  register k implementation singleton r =
      if not singleton && not (is_callable implementation) then (err value_error, r) else (
        ok implementation,
        record r {
          services = insert k (implementation, singleton) r.services;
          singletons = eager k implementation singleton (remove k r.singletons);
        },
      )

  -- `implementation()`: `run` is what a call of a factory does
  abbrev pub make_one :
      (F → Action (Registry E V F) V) → Implementation E V F → Action (Registry E V F) V
  make_one run (instance_of v) r = (err type_error, r)
  make_one run (factory make) r = run make r

  abbrev keep_one : String → Result V × Registry E V F → Result (Option V) × Registry E V F
  keep_one k (ok v, r) = (ok (some v), record r { singletons = insert k v r.singletons })
  keep_one k (err exn, r) = (err exn, r)

  abbrev give_one : Result V × Registry E V F → Result (Option V) × Registry E V F
  give_one (ok v, r) = (ok (some v), r)
  give_one (err exn, r) = (err exn, r)

  abbrev get_with :
      (F → Action (Registry E V F) V)
      → String
      → Bool
      → Option (Implementation E V F × Bool)
      → Option V
      → Action (Registry E V F) (Option V)
  get_with run k raise_if_not_found none cached r =
      (if raise_if_not_found then err value_error else ok none, r)
  get_with run k raise_if_not_found (some (implementation, true)) (some v) r = (ok (some v), r)
  get_with run k raise_if_not_found (some (implementation, true)) none r =
      keep_one k (make_one run implementation r)
  get_with run k raise_if_not_found (some (implementation, false)) cached r =
      give_one (make_one run implementation r)

  unfoldable pub get :
      (F → Action (Registry E V F) V) → String → Bool → Action (Registry E V F) (Option V)
  get run k raise_if_not_found r =
      get_with run k raise_if_not_found (lookup k r.services) (lookup k r.singletons) r

  abbrev has_entry : Option (Implementation E V F × Bool) → Bool
  has_entry none = false
  has_entry (some entry) = true

  pub has : String → Registry E V F → Bool
  has k r = has_entry (lookup k r.services)

  abbrev running_one : Implementation E V F × Bool → Option V → Option V
  running_one (implementation, true) cached = cached
  running_one (instance_of v, false) cached = some v
  running_one (factory make, false) cached = none

  pub get_all_running : Registry E V F → List (String × V)
  get_all_running r = go r.services
    where
      go : Dict (Implementation E V F × Bool) → List (String × V)
      go [] = []
      go ((k, entry) ∷ rest) = add_running k (running_one entry (lookup k r.singletons)) (go rest)
