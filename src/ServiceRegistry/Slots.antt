-- ===== src/ServiceRegistry/Slots.antt =====
-- The registry as a map from types to slots.
use taas_server_py.Prelude.{
  ◌∙◌, String, Bool, true, false, not, ◌&&◌, Option, none, some, lookup, remove, lookup-insert,
  lookup-remove, if◌then◌else◌, str_eq, str_eq_iff, ◌≡◌, refl, Bool-cases, inl, inr, sym, ap, subst,
  insert,
}
use taas_server_py.Exec.{value_error, type_error, Result, ok, err, Action}
use taas_server_py.ServiceRegistry.{
  Implementation, instance_of, factory, Registry, register, get, get_with, is_callable, keep_one,
  give_one,
}

-- what a type is bound to: an instance, a factory of the one instance that is yet to be made, or a
-- factory that makes an instance for each request
module _ (V F : Type 0) where
  pub data Slot : Type 0 where
    ready : V → Slot
    lazy : F → Slot
    transient : F → Slot
    unusable : Slot

module _ {E V F : Type 0} where
  unfoldable pub slot_of : Option (Implementation E V F × Bool) → Option V → Option (Slot V F)
  slot_of none cached = none
  slot_of (some (implementation, true)) (some v) = some (ready v)
  slot_of (some (factory make, true)) none = some (lazy make)
  slot_of (some (factory make, false)) cached = some (transient make)
  slot_of (some (instance_of v, true)) none = some unusable
  slot_of (some (instance_of v, false)) cached = some unusable

  unfoldable pub view : Registry E V F → String → Option (Slot V F)
  unfolding slot_of
  view r k = slot_of (lookup k r.services) (lookup k r.singletons)

  -- a registration, of the slot of its type
  abbrev pub bind : Implementation E V F → Bool → Slot V F
  bind (instance_of v) singleton = ready v
  bind (factory make) true = lazy make
  bind (factory make) false = transient make

  module _ (run : F → Action (Registry E V F) V) where
    abbrev outcome_of : Result V → Result (Option V)
    outcome_of (ok v) = ok (some v)
    outcome_of (err exn) = err exn

    abbrev kept_in : Option (Slot V F) → Result V → Option (Slot V F)
    kept_in slot (ok v) = some (ready v)
    kept_in slot (err exn) = slot

    -- what a request of a slot gives, the registry that a factory leaves, and the slot after it
    unfoldable pub answer : Bool → Option (Slot V F) → Registry E V F → Result (Option V)
    answer raise_if_not_found none r = if raise_if_not_found then err value_error else ok none
    answer raise_if_not_found (some (ready v)) r = ok (some v)
    answer raise_if_not_found (some (lazy make)) r = outcome_of (run make r).0
    answer raise_if_not_found (some (transient make)) r = outcome_of (run make r).0
    answer raise_if_not_found (some unusable) r = err type_error

    unfoldable pub left_by : Option (Slot V F) → Registry E V F → Registry E V F
    left_by (some (lazy make)) r = (run make r).1
    left_by (some (transient make)) r = (run make r).1
    left_by _ r = r

    unfoldable pub slot_after : String → Option (Slot V F) → Registry E V F → Option (Slot V F)
    unfolding view
    slot_after k (some (lazy make)) r = kept_in (view (run make r).1 k) (run make r).0
    slot_after k (some (transient make)) r = view (run make r).1 k
    slot_after k slot r = view r k

    -- the outcome, the surroundings, and the slots of all types
    pub record Requests (k : String) (raise_if_not_found : Bool) (r : Registry E V F)
        (slot : Option (Slot V F)) (out : Result (Option V) × Registry E V F) : Type 0 where
      pub outcome : out.0 ≡ answer raise_if_not_found slot r
      pub surroundings : out.1.env ≡ (left_by slot r).env
      pub slots :
          (j : String)
          → view out.1 j ≡ (if str_eq k j then slot_after k slot r else view (left_by slot r) j)

    -- a factory that does not register its own type anew
    unfoldable pub Modest : Type 0
    Modest =
        (k : String) (make : F) (single : Bool) (r : Registry E V F)
        → lookup k r.services ≡ some (factory make, single)
        → lookup k (run make r).1.services ≡ lookup k r.services

    still :
        (k : String) (r : Registry E V F) (j : String)
        → view r j ≡ (if str_eq k j then view r k else view r j)
    still k r j = elim (Bool-cases (str_eq k j)) [
      | inl here ↦ rw (here, sym ((str_eq_iff k j).0 here)) refl
      | inr elsewhere ↦ rw elsewhere refl
    ]

    unchanged :
        (k : String) (made made' : Registry E V F) (j : String)
        → made ≡ made'
        → view made' j ≡ (if str_eq k j then view made k else view made j)
    unchanged k made made' j same =
        subst (λ end. view end j ≡ (if str_eq k j then view made k else view made j)) same
          (still k made j)

    kept_in_place :
        (k : String) (v : V) (make : F) (r' : Registry E V F) (j : String)
        → lookup k r'.services ≡ some (factory make, true)
        → view (record r' { singletons = insert k v r'.singletons }) j
          ≡ (if str_eq k j then some (ready v) else view r' j)
    unfolding view slot_of
    kept_in_place k v make r' j e =
        rw (lookup-insert k j v r'.singletons) (elim (Bool-cases (str_eq k j)) [
          | inl here ↦ rw (here, sym ((str_eq_iff k j).0 here), e) refl
          | inr elsewhere ↦ rw elsewhere refl
        ])

    kept-Requests :
        (k : String) (flag : Bool) (r : Registry E V F) (make : F) (out : Result V × Registry E V F)
        → run make r ≡ out
        → lookup k out.1.services ≡ some (factory make, true)
        → Requests k flag r (some (lazy make)) (keep_one k out)
    unfolding answer left_by slot_after
    kept-Requests k flag r make (ok v, r') did e = record {
      outcome = ap (λ out. outcome_of out.0) (sym did);
      surroundings = ap (λ out. out.1.env) (sym did);
      slots = λ j.
          subst
            (λ out.
              view (record r' { singletons = insert k v r'.singletons }) j
              ≡ (if str_eq k j then kept_in (view out.1 k) out.0 else view out.1 j))
            (sym did) (kept_in_place k v make r' j e);
    }
    kept-Requests k flag r make (err exn, r') did e = record {
      outcome = ap (λ out. outcome_of out.0) (sym did);
      surroundings = ap (λ out. out.1.env) (sym did);
      slots = λ j.
          subst
            (λ out. view r' j ≡ (if str_eq k j then kept_in (view out.1 k) out.0 else view out.1 j))
            (sym did) (still k r' j);
    }

    given-Requests :
        (k : String) (flag : Bool) (r : Registry E V F) (make : F) (out : Result V × Registry E V F)
        → run make r ≡ out
        → Requests k flag r (some (transient make)) (give_one out)
    unfolding answer left_by slot_after
    given-Requests k flag r make (ok v, r') did = record {
      outcome = ap (λ out. outcome_of out.0) (sym did);
      surroundings = ap (λ out. out.1.env) (sym did);
      slots = λ j. unchanged k (run make r).1 r' j (ap (λ out. out.1) did);
    }
    given-Requests k flag r make (err exn, r') did = record {
      outcome = ap (λ out. outcome_of out.0) (sym did);
      surroundings = ap (λ out. out.1.env) (sym did);
      slots = λ j. unchanged k (run make r).1 r' j (ap (λ out. out.1) did);
    }

    get_with-Requests :
        (k : String) (flag : Bool) (r : Registry E V F)
        (entry : Option (Implementation E V F × Bool)) (cached : Option V)
        → Modest
        → lookup k r.services ≡ entry
        → Requests k flag r (slot_of entry cached) (get_with run k flag entry cached r)
    unfolding slot_of answer left_by slot_after Modest
    get_with-Requests k flag r none cached modest e = record {
      outcome = refl;
      surroundings = refl;
      slots = still k r;
    }
    get_with-Requests k flag r (some (instance_of v, true)) none modest e = record {
      outcome = refl;
      surroundings = refl;
      slots = still k r;
    }
    get_with-Requests k flag r (some (factory make, true)) none modest e =
        kept-Requests k flag r make (run make r) refl (modest k make true r e ∙ e)
    get_with-Requests k flag r (some (implementation, true)) (some v) modest e = record {
      outcome = refl;
      surroundings = refl;
      slots = still k r;
    }
    get_with-Requests k flag r (some (instance_of v, false)) cached modest e = record {
      outcome = refl;
      surroundings = refl;
      slots = still k r;
    }
    get_with-Requests k flag r (some (factory make, false)) cached modest e =
        given-Requests k flag r make (run make r) refl

    -- A request does to the slot of its type what the slot says: an instance is given, the factory of a
    -- singleton is called and its instance kept, a transient one is called, and without a slot the
    -- request raises or gives `None`. The slots of the other types are as the factory left them, and as
    -- they were when none is called. A factory may use the registry, but does not register its own type.
    pub get-Requests :
        (k : String) (raise_if_not_found : Bool) (r : Registry E V F)
        → Modest
        → Requests k raise_if_not_found r (view r k) (get run k raise_if_not_found r)
    unfolding get view
    get-Requests k raise_if_not_found r modest =
        get_with-Requests k raise_if_not_found r (lookup k r.services) (lookup k r.singletons)
          modest refl

  -- A registration that is accepted binds its type anew, whatever was bound to it, and leaves the other
  -- types alone; only a transient service that is no factory is refused.
  pub register-view :
      (k : String) (implementation : Implementation E V F) (singleton : Bool) (r : Registry E V F)
      → let (res, r') = register k implementation singleton r in
        if not singleton && not (is_callable implementation)
        then (res ≡ err value_error) × (r' ≡ r)
        else (res ≡ ok implementation)
          × ((j : String)
              → view r' j ≡ (if str_eq k j then some (bind implementation singleton) else view r j))
  unfolding register view slot_of
  register-view k (instance_of v) false r = (refl, refl)
  register-view k (instance_of v) true r = (
    refl,
    λ j.
        rw
          (
            lookup-insert k j v (remove k r.singletons),
            lookup-remove k j r.singletons,
            lookup-insert k j _ r.services,
          )
          (elim (Bool-cases (str_eq k j)) [
            | inl here ↦ rw here refl
            | inr elsewhere ↦ rw elsewhere refl
          ]),
  )
  register-view k (factory make) true r = (
    refl,
    λ j.
        rw (lookup-remove k j r.singletons, lookup-insert k j _ r.services)
          (elim (Bool-cases (str_eq k j)) [
            | inl here ↦ rw here refl
            | inr elsewhere ↦ rw elsewhere refl
          ]),
  )
  register-view k (factory make) false r = (
    refl,
    λ j.
        rw (lookup-remove k j r.singletons, lookup-insert k j _ r.services)
          (elim (Bool-cases (str_eq k j)) [
            | inl here ↦ rw here refl
            | inr elsewhere ↦ rw elsewhere refl
          ]),
  )
