-- ===== src/Exec.antt =====
-- Coroutines of the resilience primitives (libs/foundation/src/foundation/resiliant): an action
-- reads and writes a state and returns or raises. What was written before a raise stays written.
use taas_server_py.Prelude.{ℕ, String, Bool, true, false, if◌then◌else◌, ◌≡◌}

-- The exceptions that the modelled code raises or tells apart. `app` stands for any other
-- `Exception` of a handler; `cancelled` is `asyncio.CancelledError` and `system_exit` stands for
-- `SystemExit` and `KeyboardInterrupt`, which are `BaseException`s and no `Exception`s.
pub data Exn : Type 0 where
  app : ℕ → Exn
  cancelled system_exit assertion index_error timeout value_error runtime_error type_error
        not_implemented integrity_error overflow_error zero_division cron_support decoder_error :
      Exn
  validation_error circuit_open bulkhead_full saga_compensation dead_letter_replay duplicate_event :
      String → Exn
  dead_letter : Exn
  operation_timeout : ℕ → Exn
  fallback_error : Exn → Exn → Exn
  saga_aborted : String → String → Exn → Exn

-- `isinstance(e, Exception)`
unfoldable pub is_exception : Exn → Bool
is_exception cancelled = false
is_exception system_exit = false
is_exception _ = true

pub data Result {ℓ} (A : Type ℓ) : Type ℓ where
  ok : A → Result A
  err : Exn → Result A

pub ok_same : {A : Type 0} {x y : A} → ok x ≡ ok y → x ≡ y
ok_same h = cc h

abbrev pub Action {ℓ κ} : Type ℓ → Type κ → Type (ℓ ⊔ κ)
Action S A = S → Result A × S

module _ {ℓ κ} {S : Type ℓ} {A : Type κ} where
  abbrev pub pure : A → Action S A
  pure a s = (ok a, s)

  abbrev pub raise : Exn → Action S A
  raise e s = (err e, s)

  abbrev pub gets : (S → A) → Action S A
  gets f s = (ok (f s), s)

abbrev pub modify {ℓ} : {S : Type ℓ} → (S → S) → Action S (Unit {0})
modify f s = (ok tt, f s)

infixl 5 ◌>>=◌ ◌>>◌
abbrev pub ◌>>=◌ {ℓ κ μ} :
    {S : Type ℓ} {A : Type κ} {B : Type μ} → Action S A → (A → Action S B) → Action S B
◌>>=◌ m f s = let (r, s') = m s in elim r [ ok a ↦ f a s' | err e ↦ (err e, s') ]

abbrev pub ◌>>◌ {ℓ κ μ} :
    {S : Type ℓ} {A : Type κ} {B : Type μ} → Action S A → Action S B → Action S B
m >> k = m >>= λ _. k

abbrev pub when {ℓ} : {S : Type ℓ} → Bool → Action S (Unit {0}) → Action S (Unit {0})
when c m s = if c then m s else (ok tt, s)

-- A postcondition of a finished action, and of one that raised.
abbrev pub Succeeds {ℓ κ} : {S : Type ℓ} {A : Type κ} → Result A × S → Type 0
Succeeds (ok _, _) = Unit
Succeeds (err _, _) = ⊥
