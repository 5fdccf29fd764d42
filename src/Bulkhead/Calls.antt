-- ===== src/Bulkhead/Calls.antt =====
-- Whole calls through a bulkhead.
use taas_server_py.Prelude.{◌≡◌, refl}
use taas_server_py.Exec.{Exn, Result, ok, err, Action}
use taas_server_py.Bulkhead.{BulkheadService, acquire, release, execute}

module _ {W T : Type 0} (svc : BulkheadService W) (handler : Action W T) where
  pub execute_runs :
      (w w' w'' end : W) (res : Result T)
      → acquire svc w ≡ (ok tt, w')
      → handler w' ≡ (res, w'')
      → release svc w'' ≡ (ok tt, end)
      → execute svc handler w ≡ (res, end)
  unfolding execute
  execute_runs w w' w'' end res took ran gave = rw (took, ran, gave) refl

  pub execute_refused :
      (w w' : W) (exn : Exn) → acquire svc w ≡ (err exn, w') → execute svc handler w ≡ (err exn, w')
  unfolding execute
  execute_refused w w' exn refused = rw refused refl
