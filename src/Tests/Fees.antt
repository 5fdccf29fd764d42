-- ===== src/Tests/Fees.antt =====
-- The fee estimator of libs/block-kaspa at the example of its documentation, a fee of 325400.
use taas_server_py.Prelude.{ℕ, ◌*◌, true, List, [], ◌∷◌, pos, ◌≡◌, refl, arith}
use taas_server_py.Exec.{ok}
use taas_server_py.KaspaFees.{
  FeeEstimate, transaction_serialized_size, compute_mass, harmonic, storage_mass, estimate_for,
  select, estimate_fee,
}
use taas_server_py.KaspaFees.Selection.{Selects, SmallestFirst, estimate_fee-Selects}
use taas_server_py.KaspaFees.Total.{estimate_fee-Total}

abbrev fee_at : ℕ → ℕ
fee_at mass = mass * 100

abbrev two_inputs : List ℕ
two_inputs = 1000000000 ∷ 2000000000 ∷ []

abbrev estimate : FeeEstimate
estimate = record {
  compute_mass = 3154;
  storage_mass = 0;
  network_mass = 3154;
  minimum_fee = 315400;
  fee = 325400;
  change = pos 1499674600;
  n_inputs = 2;
  n_outputs = 2;
}

abbrev utxos : List ℕ
utxos = 3000000000 ∷ 500000000 ∷ 1000000000 ∷ []

estimate_fee-Selects_example :
    SmallestFirst fee_at 10000 34 0 utxos (500000000 ∷ 1000000000 ∷ 3000000000 ∷ [])
    × Selects fee_at 10000 34 0 900000000 []
        (500000000 ∷ 1000000000 ∷ 3000000000 ∷ [])
        (record estimate { change = pos 599674600 })
unfolding estimate_fee select estimate_for compute_mass transaction_serialized_size storage_mass
    harmonic
estimate_fee-Selects_example =
    estimate_fee-Selects fee_at 10000 34 0 utxos 900000000
      (record estimate { change = pos 599674600 }) refl

estimate_fee-Total_example :
    (r : FeeEstimate) × (estimate_fee fee_at 10000 34 0 utxos 900000000 true ≡ ok r)
estimate_fee-Total_example =
    estimate_fee-Total fee_at 10000 34 0 3000000000 (500000000 ∷ 1000000000 ∷ []) 900000000 true
      (omega arith, (omega arith, (omega arith, tt))) (omega arith)
