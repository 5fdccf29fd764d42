-- ===== src/KaspaFees.antt =====
-- libs/block-kaspa/src/block_kaspa/transaction/simple_fee_estimator.py: mass and fee of a
-- transaction, and the selection of its inputs. Amounts are in sompi; `fee_at` is the rounded-up
-- product of a mass and the fee rate, `ceil(mass * feerate)`.
pub mod Balance
pub mod Selection
pub mod Total
use taas_server_py.Prelude.{
  ℕ, ◌+◌, ◌-◌, ◌*◌, ◌/◌, ◌^◌, ◌==◌, ◌&&◌, ◌||◌, ◌++◌, Bool, true, false, List, [], ◌∷◌, map, length,
  leb, max_of, ℤ, pos, negsuc, ◌⊖◌, if◌then◌else◌,
}
use taas_server_py.Exec.{value_error, zero_division, Result, ok, err}

abbrev pub sum : List ℕ → ℕ
sum [] = 0
sum (x ∷ xs) = x + sum xs

-- the consensus constants
abbrev mass_per_tx_byte : ℕ
mass_per_tx_byte = 1

abbrev mass_per_script_pub_key_byte : ℕ
mass_per_script_pub_key_byte = 10

abbrev mass_per_sig_op : ℕ
mass_per_sig_op = 1000

abbrev storage_mass_parameter : ℕ
storage_mass_parameter = 10 ^ 12

abbrev subnetwork_id_size : ℕ
subnetwork_id_size = 20

abbrev hash_size : ℕ
hash_size = 32

abbrev signature_script_size : ℕ
signature_script_size = 66

abbrev sig_ops_per_input : ℕ
sig_ops_per_input = 1

abbrev tx_fixed_overhead : ℕ
tx_fixed_overhead = 2 + 8 + 8 + 8 + subnetwork_id_size + 8 + hash_size + 8

abbrev input_serialized_size : ℕ
input_serialized_size = 32 + 4 + 8 + signature_script_size + 8

abbrev output_serialized_size : ℕ → ℕ
output_serialized_size script_len = 8 + 2 + 8 + script_len

unfoldable pub transaction_serialized_size : ℕ → List ℕ → ℕ → ℕ
transaction_serialized_size n_inputs script_lens payload_len =
    tx_fixed_overhead
    + payload_len
    + n_inputs * input_serialized_size
    + sum (map output_serialized_size script_lens)

unfoldable pub compute_mass : ℕ → List ℕ → ℕ → ℕ
unfolding transaction_serialized_size
compute_mass n_inputs script_lens payload_len =
    transaction_serialized_size n_inputs script_lens payload_len * mass_per_tx_byte
    + sum (map (λ s. 2 + s) script_lens) * mass_per_script_pub_key_byte
    + n_inputs * sig_ops_per_input * mass_per_sig_op

abbrev plus_ok : ℕ → Result ℕ → Result ℕ
plus_ok n (ok m) = ok (n + m)
plus_ok n (err exn) = err exn

-- `sum(c // a for a in amounts)`
unfoldable pub harmonic : List ℕ → Result ℕ
harmonic [] = ok 0
harmonic (a ∷ amounts) =
    let rest = harmonic amounts in
    if a == 0 then err zero_division else plus_ok (storage_mass_parameter / a) rest

-- `max(0, a - b)`
abbrev less_ok : ℕ → Result ℕ → Result ℕ
less_ok n (ok m) = ok (n - m)
less_ok n (err exn) = err exn

-- the mean of the inputs
abbrev arithmetic : List ℕ → Result ℕ
arithmetic inputs =
    if sum inputs == 0
    then err zero_division
    else ok (storage_mass_parameter * length inputs ^ 2 / sum inputs)

abbrev storage_with : List ℕ → List ℕ → Result ℕ → Result ℕ
storage_with inputs outputs (err exn) = err exn
storage_with inputs outputs (ok harmonic_outs) =
    if (leb (length outputs) (length inputs) && leb (length inputs) 2) || length outputs == 1
    then less_ok harmonic_outs (harmonic inputs)
    else less_ok harmonic_outs (arithmetic inputs)

unfoldable pub storage_mass : List ℕ → List ℕ → Result ℕ
unfolding harmonic
storage_mass inputs outputs = storage_with inputs outputs (harmonic outputs)

pub record FeeEstimate : Type 0 where
  pub compute_mass : ℕ
  pub storage_mass : ℕ
  pub network_mass : ℕ
  pub minimum_fee : ℕ
  pub fee : ℕ
  pub change : ℤ
  pub n_inputs : ℕ
  pub n_outputs : ℕ

-- `change > 0`
abbrev pub is_positive : ℤ → Bool
is_positive (pos n) = leb 1 n
is_positive (negsuc n) = false

abbrev amount_of : ℤ → ℕ
amount_of (pos n) = n
amount_of (negsuc n) = 0

module _ (fee_at : ℕ → ℕ) (priority_fee script_len payload_len : ℕ) where
  abbrev outcome : ℕ → ℤ → ℕ → ℕ → Result ℕ → Result FeeEstimate
  outcome cm change n_in n_out (err exn) = err exn
  outcome cm change n_in n_out (ok sm) = ok (record {
    compute_mass = cm;
    storage_mass = sm;
    network_mass = max_of cm sm;
    minimum_fee = fee_at cm;
    fee = fee_at cm + priority_fee;
    change = change;
    n_inputs = n_in;
    n_outputs = n_out;
  })

  -- what is left of the inputs with the fee of a mass
  abbrev pub change_of : List ℕ → ℕ → ℕ → ℤ
  change_of inputs send_amount cm = sum inputs ⊖ (send_amount + (fee_at cm + priority_fee))

  abbrev pub mass_of : List ℕ → List ℕ → ℕ
  mass_of inputs script_lens = compute_mass (length inputs) script_lens payload_len

  -- `_estimate_for`
  unfoldable pub estimate_for : List ℕ → ℕ → Result FeeEstimate
  unfolding compute_mass storage_mass
  estimate_for inputs send_amount =
      let two = mass_of inputs (script_len ∷ script_len ∷ []) in
      let one = mass_of inputs (script_len ∷ []) in
      let change = change_of inputs send_amount two in
      if is_positive change
      then outcome two change (length inputs) 2
          (storage_mass inputs (send_amount ∷ amount_of change ∷ []))
      else outcome one (change_of inputs send_amount one) (length inputs) 1
          (storage_mass inputs (send_amount ∷ []))

  -- `sum(selected) >= send_amount + result.fee` and the storage mass within the compute mass
  abbrev pub suffices : ℕ → List ℕ → FeeEstimate → Bool
  suffices send_amount selected r =
      leb (send_amount + r.fee) (sum selected) && leb r.storage_mass r.compute_mass

  -- the loop, with what is selected so far and the last result
  unfoldable pub select : Bool → ℕ → List ℕ → FeeEstimate → List ℕ → Result FeeEstimate
  unfolding estimate_for
  select select_utxos send_amount selected result [] = ok result
  select select_utxos send_amount selected result (amount ∷ rest) =
      let selected' = selected ++ amount ∷ [] in
      elim (estimate_for selected' send_amount) [
        | err exn ↦ err exn
        | ok r ↦
            (let more = select select_utxos send_amount selected' r rest in
              if select_utxos && suffices send_amount selected' r then ok r else more)
      ]

  abbrev pub insert_sorted : ℕ → List ℕ → List ℕ
  insert_sorted a [] = a ∷ []
  insert_sorted a (x ∷ xs) = if leb a x then a ∷ x ∷ xs else x ∷ insert_sorted a xs

  -- Python's `sorted`
  abbrev pub sorted : List ℕ → List ℕ
  sorted [] = []
  sorted (x ∷ xs) = insert_sorted x (sorted xs)

  abbrev first_estimate : Bool → ℕ → List ℕ → Result FeeEstimate → Result FeeEstimate
  first_estimate select_utxos send_amount amounts (err exn) = err exn
  first_estimate select_utxos send_amount amounts (ok r) =
      select select_utxos send_amount [] r amounts

  unfoldable pub estimate_fee : List ℕ → ℕ → Bool → Result FeeEstimate
  unfolding select
  estimate_fee [] send_amount select_utxos = err value_error
  estimate_fee (a ∷ utxos) send_amount select_utxos =
      let amounts = if select_utxos then sorted (a ∷ utxos) else a ∷ utxos in
      first_estimate select_utxos send_amount amounts (estimate_for amounts send_amount)
