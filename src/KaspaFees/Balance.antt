-- ===== src/KaspaFees/Balance.antt =====
-- What an estimate says of its inputs.
use taas_server_py.Prelude.{
  ℕ, ◌+◌, ◌≤◌, ◌<◌, true, false, List, [], ◌∷◌, length, max_of, ◌⊖◌, ◌≡◌, refl, ◌⊎◌, inl, inr,
  Bool-cases, arith, subst,
}
use taas_server_py.Exec.{ok_same, Result, ok, err}
use taas_server_py.KaspaFees.{
  sum, FeeEstimate, estimate_for, mass_of, change_of, is_positive, outcome,
}

module _ (fee_at : ℕ → ℕ) (priority_fee script_len payload_len : ℕ) where
  abbrev mass_with : List ℕ → List ℕ → ℕ
  mass_with = mass_of fee_at priority_fee script_len payload_len

  -- the fee of a transaction with this compute mass
  abbrev pub fee_for : ℕ → ℕ
  fee_for cm = fee_at cm + priority_fee

  pub record Estimates (inputs : List ℕ) (send_amount : ℕ) (r : FeeEstimate) : Type 0 where
    pub network : r.network_mass ≡ max_of r.compute_mass r.storage_mass
    pub same_fee : r.fee ≡ fee_for r.compute_mass
    pub same_inputs : r.n_inputs ≡ length inputs
    pub balanced : r.change ≡ sum inputs ⊖ (send_amount + r.fee)
    pub outputs :
        ((r.n_outputs ≡ 2)
          × (r.compute_mass ≡ mass_with inputs (script_len ∷ script_len ∷ []))
          × (send_amount + r.fee < sum inputs))
        ⊎ ((r.n_outputs ≡ 1)
            × (r.compute_mass ≡ mass_with inputs (script_len ∷ []))
            × (sum inputs
                ≤ send_amount + fee_for (mass_with inputs (script_len ∷ script_len ∷ []))))

  difference_positive : (a b : ℕ) → is_positive (a ⊖ b) ≡ true → b < a
  difference_positive a b h = ground arith

  difference_not : (a b : ℕ) → is_positive (a ⊖ b) ≡ false → a ≤ b
  difference_not a b h = ground arith

  two_outputs :
      (inputs : List ℕ) (send_amount : ℕ) (sm : Result ℕ) (r : FeeEstimate)
      → is_positive (
          change_of fee_at priority_fee script_len payload_len inputs send_amount
            (mass_with inputs (script_len ∷ script_len ∷ [])))
        ≡ true
      → outcome fee_at priority_fee script_len payload_len
          (mass_with inputs (script_len ∷ script_len ∷ []))
          (change_of fee_at priority_fee script_len payload_len inputs send_amount
            (mass_with inputs (script_len ∷ script_len ∷ [])))
          (length inputs)
          2
          sm
        ≡ ok r
      → Estimates inputs send_amount r
  two_outputs inputs send_amount (ok sm) r left h =
      subst (Estimates inputs send_amount) (ok_same h) (record {
        network = refl;
        same_fee = refl;
        same_inputs = refl;
        balanced = refl;
        outputs = inl (refl, refl, difference_positive _ _ left);
      })
  two_outputs inputs send_amount (err x) r left h = absurd cc

  one_output :
      (inputs : List ℕ) (send_amount : ℕ) (sm : Result ℕ) (r : FeeEstimate)
      → is_positive (
          change_of fee_at priority_fee script_len payload_len inputs send_amount
            (mass_with inputs (script_len ∷ script_len ∷ [])))
        ≡ false
      → outcome fee_at priority_fee script_len payload_len
          (mass_with inputs (script_len ∷ []))
          (change_of fee_at priority_fee script_len payload_len inputs send_amount
            (mass_with inputs (script_len ∷ [])))
          (length inputs)
          1
          sm
        ≡ ok r
      → Estimates inputs send_amount r
  one_output inputs send_amount (ok sm) r none_left h =
      subst (Estimates inputs send_amount) (ok_same h) (record {
        network = refl;
        same_fee = refl;
        same_inputs = refl;
        balanced = refl;
        outputs = inr (refl, refl, difference_not _ _ none_left);
      })
  one_output inputs send_amount (err x) r none_left h = absurd cc

  -- An estimate balances: the change is what the inputs leave of the amount and the fee, negative if
  -- they do not cover both, and the fee is that of the compute mass with the outputs that it counts. It
  -- counts a second output exactly if there is change left after paying for it.
  pub estimate_for-Estimates :
      (inputs : List ℕ) (send_amount : ℕ) (r : FeeEstimate)
      → estimate_for fee_at priority_fee script_len payload_len inputs send_amount ≡ ok r
      → Estimates inputs send_amount r
  unfolding estimate_for
  estimate_for-Estimates inputs send_amount r h =
      elim (Bool-cases (
        is_positive (
          change_of fee_at priority_fee script_len payload_len inputs send_amount
            (mass_with inputs (script_len ∷ script_len ∷ []))))) [
              | inl left ↦ two_outputs inputs send_amount _ r left (rw left at h)
              | inr none_left ↦ one_output inputs send_amount _ r none_left (rw none_left at h)
            ]
