-- ===== src/KaspaFees/Total.antt =====
-- Positive amounts always have an estimate.
use taas_server_py.KaspaFees.Selection.{round, insert_one-All, insert_one-nonempty}
use taas_server_py.Prelude.{
  ℕ, suc, ◌+◌, ◌≤◌, ◌==◌, ◌++◌, ◌&&◌, ◌||◌, Bool, true, false, List, [], ◌∷◌, length, leb, All,
  All-append, ◌≡◌, refl, inl, inr, Bool-cases, arith, ℤ, pos, negsuc, subst, sym,
}
use taas_server_py.Exec.{Result, ok, err}
use taas_server_py.KaspaFees.{
  sum, FeeEstimate, estimate_for, suffices, select, sorted, estimate_fee, first_estimate, harmonic,
  storage_mass, outcome, is_positive, amount_of, change_of, mass_of,
}

abbrev pub Positive : List ℕ → Type 0
Positive = All (λ a. 1 ≤ a)

abbrev Total {ℓ} : {A : Type ℓ} → Result A → Type ℓ
Total {A = A} out = (a : A) × (out ≡ ok a)

nonzero : (a : ℕ) → 1 ≤ a → (a == 0) ≡ false
nonzero a h = ground arith

harmonic-Total : (amounts : List ℕ) → Positive amounts → Total (harmonic amounts)
unfolding harmonic
harmonic-Total [] h = (0, refl)
harmonic-Total (a ∷ amounts) (ha, h) =
    let (n, e) = harmonic-Total amounts h in rw (nonzero a ha, e) (_, refl)

storage_mass-Total :
    (i : ℕ) (inputs outputs : List ℕ)
    → Positive (i ∷ inputs)
    → Positive outputs
    → Total (storage_mass (i ∷ inputs) outputs)
unfolding storage_mass
storage_mass-Total i inputs outputs ins outs =
    let (n, e) = harmonic-Total outputs outs in
    let (m, e') = harmonic-Total (i ∷ inputs) ins in
    rw e
      (elim (Bool-cases (
        (leb (length outputs) (suc (length inputs)) && leb (suc (length inputs)) 2)
        || length outputs == 1)) [
          | inl relaxed ↦ rw (relaxed, e') (_, refl)
          | inr standard ↦ rw (standard, nonzero (i + sum inputs) (omega (arith, ins.0))) (_, refl)
        ])

module _ (fee_at : ℕ → ℕ) (priority_fee script_len payload_len : ℕ) where
  abbrev est : List ℕ → ℕ → Result FeeEstimate
  est = estimate_for fee_at priority_fee script_len payload_len

  outcome-Total :
      (cm n_in n_out : ℕ) (change : ℤ) (sm : Result ℕ)
      → Total sm
      → Total (outcome fee_at priority_fee script_len payload_len cm change n_in n_out sm)
  outcome-Total cm n_in n_out change sm (n, e) = rw e (_, refl)

  amount_positive : (change : ℤ) → is_positive change ≡ true → 1 ≤ amount_of change
  amount_positive (pos n) h = ground arith
  amount_positive (negsuc n) h = absurd cc

  estimate_for-Total :
      (i : ℕ) (inputs : List ℕ) (send : ℕ)
      → Positive (i ∷ inputs)
      → 1 ≤ send
      → Total (est (i ∷ inputs) send)
  unfolding estimate_for
  estimate_for-Total i inputs send ins pos_send =
      let change = change_of fee_at priority_fee script_len payload_len (i ∷ inputs) send (
        mass_of fee_at priority_fee script_len payload_len (i ∷ inputs)
          (script_len ∷ script_len ∷ [])) in
      elim (Bool-cases (is_positive change)) [
        | inl left ↦ rw left (
            outcome-Total _ _ _ _ _ (
              storage_mass-Total i inputs (send ∷ amount_of change ∷ []) ins
                (pos_send, (amount_positive change left, tt))))
        | inr none_left ↦
            rw none_left
              (outcome-Total _ _ _ _ _ (storage_mass-Total i inputs (send ∷ []) ins (pos_send, tt)))
      ]

  append-Total :
      (taken : List ℕ) (a send : ℕ)
      → Positive taken
      → 1 ≤ a
      → 1 ≤ send
      → Total (est (taken ++ a ∷ []) send)
  append-Total [] a send h pos_a pos_send = estimate_for-Total a [] send (pos_a, tt) pos_send
  append-Total (t ∷ taken) a send (ht, h) pos_a pos_send =
      estimate_for-Total t (taken ++ a ∷ []) send (ht, All-append _ taken (a ∷ []) h (pos_a, tt))
        pos_send

  round-Total :
      (flag : Bool) (send : ℕ) (taken amounts : List ℕ) (out : Result FeeEstimate)
      → Total out
      → ((r : FeeEstimate)
          → Total (select fee_at priority_fee script_len payload_len flag send taken r amounts))
      → Total (round fee_at priority_fee script_len payload_len flag send taken amounts out)
  round-Total flag send taken amounts (err x) (r, e) rest = absurd cc
  round-Total flag send taken amounts (ok r) h rest =
      elim (Bool-cases (flag && suffices fee_at priority_fee script_len payload_len send taken r)) [
        | inl stop ↦ rw stop (r, refl)
        | inr go_on ↦ rw go_on (rest r)
      ]

  select-Total :
      (flag : Bool) (send : ℕ) (taken : List ℕ) (result : FeeEstimate) (amounts : List ℕ)
      → 1 ≤ send
      → Positive taken
      → Positive amounts
      → Total (select fee_at priority_fee script_len payload_len flag send taken result amounts)
  unfolding select
  select-Total flag send taken result [] pos_send h hs = (result, refl)
  select-Total flag send taken result (a ∷ amounts) pos_send h (ha, hs) =
      round-Total flag send (taken ++ a ∷ []) amounts _ (append-Total taken a send h ha pos_send)
        (λ r.
          select-Total flag send (taken ++ a ∷ []) r amounts pos_send
            (All-append _ taken (a ∷ []) h (ha, tt)) hs)

  first-Total :
      (flag : Bool) (send : ℕ) (a : ℕ) (amounts : List ℕ) (out : Result FeeEstimate)
      → 1 ≤ send
      → Positive (a ∷ amounts)
      → Total out
      → Total
          (first_estimate fee_at priority_fee script_len payload_len flag send (a ∷ amounts) out)
  first-Total flag send a amounts (err x) pos_send h (r, e) = absurd cc
  first-Total flag send a amounts (ok r) pos_send h e =
      select-Total flag send [] r (a ∷ amounts) pos_send tt h

  sorted-Positive :
      (xs : List ℕ) → Positive xs → Positive (sorted fee_at priority_fee script_len payload_len xs)
  sorted-Positive [] h = tt
  sorted-Positive (x ∷ xs) (hx, h) =
      insert_one-All fee_at priority_fee script_len payload_len x 1
        (sorted fee_at priority_fee script_len payload_len xs) hx (sorted-Positive xs h)

  -- The estimate of one or more positive amounts for a positive amount to send is never an error: no
  -- division is by zero, and the selection ends.
  pub estimate_fee-Total :
      (u : ℕ) (utxos : List ℕ) (send : ℕ) (select_utxos : Bool)
      → Positive (u ∷ utxos)
      → 1 ≤ send
      → (r : FeeEstimate) × (estimate_fee fee_at priority_fee script_len payload_len
            (u ∷ utxos)
            send
            select_utxos
          ≡ ok r)
  unfolding estimate_fee
  estimate_fee-Total u utxos send false h pos_send =
      first-Total false send u utxos _ pos_send h (estimate_for-Total u utxos send h pos_send)
  estimate_fee-Total u utxos send true h pos_send =
      let (a, rest, e) =
        insert_one-nonempty fee_at priority_fee script_len payload_len u
          (sorted fee_at priority_fee script_len payload_len utxos) in
      let hs : Positive (a ∷ rest) = subst Positive e (sorted-Positive (u ∷ utxos) h) in
      subst
        (λ xs.
          Total
            (first_estimate fee_at priority_fee script_len payload_len true send xs (est xs send)))
        (sym e)
        (first-Total true send a rest _ pos_send hs (estimate_for-Total a rest send hs pos_send))
