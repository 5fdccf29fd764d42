-- ===== src/KaspaFees/Selection.antt =====
-- Which inputs an estimate takes.
use mathlib.Core.List.{append_assoc}
use taas_server_py.Prelude.{
  ℕ, ◌≤◌, ◌++◌, ◌&&◌, Bool, true, false, List, [], ◌∷◌, leb, count, All, if◌then◌else◌, ◌≡◌, refl,
  ◌⊎◌, inl, inr, Bool-cases, arith, sym, ap, subst, ◌∙◌, leb→le,
}
use taas_server_py.Exec.{ok_same, Result, ok, err}
use taas_server_py.KaspaFees.{
  FeeEstimate, estimate_for, suffices, select, sorted, insert_sorted, estimate_fee, first_estimate,
}

module _ (fee_at : ℕ → ℕ) (priority_fee script_len payload_len : ℕ) where
  abbrev est : List ℕ → ℕ → Result FeeEstimate
  est = estimate_for fee_at priority_fee script_len payload_len

  abbrev pub enough : ℕ → List ℕ → FeeEstimate → Bool
  enough = suffices fee_at priority_fee script_len payload_len

  -- the first amounts do not suffice: one of them, two of them and so on, from those taken before
  pub TooFew : ℕ → List ℕ → List ℕ → Type 0
  TooFew send taken [] = Unit
  TooFew send taken (a ∷ more) =
      ((r : FeeEstimate) × (est (taken ++ a ∷ []) send ≡ ok r)
        × (enough send (taken ++ a ∷ []) r ≡ false))
      × TooFew send (taken ++ a ∷ []) more

  -- of `amounts` those before and with `last` are taken: without `last` they do not suffice, and with
  -- it they do unless none is left
  pub record Selects (send : ℕ) (taken amounts : List ℕ) (r : FeeEstimate) : Type 0 where
    pub before : List ℕ
    pub last : ℕ
    pub rest : List ℕ
    pub split : amounts ≡ before ++ last ∷ rest
    pub too_few : TooFew send taken before
    pub estimate : est (taken ++ (before ++ last ∷ [])) send ≡ ok r
    pub stops : (enough send (taken ++ (before ++ last ∷ [])) r ≡ true) ⊎ (rest ≡ [])

  -- one round of the loop
  abbrev pub round : Bool → ℕ → List ℕ → List ℕ → Result FeeEstimate → Result FeeEstimate
  round flag send taken amounts out = elim out [
    | err exn ↦ err exn
    | ok r ↦
        (let more = select fee_at priority_fee script_len payload_len flag send taken r amounts in
          if flag && enough send taken r then ok r else more)
  ]

  round-Selects :
      (send : ℕ) (taken : List ℕ) (a : ℕ) (amounts : List ℕ) (r : FeeEstimate)
      (out : Result FeeEstimate)
      → est (taken ++ a ∷ []) send ≡ out
      → round true send (taken ++ a ∷ []) amounts out ≡ ok r
      → ((r' : FeeEstimate)
          → est (taken ++ a ∷ []) send ≡ ok r'
          → enough send (taken ++ a ∷ []) r' ≡ false
          → select fee_at priority_fee script_len payload_len true send (taken ++ a ∷ []) r' amounts
            ≡ ok r
          → Selects send taken (a ∷ amounts) r)
      → Selects send taken (a ∷ amounts) r
  unfolding TooFew
  round-Selects send taken a amounts r (err x) e h go_on = absurd cc
  round-Selects send taken a amounts r (ok r') e h go_on =
      elim (Bool-cases (enough send (taken ++ a ∷ []) r')) [
        | inr too_few ↦ go_on r' e too_few (rw too_few at h)
        | inl stop ↦
            (let same : r' ≡ r = ok_same (rw stop at h) in
              record {
                before = [];
                last = a;
                rest = amounts;
                split = refl;
                too_few = tt;
                estimate = rw (sym same) e;
                stops = inl (rw (sym same) stop);
              })
      ]

  one_more :
      (send : ℕ) (taken : List ℕ) (a b : ℕ) (more : List ℕ) (r r' : FeeEstimate)
      → est (taken ++ a ∷ []) send ≡ ok r'
      → enough send (taken ++ a ∷ []) r' ≡ false
      → Selects send (taken ++ a ∷ []) (b ∷ more) r
      → Selects send taken (a ∷ b ∷ more) r
  unfolding TooFew
  one_more send taken a b more r r' e too_few s =
      let same = append_assoc taken (a ∷ []) (s.before ++ s.last ∷ []) in
      record {
        before = a ∷ s.before;
        last = s.last;
        rest = s.rest;
        split = ap (λ xs. a ∷ xs) s.split;
        too_few = ((r', e, too_few), s.too_few);
        estimate = subst (λ xs. est xs send ≡ ok r) same s.estimate;
        stops = subst (λ xs. (enough send xs r ≡ true) ⊎ (s.rest ≡ [])) same s.stops;
      }

  select-Selects :
      (send : ℕ) (taken : List ℕ) (result : FeeEstimate) (a : ℕ) (amounts : List ℕ)
      (r : FeeEstimate)
      → select fee_at priority_fee script_len payload_len true send taken result (a ∷ amounts)
        ≡ ok r
      → Selects send taken (a ∷ amounts) r
  unfolding select TooFew
  select-Selects send taken result a [] r h =
      round-Selects send taken a [] r (est (taken ++ a ∷ []) send) refl h (λ r' e too_few last.
        record {
          before = [];
          last = a;
          rest = [];
          split = refl;
          too_few = tt;
          estimate = e ∙ last;
          stops = inr refl;
        })
  select-Selects send taken result a (b ∷ more) r h =
      round-Selects send taken a (b ∷ more) r (est (taken ++ a ∷ []) send) refl h
        (λ r' e too_few rest.
          one_more send taken a b more r r' e too_few
            (select-Selects send (taken ++ a ∷ []) r' b more r rest))

  -- Python's order of the amounts
  abbrev smallest_first : List ℕ → List ℕ
  smallest_first = sorted fee_at priority_fee script_len payload_len

  abbrev pub insert_one : ℕ → List ℕ → List ℕ
  insert_one = insert_sorted fee_at priority_fee script_len payload_len

  pub insert_one-nonempty :
      (a : ℕ) (xs : List ℕ) → (y : ℕ) × (ys : List ℕ) × (insert_one a xs ≡ y ∷ ys)
  insert_one-nonempty a [] = (a, [], refl)
  insert_one-nonempty a (x ∷ xs) = elim (Bool-cases (leb a x)) [
    | inl first ↦ rw first (a, x ∷ xs, refl)
    | inr behind ↦ rw behind (x, insert_one a xs, refl)
  ]

  first-Selects :
      (send : ℕ) (amounts : List ℕ) (a : ℕ) (rest : List ℕ) (r : FeeEstimate)
      (out : Result FeeEstimate)
      → amounts ≡ a ∷ rest
      → first_estimate fee_at priority_fee script_len payload_len true send amounts out ≡ ok r
      → Selects send [] amounts r
  first-Selects send amounts a rest r (err x) e h = absurd cc
  first-Selects send amounts a rest r (ok r') e h =
      subst (λ xs. Selects send [] xs r) (sym e) (select-Selects send [] r' a rest r (rw e at h))

  -- ascending, and the same amounts as often
  pub IsAscending : List ℕ → Type 0
  IsAscending [] = Unit
  IsAscending (x ∷ xs) = All (λ y. x ≤ y) xs × IsAscending xs

  pub record SmallestFirst (utxos amounts : List ℕ) : Type 0 where
    pub ascending : IsAscending amounts
    pub same_amounts : (p : ℕ → Bool) → count p amounts ≡ count p utxos

  All-le : (a b : ℕ) (xs : List ℕ) → a ≤ b → All (λ y. b ≤ y) xs → All (λ y. a ≤ y) xs
  All-le a b [] h hs = tt
  All-le a b (x ∷ xs) h (hx, hs) = (omega (arith, hx), All-le a b xs h hs)

  pub insert_one-All :
      (a b : ℕ) (xs : List ℕ) → b ≤ a → All (λ y. b ≤ y) xs → All (λ y. b ≤ y) (insert_one a xs)
  insert_one-All a b [] h hs = (h, tt)
  insert_one-All a b (x ∷ xs) h (hx, hs) = elim (Bool-cases (leb a x)) [
    | inl first ↦ rw first (h, (hx, hs))
    | inr behind ↦ rw behind (hx, insert_one-All a b xs h hs)
  ]

  insert_one-IsAscending : (a : ℕ) (xs : List ℕ) → IsAscending xs → IsAscending (insert_one a xs)
  unfolding IsAscending
  insert_one-IsAscending a [] hs = (tt, tt)
  insert_one-IsAscending a (x ∷ xs) (hx, hs) = elim (Bool-cases (leb a x)) [
    | inl first ↦ rw first ((leb→le a x first, All-le a x xs (leb→le a x first) hx), (hx, hs))
    | inr behind ↦
        rw behind
          (insert_one-All a x xs (ground (arith, behind)) hx, insert_one-IsAscending a xs hs)
  ]

  count-insert_one :
      (p : ℕ → Bool) (a : ℕ) (xs : List ℕ) → count p (insert_one a xs) ≡ count p (a ∷ xs)
  count-insert_one p a [] = refl
  count-insert_one p a (x ∷ xs) = elim (Bool-cases (leb a x)) [
    | inl first ↦ rw first refl
    | inr behind ↦ rw behind (omega (arith, count-insert_one p a xs))
  ]

  sorted-IsAscending : (xs : List ℕ) → IsAscending (smallest_first xs)
  unfolding IsAscending
  sorted-IsAscending [] = tt
  sorted-IsAscending (x ∷ xs) = insert_one-IsAscending x (smallest_first xs) (sorted-IsAscending xs)

  count-sorted : (p : ℕ → Bool) (xs : List ℕ) → count p (smallest_first xs) ≡ count p xs
  count-sorted p [] = refl
  count-sorted p (x ∷ xs) =
      omega (arith, count-insert_one p x (smallest_first xs), count-sorted p xs)

  -- The selection takes the smallest amounts, one after another, until those that it has cover the
  -- amount and the fee with a storage mass within the compute mass, or none is left. Its estimate is
  -- that of the amounts it took, and no fewer of the smallest suffice.
  pub estimate_fee-Selects :
      (utxos : List ℕ) (send : ℕ) (r : FeeEstimate)
      → estimate_fee fee_at priority_fee script_len payload_len utxos send true ≡ ok r
      → SmallestFirst utxos (smallest_first utxos) × Selects send [] (smallest_first utxos) r
  unfolding estimate_fee
  estimate_fee-Selects [] send r h = absurd cc
  estimate_fee-Selects (u ∷ utxos) send r h =
      let (a, rest, e) = insert_one-nonempty u (smallest_first utxos) in
      (
        record {
          ascending = sorted-IsAscending (u ∷ utxos);
          same_amounts = λ p. count-sorted p (u ∷ utxos);
        },
        first-Selects send (smallest_first (u ∷ utxos)) a rest r _ e h,
      )
