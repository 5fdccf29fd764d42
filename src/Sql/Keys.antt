-- ===== src/Sql/Keys.antt =====
-- Rows with a primary key: a batch that a select gives, against the rows of the table.
use text.Mathlib.TextPositions.{eq_refl}
use taas_server_py.Prelude.{
  ◌∙◌, sym, ap, none, some, ap₂, ℕ, zero, suc, ◌+◌, ◌≤◌, ◌<◌, String, Bool, true, false, ◌&&◌, not,
  List, [], ◌∷◌, map, All, count, ◌≡◌, refl, arith, inl, inr, Bool-cases, str_eq,
}
use taas_server_py.Sql.{updated, one_or_none, Table, TableLaws, is_in}

module _ {A : Type 0} where
  -- an element that passes a test, with every test that it passes counted
  pub find :
      (p : A → Bool) (xs : List A)
      → 0 < count p xs
      → (x : A) × (p x ≡ true) × ((q : A → Bool) → q x ≡ true → 0 < count q xs)
  find p [] h = absurd (omega arith)
  find p (x ∷ xs) h = elim (Bool-cases (p x)) [
    | inl here ↦ (x, here, λ q e. ground arith)
    | inr there ↦
        let (y, e, counts) = find p xs (ground arith) in (y, e, λ q f. omega (arith, counts q f))
  ]

  pub All-of_count : (p : A → Bool) (xs : List A) → count p xs ≡ 0 → All (λ x. p x ≡ false) xs
  All-of_count p [] h = tt
  All-of_count p (x ∷ xs) h = (ground arith, All-of_count p xs (omega arith))

  pub All-weaken : {P Q : A → Type 0} → ((x : A) → P x → Q x) → (xs : List A) → All P xs → All Q xs
  All-weaken f [] h = tt
  All-weaken f (x ∷ xs) h = (f x h.0, All-weaken f xs h.1)

  pub All-both :
      {P Q R : A → Type 0}
      → ((x : A) → P x → Q x → R x)
      → (xs : List A) → All P xs
      → All Q xs
      → All R xs
  All-both f [] h k = tt
  All-both f (x ∷ xs) h k = (f x h.0 k.0, All-both f xs h.1 k.1)

  pub All-map :
      (P : A → Type 0) (f : A → A) → ((x : A) → P (f x)) → (xs : List A) → All P (map f xs)
  All-map P f h [] = tt
  All-map P f h (x ∷ xs) = (h x, All-map P f h xs)

  pub All-map_of :
      (P : A → Type 0) (f : A → A) (xs : List A) → All (λ x. P (f x)) xs → All P (map f xs)
  All-map_of P f [] h = tt
  All-map_of P f (x ∷ xs) h = (h.0, All-map_of P f xs h.1)

  pub count-map_none :
      (p : A → Bool) (f : A → A)
      → ((x : A) → p (f x) ≡ false)
      → (xs : List A) → count p (map f xs) ≡ 0
  count-map_none p f h [] = refl
  count-map_none p f h (x ∷ xs) = ground (arith, h x, count-map_none p f h xs)

  pub count-map_same :
      (p : A → Bool) (f : A → A)
      → ((x : A) → p (f x) ≡ p x)
      → (xs : List A) → count p (map f xs) ≡ count p xs
  count-map_same p f h [] = refl
  count-map_same p f h (x ∷ xs) = ground (arith, h x, count-map_same p f h xs)

  pub count_twice : (p : A → Bool) (xs : List A) → count (λ x. p x && p x) xs ≡ count p xs
  count_twice p [] = refl
  count_twice p (x ∷ xs) = ground (arith, count_twice p xs)

  count_split :
      (k d : A → Bool) (xs : List A)
      → count (λ x. k x && d x) xs + count (λ x. k x && not (d x)) xs ≡ count k xs
  count_split k d [] = omega arith
  count_split k d (x ∷ xs) = ground (arith, count_split k d xs)

  count_none : (p : A → Bool) (xs : List A) → All (λ x. p x ≡ false) xs → count p xs ≡ 0
  count_none p [] h = refl
  count_none p (x ∷ xs) h = ground (arith, count_none p xs h.1)

module _ {Row : Type 0} (id_of : Row → String) where
  abbrev pub has_key : String → Row → Bool
  has_key k r = str_eq (id_of r) k

  abbrev pub is_among : List Row → Row → Bool
  is_among batch r = is_in (id_of r) (map id_of batch)

  -- no two rows of a table have the same key
  abbrev pub IsKeyed : List Row → Type 0
  IsKeyed rows = (k : String) → count (has_key k) rows ≤ 1

  -- An update that leaves the keys leaves a keyed table.
  pub map-IsKeyed :
      (f : Row → Row)
      → ((r : Row) → id_of (f r) ≡ id_of r)
      → (rows : List Row) → IsKeyed rows
      → IsKeyed (map f rows)
  map-IsKeyed f same rows keyed k =
      rw (count-map_same (has_key k) f (λ r. ap (λ i. str_eq i k) (same r)) rows) (keyed k)

  found_among :
      (batch : List Row) (r : Row) → is_among batch r ≡ true → 0 < count (has_key (id_of r)) batch
  found_among [] r h = cc
  found_among (e ∷ batch) r h = ground (arith, found_among batch r)

  module _ (db : Table Row) (laws : TableLaws db) (skip : Bool) (test : Row → Bool)
      (order : Row → ℕ) (n : ℕ) (t : db.Tbl) where
    abbrev batch : List Row
    batch = db.select_batch skip test order n t

    batch_all_pass : (k : String) → count (λ x. has_key k x && not (test x)) batch ≡ 0
    batch_all_pass k =
        count_none _ batch
          (All-weaken (λ x passes. ground arith) batch (laws.select_batch-test skip test order n t))

    -- A row with the key of a selected one was selected by its own test.
    pub batch_sound :
        IsKeyed (db.rows t) → All (λ r. (is_among batch r && not (test r)) ≡ false) (db.rows t)
    batch_sound keyed = All-of_count _ (db.rows t) (no_bad (count bad (db.rows t)) refl)
      where
        bad : Row → Bool
        bad r = is_among batch r && not (test r)

        no_bad : (m : ℕ) → count bad (db.rows t) ≡ m → count bad (db.rows t) ≡ 0
        no_bad zero e = e
        no_bad (suc m) e =
            let (r, is_bad, counts) = find bad (db.rows t) (omega (arith, e)) in
            let k : Row → Bool = has_key (id_of r) in
            let failing = counts (λ x. k x && not (test x)) (ground (arith, eq_refl (id_of r))) in
            absurd (
              omega (
                arith,
                failing,
                found_among batch r (ground arith),
                count_split k test batch,
                batch_all_pass (id_of r),
                laws.select_batch-count skip test (λ x. k x && test x) order n t,
                count_split k test (db.rows t),
                keyed (id_of r),
              ))

  map_same :
      {P : Row → Type 0} (f g : Row → Row)
      → ((r : Row) → P r → f r ≡ g r)
      → (xs : List Row) → All P xs
      → map f xs ≡ map g xs
  map_same f g h [] hs = refl
  map_same f g h (x ∷ xs) hs = ap₂ (λ y ys. y ∷ ys) (h x hs.0) (map_same f g h xs hs.1)

  map_fix :
      {P : Row → Type 0} (f : Row → Row)
      → ((r : Row) → P r → r ≡ f r)
      → (xs : List Row) → All P xs
      → xs ≡ map f xs
  map_fix f h [] hs = refl
  map_fix f h (x ∷ xs) hs = ap₂ (λ y ys. y ∷ ys) (h x hs.0) (map_fix f h xs hs.1)

  -- In a list with at most one row of a key, two rows with that key are one.
  one_of_key :
      (k : String) (xs : List Row)
      → count (has_key k) xs ≤ 1
      → All (λ a. has_key k a ≡ true → All (λ b. has_key k b ≡ true → a ≡ b) xs) xs
  one_of_key k [] h = tt
  one_of_key k (x ∷ xs) h = elim (Bool-cases (has_key k x)) [
    | inl here ↦
        let rest = All-of_count (has_key k) xs (ground arith) in
        (
          λ _. (λ _. refl, All-weaken (λ b no_key key. cc) xs rest),
          All-weaken (λ a no_key key. cc) xs rest,
        )
    | inr there ↦ (
      λ key. cc,
      All-weaken (λ a same key. (λ other. cc, same key)) xs (one_of_key k xs (ground arith)),
    )
  ]

  module _ (db : Table Row) (laws : TableLaws db) (k : String) (t : db.Tbl)
      (keyed : IsKeyed (db.rows t)) where
    selected :
        (e : Row)
        → one_or_none (db.select_where (has_key k) t) ≡ some e
        → All (λ r. has_key k r ≡ true → e ≡ r) (db.rows t)
    selected e found =
        first (db.select_where (has_key k) t) found (laws.select_where-test (has_key k) t)
          (laws.select_where-mem _ (has_key k) t (one_of_key k (db.rows t) (keyed k)))
      where
        first :
            (rows : List Row)
            → one_or_none rows ≡ some e
            → All (λ r. has_key k r ≡ true) rows
            → All (λ a. has_key k a ≡ true → All (λ b. has_key k b ≡ true → a ≡ b) (db.rows t)) rows
            → All (λ r. has_key k r ≡ true → e ≡ r) (db.rows t)
        first [] found passes same = cc
        first (x ∷ rows) found passes same =
            All-weaken (λ b f key. cc (f key)) (db.rows t) (same.0 passes.0)

    -- An update whose values come from the selected row is an update of each row by its own values.
    pub update_selected :
        (change : Row → Row → Row) (e : Row)
        → one_or_none (db.select_where (has_key k) t) ≡ some e
        → db.rows (db.update_where (has_key k) (change e) t)
          ≡ map (updated (has_key k) (λ r. change r r)) (db.rows t)
    update_selected change e found =
        laws.rows-update_where (has_key k) (change e) t
        ∙ map_same (updated (has_key k) (change e)) (updated (has_key k) (λ r. change r r)) each
            (db.rows t) (selected e found)
      where
        each :
            (r : Row)
            → (has_key k r ≡ true → e ≡ r)
            → updated (has_key k) (change e) r ≡ updated (has_key k) (λ x. change x x) r
        each r same = elim (Bool-cases (has_key k r)) [
          | inl key ↦ rw key (ap (λ x. change x r) (same key))
          | inr other ↦ rw other
        ]

    -- Where nothing is selected, no row has the key.
    pub none_selected :
        (f : Row → Row)
        → one_or_none (db.select_where (has_key k) t) ≡ none
        → db.rows t ≡ map (updated (has_key k) f) (db.rows t)
    none_selected f absent =
        map_fix (updated (has_key k) f) (λ r no_key. ground arith) (db.rows t)
          (All-of_count (λ r. has_key k r && has_key k r) (db.rows t)
            (sym (laws.select_where-count (has_key k) (has_key k) t)
              ∙ none_counted (db.select_where (has_key k) t) absent))
      where
        none_counted : (rows : List Row) → one_or_none rows ≡ none → count (has_key k) rows ≡ 0
        none_counted [] h = refl
        none_counted (x ∷ rows) h = cc
