-- ===== src/Sql/Model.antt =====
-- A table as the list of its rows, sorted where a select asks for it: the laws can be met.
use taas_server_py.Prelude.{
  ◌&&◌, inr, inl, Bool-cases, ℕ, zero, suc, ◌≤◌, Bool, true, List, [], ◌∷◌, ◌++◌, map, All, count,
  keep, take, length-take, not, if◌then◌else◌, leb, ◌≡◌, refl, arith,
}
use taas_server_py.Sql.{Table, TableLaws, updated}

module _ {Row : Type 0} where
  abbrev earlier : (Row → ℕ) → Row → Row → Bool
  earlier key r x = leb (key r) (key x)

  abbrev insert_by : (Row → Row → Bool) → Row → List Row → List Row
  insert_by before r [] = r ∷ []
  insert_by before r (x ∷ xs) = if before r x then r ∷ x ∷ xs else x ∷ insert_by before r xs

  abbrev sort_by : (Row → Row → Bool) → List Row → List Row
  sort_by before [] = []
  sort_by before (x ∷ xs) = insert_by before x (sort_by before xs)

  keep-All : (test : Row → Bool) (xs : List Row) → All (λ r. test r ≡ true) (keep test xs)
  keep-All test [] = tt
  keep-All test (x ∷ xs) = elim (Bool-cases (test x)) [
    | inl passes ↦ rw passes (passes, keep-All test xs)
    | inr not_passed ↦ rw not_passed (keep-All test xs)
  ]

  insert_by-All :
      (P : Row → Type 0) (before : Row → Row → Bool) (r : Row) (xs : List Row)
      → P r
      → All P xs
      → All P (insert_by before r xs)
  insert_by-All P before r [] h hs = (h, tt)
  insert_by-All P before r (x ∷ xs) h hs = elim (Bool-cases (before r x)) [
    | inl first ↦ rw first (h, hs)
    | inr behind ↦ rw behind (hs.0, insert_by-All P before r xs h hs.1)
  ]

  sort_by-All :
      (P : Row → Type 0) (before : Row → Row → Bool) (xs : List Row)
      → All P xs
      → All P (sort_by before xs)
  sort_by-All P before [] hs = tt
  sort_by-All P before (x ∷ xs) hs =
      insert_by-All P before x (sort_by before xs) hs.0 (sort_by-All P before xs hs.1)

  take-All : (P : Row → Type 0) (n : ℕ) (xs : List Row) → All P xs → All P (take n xs)
  take-All P zero xs hs = tt
  take-All P (suc n) [] hs = tt
  take-All P (suc n) (x ∷ xs) hs = (hs.0, take-All P n xs hs.1)

  count-keep : (test p : Row → Bool) (xs : List Row) → count p (keep test xs) ≤ count p xs
  count-keep test p [] = omega arith
  count-keep test p (x ∷ xs) = ground (arith, count-keep test p xs)

  count-keep_eq :
      (test p : Row → Bool) (xs : List Row) → count p (keep test xs) ≡ count (λ r. test r && p r) xs
  count-keep_eq test p [] = refl
  count-keep_eq test p (x ∷ xs) = ground (arith, count-keep_eq test p xs)

  keep-mem :
      (P : Row → Type 0) (test : Row → Bool) (xs : List Row) → All P xs → All P (keep test xs)
  keep-mem P test [] h = tt
  keep-mem P test (x ∷ xs) h = elim (Bool-cases (test x)) [
    | inl passes ↦ rw passes (h.0, keep-mem P test xs h.1)
    | inr not_passed ↦ rw not_passed (keep-mem P test xs h.1)
  ]

  count-take : (p : Row → Bool) (n : ℕ) (xs : List Row) → count p (take n xs) ≤ count p xs
  count-take p zero xs = omega arith
  count-take p (suc n) [] = omega arith
  count-take p (suc n) (x ∷ xs) = omega (arith, count-take p n xs)

  count-insert_by :
      (p : Row → Bool) (before : Row → Row → Bool) (r : Row) (xs : List Row)
      → count p (insert_by before r xs) ≡ count p (r ∷ xs)
  count-insert_by p before r [] = refl
  count-insert_by p before r (x ∷ xs) = elim (Bool-cases (before r x)) [
    | inl first ↦ rw first
    | inr behind ↦ rw behind (omega (arith, count-insert_by p before r xs))
  ]

  count-sort_by :
      (p : Row → Bool) (before : Row → Row → Bool) (xs : List Row)
      → count p (sort_by before xs) ≡ count p xs
  count-sort_by p before [] = refl
  count-sort_by p before (x ∷ xs) =
      omega (arith, count-insert_by p before x (sort_by before xs), count-sort_by p before xs)

  abbrev pub list_table : Table Row
  list_table = record {
    Tbl = List Row;
    rows = λ t. t;
    add_row = λ r t. t ++ r ∷ [];
    update_where = λ test change t. map (updated test change) t;
    delete_where = λ test t. keep (λ r. not (test r)) t;
    count_where = λ test t. count test t;
    select_where = λ test t. keep test t;
    select_batch = λ skip test key n t. take n (sort_by (earlier key) (keep test t));
    select_latest = λ test key n t. take n (sort_by (λ r x. earlier key x r) (keep test t));
  }

  batch_count :
      (test p : Row → Bool) (before : Row → Row → Bool) (n : ℕ) (t : List Row)
      → count p (take n (sort_by before (keep test t))) ≤ count p t
  batch_count test p before n t = omega (
    arith,
    count-take p n (sort_by before (keep test t)),
    count-sort_by p before (keep test t),
    count-keep test p t,
  )

  batch_All :
      (before : Row → Row → Bool) (test : Row → Bool) (n : ℕ) (t : List Row)
      → All (λ r. test r ≡ true) (take n (sort_by before (keep test t)))
  batch_All before test n t =
      take-All _ n (sort_by before (keep test t))
        (sort_by-All _ before (keep test t) (keep-All test t))

  pub list_table-laws : TableLaws list_table
  list_table-laws = record {
    rows-add_row = λ r t. refl;
    rows-update_where = λ test change t. refl;
    rows-delete_where = λ test t. refl;
    count_where-rows = λ test t. refl;
    select_where-test = keep-All;
    select_where-count = count-keep_eq;
    select_where-mem = keep-mem;
    select_batch-test = λ skip test key n t. batch_All (earlier key) test n t;
    select_batch-limit = λ skip test key n t. length-take n (sort_by (earlier key) (keep test t));
    select_batch-count = λ skip test p key n t. batch_count test p (earlier key) n t;
    select_latest-test = λ test key n t. batch_All (λ r x. earlier key x r) test n t;
    select_latest-limit =
        λ test key n t. length-take n (sort_by (λ r x. earlier key x r) (keep test t));
  }
