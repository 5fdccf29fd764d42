-- ===== src/Sql/Selected.antt =====
-- Updates of the row with a key by values that come from that row, as it was selected before.
use taas_server_py.Prelude.{
  sym, List, none, some, [], ◌∷◌, All, count, ◌<◌, ◌∙◌, arith, String, Bool, true, false, map,
  Pointwise, Pointwise-map, ◌≡◌, refl, inl, inr, Bool-cases, Option-cases,
}
use taas_server_py.Sql.{Table, TableLaws, updated, one_or_none, update_found}
use taas_server_py.Sql.Keys.{count_twice, IsKeyed, has_key, update_selected, none_selected}

-- Rows with the key are related by `R`, all others are as they were.
pub record OnlyAt {Row : Type 0} (test : Row → Bool) (R : Row → Row → Type 0) (r r' : Row)
    : Type 0 where
  pub here : test r ≡ true → R r r'
  pub elsewhere : test r ≡ false → r' ≡ r

module _ {Row : Type 0} (id_of : Row → String) (db : Table Row) (laws : TableLaws db)
    (values : Row → Row → Row) (k : String) (t : db.Tbl) (keyed : IsKeyed id_of (db.rows t)) where
  abbrev after : db.Tbl
  after =
      update_found db (has_key id_of k) values (one_or_none (db.select_where (has_key id_of k) t)) t

  pub found_rows : db.rows after ≡ map (updated (has_key id_of k) (λ r. values r r)) (db.rows t)
  found_rows = elim (Option-cases (one_or_none (db.select_where (has_key id_of k) t))) [
    | inl absent ↦ rw absent (none_selected id_of db laws k t keyed (λ r. values r r) absent)
    | inr (row, found) ↦ rw found (update_selected id_of db laws k t keyed values row found)
  ]

  pub found_Pointwise :
      (R : Row → Row → Type 0)
      → ((r : Row) → R r (values r r))
      → Pointwise (OnlyAt (has_key id_of k) R) (db.rows t) (db.rows after)
  found_Pointwise R step =
      rw found_rows (Pointwise-map (updated (has_key id_of k) (λ r. values r r)) each (db.rows t))
    where
      each :
          (r : Row) → OnlyAt (has_key id_of k) R r (updated (has_key id_of k) (λ x. values x x) r)
      each r = elim (Bool-cases (has_key id_of k r)) [
        | inl key ↦ rw key (record { here = λ _. step r; elsewhere = λ no. cc })
        | inr other ↦ rw other (record { here = λ yes. cc; elsewhere = λ _. refl })
      ]

module _ {Row : Type 0} (db : Table Row) (laws : TableLaws db) where
  -- Where some row passes the test, a select gives one, with what holds of all such rows.
  pub selected_one :
      (P : Row → Type 0) (test : Row → Bool) (t : db.Tbl)
      → 0 < count test (db.rows t)
      → All (λ r. test r ≡ true → P r) (db.rows t)
      → (r : Row) × (one_or_none (db.select_where test t) ≡ some r) × P r
  selected_one P test t some_row holds =
      first (db.select_where test t)
        (omega (arith, some_row, laws.select_where-count test test t, count_twice test (db.rows t)))
        (laws.select_where-test test t)
        (laws.select_where-mem (λ r. test r ≡ true → P r) test t holds)
    where
      first :
          (rows : List Row)
          → 0 < count test rows
          → All (λ r. test r ≡ true) rows
          → All (λ r. test r ≡ true → P r) rows
          → (r : Row) × (one_or_none rows ≡ some r) × P r
      first [] h passes hold = absurd (omega (arith, h))
      first (r ∷ rows) h passes hold = (r, refl, hold.0 passes.0)

  -- Where none is selected, none passes the test.
  pub none_selected_count :
      (test : Row → Bool) (t : db.Tbl)
      → one_or_none (db.select_where test t) ≡ none
      → count test (db.rows t) ≡ 0
  none_selected_count test t h =
      sym (count_twice test (db.rows t))
      ∙ sym (laws.select_where-count test test t)
      ∙ empty (db.select_where test t) h
    where
      empty : (rows : List Row) → one_or_none rows ≡ none → count test rows ≡ 0
      empty [] e = refl
      empty (r ∷ rows) e = cc

  pub some_selected_count :
      (test : Row → Bool) (t : db.Tbl) (r : Row)
      → one_or_none (db.select_where test t) ≡ some r
      → 0 < count test (db.rows t)
  some_selected_count test t r h = omega (
    arith,
    some_count (db.select_where test t) h (laws.select_where-test test t),
    laws.select_where-count test test t,
    count_twice test (db.rows t),
  )
    where
      some_count :
          (rows : List Row)
          → one_or_none rows ≡ some r
          → All (λ x. test x ≡ true) rows
          → 0 < count test rows
      some_count [] e passes = cc
      some_count (x ∷ rows) e passes = ground (arith, passes.0)
