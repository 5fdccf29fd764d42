-- ===== src/Sql/Batches.antt =====
-- Batches that a select gives after an update.
use taas_server_py.Prelude.{
  ℕ, Bool, false, ◌&&◌, List, [], ◌∷◌, map, All, count, ◌≡◌, refl, ap, arith,
}
use taas_server_py.Sql.{Table, TableLaws, updated}
use taas_server_py.Sql.Keys.{All-both, All-of_count, count-map_none}

module _ {Row : Type 0} (db : Table Row) (laws : TableLaws db) where
  -- If an update leaves no row that passes both tests, a batch by the second holds none of the first.
  pub batch_avoids :
      (p test : Row → Bool) (f : Row → Row) (skip : Bool) (order : Row → ℕ) (n : ℕ) (t t' : db.Tbl)
      → db.rows t' ≡ map f (db.rows t)
      → ((r : Row) → (p (f r) && test (f r)) ≡ false)
      → All (λ r. p r ≡ false) (db.select_batch skip test order n t')
  batch_avoids p test f skip order n t t' same none =
      let both = λ (r : Row). p r && test r in
      let batch = db.select_batch skip test order n t' in
      let none_left : count both (db.rows t') ≡ 0 =
        rw same (count-map_none both f none (db.rows t)) in
      All-both (λ r a b. ground arith) batch
        (All-of_count both batch
          (omega (arith, none_left, laws.select_batch-count skip test both order n t')))
        (laws.select_batch-test skip test order n t')

  pub map_none :
      (p : Row → Bool) (f : Row → Row)
      → ((r : Row) → p r ≡ false)
      → (rows : List Row) → rows ≡ map (updated p f) rows
  map_none p f h [] = refl
  map_none p f h (r ∷ rows) = rw (h r) (ap (λ rest. r ∷ rest) (map_none p f h rows))
