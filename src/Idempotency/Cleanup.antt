-- ===== src/Idempotency/Cleanup.antt =====
-- What the clean-up of expired keys deletes.
use taas_server_py.Prelude.{
  ℕ, ◌+◌, ◌≤◌, Bool, true, false, ◌&&◌, not, Option, List, [], ◌∷◌, All, length, count, keep, ◌≡◌,
  refl, arith, str_eq, str_eq_iff, sym,
}
use taas_server_py.Sql.{Table, TableLaws}
use taas_server_py.Sql.Keys.{IsKeyed, has_key, batch_sound}
use taas_server_py.Idempotency.{
  ProcessedEvent, IdempotencyConfig, is_expired, is_among, given_or, cleanup_expired,
}

count_among :
    (batch rows : List ProcessedEvent)
    → IsKeyed (λ r. r.id) rows
    → count (is_among batch) rows ≤ length batch
count_among [] rows keyed = omega (arith, none_among rows)
  where
    none_among : (xs : List ProcessedEvent) → count (is_among []) xs ≡ 0
    none_among [] = refl
    none_among (x ∷ xs) = omega (arith, none_among xs)
count_among (e ∷ batch) rows keyed =
    omega (arith, split rows, count_among batch rows keyed, keyed e.id, same rows)
  where
    same :
        (xs : List ProcessedEvent)
        → count (λ r. str_eq e.id r.id) xs ≤ count (has_key (λ r. r.id) e.id) xs
    same [] = omega arith
    same (x ∷ xs) =
        let swap = λ (h : str_eq e.id x.id ≡ true).
          (str_eq_iff x.id e.id).1 (sym ((str_eq_iff e.id x.id).0 h)) in
        ground (arith, swap, same xs)

    split :
        (xs : List ProcessedEvent)
        → count (is_among (e ∷ batch)) xs
          ≤ count (λ r. str_eq e.id r.id) xs + count (is_among batch) xs
    split [] = omega arith
    split (x ∷ xs) = ground (arith, split xs)

count_rest :
    {A : Type 0} (p : A → Bool) (xs : List A)
    → count p xs + length (keep (λ x. not (p x)) xs) ≡ length xs
count_rest p [] = refl
count_rest p (x ∷ xs) = ground (arith, count_rest p xs)

count_kept :
    {A : Type 0} (gone p : A → Bool) (xs : List A)
    → All (λ x. (gone x && p x) ≡ false) xs
    → count p (keep (λ x. not (gone x)) xs) ≡ count p xs
count_kept gone p [] h = refl
count_kept gone p (x ∷ xs) h = ground (arith, h.0, count_kept gone p xs h.1)

module _ (db : Table ProcessedEvent) (laws : TableLaws db) (cfg : IdempotencyConfig) where
  -- Where ids are keys, a clean-up deletes at most as many rows as given, or as configured, reports
  -- that number, and keeps every row that has not expired.
  pub cleanup_expired-kept :
      (ttl size : Option ℕ) (now : ℕ) (t : db.Tbl)
      → IsKeyed (λ r. r.id) (db.rows t)
      → let (deleted, t') = cleanup_expired db cfg ttl size now t in
        (deleted ≤ given_or size cfg.cleanup_batch_size)
        × (deleted + length (db.rows t') ≡ length (db.rows t))
        × (count (λ r. not (is_expired (given_or ttl cfg.ttl) now r)) (db.rows t')
            ≡ count (λ r. not (is_expired (given_or ttl cfg.ttl) now r)) (db.rows t))
  unfolding cleanup_expired
  cleanup_expired-kept ttl size now t keyed =
      let expired = is_expired (given_or ttl cfg.ttl) now in
      let n = given_or size cfg.cleanup_batch_size in
      let order = λ (r : ProcessedEvent). r.created_at in
      let batch = db.select_batch false expired order n t in
      rw (laws.count_where-rows (is_among batch) t, laws.rows-delete_where (is_among batch) t)
        (
          omega (
            arith,
            count_among batch (db.rows t) keyed,
            laws.select_batch-limit false expired order n t,
          ),
          count_rest (is_among batch) (db.rows t),
          count_kept (is_among batch) (λ r. not (expired r)) (db.rows t)
              (batch_sound (λ r. r.id) db laws false expired order n t keyed),
        )
