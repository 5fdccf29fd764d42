-- ===== src/Dlq/Lifecycle.antt =====
-- The retries of an event in the dead-letter queue.
use taas_server_py.Prelude.{
  ℕ, zero, suc, ◌+◌, ◌≤◌, ◌<◌, String, List, [], ◌∷◌, length, Pointwise, Pointwise-refl,
  Pointwise-trans, ◌≡◌, refl, ap, ◌∙◌, str_eq, arith,
}
use taas_server_py.Sql.{Table, TableLaws, updated}
use taas_server_py.Sql.Keys.{IsKeyed, map-IsKeyed}
use taas_server_py.Sql.Selected.{OnlyAt, found_rows, found_Pointwise}
use taas_server_py.Dlq.{
  DlqRow, DeadLetterConfig, pending, abandoned, has_id, fail_values, mark_failed,
}

-- what `n` failed retries in a row leave of an event
pub record FailedTimes (n : ℕ) (r r' : DlqRow) : Type 0 where
  pub counted : r'.retry_count ≡ r.retry_count + n
  pub retried : 0 < n → r.retry_count + n < r.max_retries → r'.status ≡ pending
  pub exhausted : 0 < n → r.max_retries ≤ r.retry_count + n → r'.status ≡ abandoned
  pub none_yet : n ≡ 0 → r'.status ≡ r.status
  pub same_max : r'.max_retries ≡ r.max_retries
  pub same_id : r'.id ≡ r.id
  pub same_payload : r'.payload ≡ r.payload

module _ (db : Table DlqRow) (laws : TableLaws db) (cfg : DeadLetterConfig) where
  -- the failures of one event, each with its error and its time
  pub fail_times : String → List (String × ℕ) → db.Tbl → db.Tbl
  fail_times id [] t = t
  fail_times id ((error, now) ∷ rest) t = fail_times id rest (mark_failed db cfg id error now t)

  once : (error : String) (now : ℕ) (r : DlqRow) → FailedTimes 1 r (fail_values error now r r)
  once error now r = record {
    counted = refl;
    retried = λ _ h. ground (arith, h);
    exhausted = λ _ h. ground (arith, h);
    none_yet = λ h. absurd (omega (arith, h));
    same_max = refl;
    same_id = refl;
    same_payload = refl;
  }

  retry :
      {x y z : DlqRow} (n : ℕ)
      → FailedTimes 1 x y
      → FailedTimes n y z
      → x.retry_count + (n + 1) < x.max_retries
      → z.status ≡ pending
  retry zero a b h = b.none_yet refl ∙ a.retried (omega arith) (omega arith)
  retry (suc n) a b h = b.retried (omega arith) (omega arith)

  exhaust :
      {x y z : DlqRow} (n : ℕ)
      → FailedTimes 1 x y
      → FailedTimes n y z
      → x.max_retries ≤ x.retry_count + (n + 1)
      → z.status ≡ abandoned
  exhaust zero a b h = b.none_yet refl ∙ a.exhausted (omega arith) (omega arith)
  exhaust (suc n) a b h = b.exhausted (omega arith) (omega arith)

  add_up :
      (n : ℕ) (x y z : DlqRow) → FailedTimes 1 x y → FailedTimes n y z → FailedTimes (n + 1) x z
  add_up n x y z a b = record {
    counted = omega arith;
    retried = λ _ h. retry n a b h;
    exhausted = λ _ h. exhaust n a b h;
    none_yet = λ h. absurd (omega (arith, h));
    same_max = b.same_max ∙ a.same_max;
    same_id = b.same_id ∙ a.same_id;
    same_payload = b.same_payload ∙ a.same_payload;
  }

  none_failed : (r : DlqRow) → FailedTimes 0 r r
  none_failed r = record {
    counted = omega arith;
    retried = λ h _. absurd (omega (arith, h));
    exhausted = λ h _. absurd (omega (arith, h));
    none_yet = λ _. refl;
    same_max = refl;
    same_id = refl;
    same_payload = refl;
  }

  join :
      (id : String) (n : ℕ) (x y z : DlqRow)
      → OnlyAt (has_id id) (FailedTimes 1) x y
      → OnlyAt (has_id id) (FailedTimes n) y z
      → OnlyAt (has_id id) (FailedTimes (n + 1)) x z
  join id n x y z a b = record {
    here = λ h.
        let first = a.here h in
        add_up n x y z first (b.here (ap (λ i. str_eq i id) first.same_id ∙ h));
    elsewhere =
        λ h. let same = a.elsewhere h in b.elsewhere (ap (λ r. has_id id r) same ∙ h) ∙ same;
  }

  mark_failed-IsKeyed :
      (id error : String) (now : ℕ) (t : db.Tbl)
      → IsKeyed (λ r. r.id) (db.rows t)
      → IsKeyed (λ r. r.id) (db.rows (mark_failed db cfg id error now t))
  unfolding mark_failed
  mark_failed-IsKeyed id error now t keyed =
      rw (found_rows (λ r. r.id) db laws (fail_values error now) id t keyed) (
        map-IsKeyed (λ r. r.id) (updated (has_id id) (λ r. fail_values error now r r))
          (λ r. ground arith) (db.rows t) keyed)

  mark_failed-FailedTimes :
      (id error : String) (now : ℕ) (t : db.Tbl)
      → IsKeyed (λ r. r.id) (db.rows t)
      → Pointwise
          (OnlyAt (has_id id) (FailedTimes 1))
          (db.rows t)
          (db.rows (mark_failed db cfg id error now t))
  unfolding mark_failed
  mark_failed-FailedTimes id error now t keyed =
      found_Pointwise (λ r. r.id) db laws (fail_values error now) id t keyed (FailedTimes 1)
        (once error now)

  -- Where ids are keys, any number of failed retries of one event changes no other row. They are
  -- counted; while retries are left the event is pending again, so that it can be claimed, and from
  -- the last retry on it is abandoned.
  pub fail_times-FailedTimes :
      (id : String) (failures : List (String × ℕ)) (t : db.Tbl)
      → IsKeyed (λ r. r.id) (db.rows t)
      → Pointwise
          (OnlyAt (has_id id) (FailedTimes (length failures)))
          (db.rows t)
          (db.rows (fail_times id failures t))
  unfolding fail_times
  fail_times-FailedTimes id [] t keyed =
      Pointwise-refl (λ r. record { here = λ _. none_failed r; elsewhere = λ _. refl }) (db.rows t)
  fail_times-FailedTimes id ((error, now) ∷ rest) t keyed = rw (suc_add (length rest)) (
      Pointwise-trans (join id (length rest)) (mark_failed-FailedTimes id error now t keyed) (
        fail_times-FailedTimes id rest (mark_failed db cfg id error now t)
          (mark_failed-IsKeyed id error now t keyed)))
    where
      suc_add : (n : ℕ) → suc n ≡ n + 1
      suc_add n = omega arith
