-- ===== src/SagaRepository/RoundTrip.antt =====
-- What is read back from the table of sagas.
use taas_server_py.Prelude.{
  str_eq_iff, ◌<◌, String, Bool, true, false, Option, none, some, List, [], ◌∷◌, map, All,
  All-append, count, count-append, ◌≡◌, refl, inl, inr, Bool-cases, arith,
}
use text.Mathlib.TextPositions.{eq_refl}
use taas_server_py.Exec.{ok}
use taas_server_py.Sql.{Table, TableLaws, updated, one_or_none}
use taas_server_py.Sql.Keys.{All-map_of, All-of_count, All-weaken, count-map_same}
use taas_server_py.Sql.Selected.{selected_one, none_selected_count, some_selected_count}
use taas_server_py.Saga.{StepStatus}
use taas_server_py.SagaRepository.{
  Step, SagaInstance, SagaRow, value_of, status_of, encode_step, decode_steps, inserted,
  instance_to_values, row_to_instance, set_values, has_saga_id, upsert, save, get,
}

status_of-value_of : (s : StepStatus) → status_of (value_of s) ≡ ok s
status_of-value_of StepStatus.pending = refl
status_of-value_of StepStatus.completed = refl
status_of-value_of StepStatus.compensated = refl
status_of-value_of StepStatus.failed = refl

decode_steps-encode_step : (steps : List Step) → decode_steps (map encode_step steps) ≡ ok steps
unfolding decode_steps
decode_steps-encode_step [] = refl
decode_steps-encode_step (s ∷ steps) =
    rw (status_of-value_of s.status, decode_steps-encode_step steps) refl

module _ {Ctx : Type 0} (saga_key : Ctx → Option String) (db : Table (SagaRow Ctx))
    (laws : TableLaws db) where
  -- a row that a save of `i` may find: it has its name and its creation time
  pub record Agrees (i : SagaInstance Ctx) (r : SagaRow Ctx) : Type 0 where
    pub same_name : has_saga_id saga_key i.id r ≡ true → r.name ≡ i.name
    pub same_creation : has_saga_id saga_key i.id r ≡ true → r.saga_created_at ≡ i.created_at

  -- a row with the id is read as the instance
  abbrev pub Reads : SagaInstance Ctx → SagaRow Ctx → Type 0
  Reads i r = has_saga_id saga_key i.id r ≡ true → row_to_instance saga_key r ≡ ok i

  values-Reads :
      (i : SagaInstance Ctx) → row_to_instance saga_key (instance_to_values saga_key i) ≡ ok i
  unfolding row_to_instance instance_to_values
  values-Reads i = rw (decode_steps-encode_step i.steps) refl

  set-Reads :
      (i : SagaInstance Ctx) (r : SagaRow Ctx)
      → Agrees i r
      → Reads i (
          updated
            (has_saga_id saga_key i.id)
            (set_values saga_key (instance_to_values saga_key i))
            r)
  unfolding row_to_instance instance_to_values
  set-Reads i r agrees = elim (Bool-cases (has_saga_id saga_key i.id r)) [
    | inl key ↦ rw key (λ _.
        rw
          (
            decode_steps-encode_step i.steps,
            (str_eq_iff r.saga_id i.id).0 key,
            agrees.same_name key,
            agrees.same_creation key,
          )
          refl)
    | inr other ↦ rw other (λ key. cc)
  ]

  -- after a save there is a row with the id, and every such row is read as the instance
  pub record Stored (i : SagaInstance Ctx) (t : db.Tbl) : Type 0 where
    pub some_row : 0 < count (has_saga_id saga_key i.id) (db.rows t)
    pub reads : All (Reads i) (db.rows t)

  inserted-Stored :
      (i : SagaInstance Ctx) (t : db.Tbl) (clash : Bool)
      → count (has_saga_id saga_key i.id) (db.rows t) ≡ 0
      → (inserted saga_key db clash (instance_to_values saga_key i) t).0 ≡ ok tt
      → Stored i (inserted saga_key db clash (instance_to_values saga_key i) t).1
  unfolding instance_to_values
  inserted-Stored i t true none_there done = cc done
  inserted-Stored i t false none_there done =
      let test = has_saga_id saga_key i.id in
      let values = instance_to_values saga_key i in
      record {
        some_row =
            rw (laws.rows-add_row values t, count-append test (db.rows t) (values ∷ []))
              (ground (arith, eq_refl i.id));
        reads = rw (laws.rows-add_row values t) (
            All-append (Reads i) (db.rows t) (values ∷ [])
              (All-weaken (λ r absent key. cc) (db.rows t)
                (All-of_count test (db.rows t) none_there))
              (λ _. values-Reads i, tt));
      }

  upsert-Stored :
      (i : SagaInstance Ctx) (t : db.Tbl) (found : Option (SagaRow Ctx))
      → one_or_none (db.select_where (has_saga_id saga_key i.id) t) ≡ found
      → All (Agrees i) (db.rows t)
      → (upsert saga_key db found (instance_to_values saga_key i) t).0 ≡ ok tt
      → Stored i (upsert saga_key db found (instance_to_values saga_key i) t).1
  unfolding instance_to_values
  upsert-Stored i t none e agree done =
      inserted-Stored i t _ (none_selected_count db laws (has_saga_id saga_key i.id) t e) done
  upsert-Stored i t (some r) e agree done =
      let test = has_saga_id saga_key i.id in
      let change = updated test (set_values saga_key (instance_to_values saga_key i)) in
      let same =
        laws.rows-update_where test (set_values saga_key (instance_to_values saga_key i)) t in
      record {
        some_row =
            rw (same, count-map_same test change (λ x. ground arith) (db.rows t))
              (some_selected_count db laws test t r e);
        reads =
            rw same (
              All-map_of (Reads i) change (db.rows t) (All-weaken (set-Reads i) (db.rows t) agree));
      }

  pub save-Stored :
      (i : SagaInstance Ctx) (t : db.Tbl)
      → All (Agrees i) (db.rows t)
      → (save saga_key db i t).0 ≡ ok tt
      → Stored i (save saga_key db i t).1
  unfolding save
  save-Stored i t agree done = upsert-Stored i t _ refl agree done

  pub get-Stored :
      (i : SagaInstance Ctx) (t : db.Tbl) → Stored i t → get saga_key db i.id t ≡ ok (some i)
  unfolding get
  get-Stored i t stored =
      let (r, found, reads) =
        selected_one db laws (λ r. row_to_instance saga_key r ≡ ok i) (has_saga_id saga_key i.id) t
          stored.some_row stored.reads in
      rw (found, reads) refl

  -- A saga whose save is not refused is read back as it is: its steps, its context, its status and its
  -- times. A row that was there before has the name and the creation time of the saga.
  pub get-save :
      (i : SagaInstance Ctx) (t : db.Tbl)
      → All (Agrees i) (db.rows t)
      → (save saga_key db i t).0 ≡ ok tt
      → get saga_key db i.id (save saga_key db i t).1 ≡ ok (some i)
  get-save i t agree done = get-Stored i (save saga_key db i t).1 (save-Stored i t agree done)
