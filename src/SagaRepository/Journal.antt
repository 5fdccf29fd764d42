-- ===== src/SagaRepository/Journal.antt =====
-- A run of a saga with the repository: every state that it saves is written to the table.
use taas_server_py.Prelude.{
  subst, ◌∙◌, sym, ℕ, String, Bool, true, false, Option, none, some, List, [], ◌∷◌, map, All,
  All-append, ◌≡◌, refl, Bool-cases, inl, inr,
}
use taas_server_py.Exec.{Result, ok, err}
use taas_server_py.Sql.{Table, TableLaws, updated}
use taas_server_py.Sql.Keys.{All-map_of, All-weaken}
use taas_server_py.Saga.{StepError, StepRecord, Instance, Definition, run}
use taas_server_py.Saga.Identity.{IsOf, run-RunIsOf}
use taas_server_py.Saga.Saved.{get_last?, run-Settled}
use taas_server_py.SagaRepository.{
  Step, SagaInstance, SagaRow, instance_to_values, set_values, inserted, upsert, save, get,
  has_saga_id,
}
use taas_server_py.SagaRepository.RoundTrip.{Agrees, Stored, save-Stored, get-Stored}

-- a state of a run as the repository is given it
module _ {C Ctx : Type 0} (show_error : StepError → String) (context : C → Ctx) where
  abbrev text_of : Option StepError → Option String
  text_of none = none
  text_of (some e) = some (show_error e)

  abbrev step_of : StepRecord → Step
  step_of r = record { name = r.name; status = r.status; error = text_of r.error }

  pub saved_as : Instance × C → SagaInstance Ctx
  saved_as (i, c) = record {
    id = i.id;
    name = i.name;
    status = i.status;
    context = context c;
    steps = map step_of i.steps;
    created_at = i.created_at;
    updated_at = i.updated_at;
  }

  module _ (saga_key : Ctx → Option String) (db : Table (SagaRow Ctx)) where
    -- a save that is refused ends the run
    abbrev then_save :
        (db.Tbl → Result (Unit {0}) × db.Tbl)
        → Result (Unit {0}) × db.Tbl
        → Result (Unit {0}) × db.Tbl
    then_save next (ok _, t) = next t
    then_save next (err exn, t) = (err exn, t)

    unfoldable pub save_all : List (Instance × C) → db.Tbl → Result (Unit {0}) × db.Tbl
    save_all [] t = (ok tt, t)
    save_all (s ∷ states) t =
        let next = save_all states in then_save next (save saga_key db (saved_as s) t)

    module _ (keyless : (x : Ctx) → saga_key x ≡ none) where
      upsert_keyless :
          (i : SagaInstance Ctx) (t : db.Tbl) (found : Option (SagaRow Ctx))
          → (upsert saga_key db found (instance_to_values saga_key i) t).0 ≡ ok tt
      unfolding instance_to_values
      upsert_keyless i t none = rw (keyless i.context) refl
      upsert_keyless i t (some r) = refl

      then_save_keyless :
          (next : db.Tbl → Result (Unit {0}) × db.Tbl) (out : Result (Unit {0}) × db.Tbl)
          → out.0 ≡ ok tt
          → ((t : db.Tbl) → (next t).0 ≡ ok tt)
          → (then_save next out).0 ≡ ok tt
      then_save_keyless next (ok _, t) done rest = rest t
      then_save_keyless next (err exn, t) done rest = done

      -- without business keys no save is refused
      pub save_all_keyless :
          (states : List (Instance × C)) (t : db.Tbl) → (save_all states t).0 ≡ ok tt
      unfolding save_all save
      save_all_keyless [] t = refl
      save_all_keyless (s ∷ states) t =
          then_save_keyless (save_all states) (save saga_key db (saved_as s) t)
            (upsert_keyless (saved_as s) t _) (save_all_keyless states)

    module _ (laws : TableLaws db) (id name : String) (created : ℕ) where
      -- a row with the id is a row of the saga
      pub record Belongs (r : SagaRow Ctx) : Type 0 where
        pub its_name : has_saga_id saga_key id r ≡ true → r.name ≡ name
        pub its_creation : has_saga_id saga_key id r ≡ true → r.saga_created_at ≡ created

      Belongs-Agrees :
          (s : Instance × C)
          → IsOf id name created s.0
          → (r : SagaRow Ctx) → Belongs r
          → Agrees saga_key db laws (saved_as s) r
      unfolding saved_as
      Belongs-Agrees s h r b = record {
        same_name = λ e. b.its_name (rw (sym h.same_id) e) ∙ sym h.same_name;
        same_creation = λ e. b.its_creation (rw (sym h.same_id) e) ∙ sym h.same_creation;
      }

      values-Belongs :
          (s : Instance × C)
          → IsOf id name created s.0
          → Belongs (instance_to_values saga_key (saved_as s))
      unfolding saved_as instance_to_values
      values-Belongs s h = record {
        its_name = λ _. h.same_name;
        its_creation = λ _. h.same_creation;
      }

      set-Belongs :
          (s : Instance × C) (r : SagaRow Ctx)
          → Belongs r
          → Belongs (
              updated
                (has_saga_id saga_key (saved_as s).id)
                (set_values saga_key (instance_to_values saga_key (saved_as s)))
                r)
      set-Belongs s r b = elim (Bool-cases (has_saga_id saga_key (saved_as s).id r)) [
        | inl key ↦
            rw key (record { its_name = λ e. b.its_name e; its_creation = λ e. b.its_creation e })
        | inr other ↦ rw other b
      ]

      inserted-Belongs :
          (s : Instance × C) (t : db.Tbl) (clash : Bool)
          → IsOf id name created s.0
          → All Belongs (db.rows t)
          → All Belongs
              (db.rows (inserted saga_key db clash (instance_to_values saga_key (saved_as s)) t).1)
      inserted-Belongs s t true h all = all
      inserted-Belongs s t false h all =
          rw (laws.rows-add_row (instance_to_values saga_key (saved_as s)) t)
            (All-append Belongs (db.rows t) _ all (values-Belongs s h, tt))

      upsert-Belongs :
          (s : Instance × C) (t : db.Tbl) (found : Option (SagaRow Ctx))
          → IsOf id name created s.0
          → All Belongs (db.rows t)
          → All Belongs
              (db.rows (upsert saga_key db found (instance_to_values saga_key (saved_as s)) t).1)
      unfolding instance_to_values
      upsert-Belongs s t none h all = inserted-Belongs s t _ h all
      upsert-Belongs s t (some r) h all =
          rw
            (laws.rows-update_where (has_saga_id saga_key (saved_as s).id)
              (set_values saga_key (instance_to_values saga_key (saved_as s))) t)
            (All-map_of Belongs _ (db.rows t) (All-weaken (set-Belongs s) (db.rows t) all))

      save-Belongs :
          (s : Instance × C) (t : db.Tbl)
          → IsOf id name created s.0
          → All Belongs (db.rows t)
          → All Belongs (db.rows (save saga_key db (saved_as s) t).1)
      unfolding save
      save-Belongs s t h all = upsert-Belongs s t _ h all

      -- the save before the others, with its outcome
      then-Stored :
          (last : Instance × C) (next : db.Tbl → Result (Unit {0}) × db.Tbl)
          → (out : Result (Unit {0}) × db.Tbl)
          → (out.0 ≡ ok tt
              → (next out.1).0 ≡ ok tt
              → Stored saga_key db laws (saved_as last) (next out.1).1)
          → (then_save next out).0 ≡ ok tt
          → Stored saga_key db laws (saved_as last) (then_save next out).1
      then-Stored last next (ok _, t) rest done = rest refl done
      then-Stored last next (err exn, t) rest done = cc done

      save_all-Stored :
          (states : List (Instance × C)) (last : Instance × C) (t : db.Tbl)
          → All (λ s. IsOf id name created s.0) states
          → get_last? states ≡ some last
          → All Belongs (db.rows t)
          → (save_all states t).0 ≡ ok tt
          → Stored saga_key db laws (saved_as last) (save_all states t).1
      unfolding save_all
      save_all-Stored [] last t h e all done = absurd cc
      save_all-Stored (s ∷ []) last t (h, _) e all done =
          let same : last ≡ s = cc in
          then-Stored last (save_all []) (save saga_key db (saved_as s) t)
            (λ this _. rw same (
              save-Stored saga_key db laws (saved_as s) t
                (All-weaken (Belongs-Agrees s h) (db.rows t) all) this))
            done
      save_all-Stored (s ∷ s' ∷ states) last t (h, hs) e all done =
          then-Stored last (save_all (s' ∷ states)) (save saga_key db (saved_as s) t)
            (λ _ rest. save_all-Stored (s' ∷ states) last _ hs e (save-Belongs s t h all) rest) done

-- Whatever the steps of a saga do: when no save is refused, the repository gives back after the run,
-- under its id, the final state, with its steps, its context and its times. A row that the table had
-- under this id before has the name and the creation time of the run; a save is refused when another
-- saga has its name and key.
pub get-run :
    {C Ctx : Type 0} (show_error : StepError → String) (context : C → Ctx)
    (saga_key : Ctx → Option String) (db : Table (SagaRow Ctx)) (laws : TableLaws db)
    (raise_on_abort : Bool) (clock : C → ℕ) (definition : Definition C) (id : String) (c : C)
    (t : db.Tbl)
    → All (Belongs show_error context saga_key db laws id definition.name (clock c)) (db.rows t)
    → (save_all show_error context saga_key db
        (run raise_on_abort clock definition id c).1.journal
        t).0
      ≡ ok tt
    → (let r = (run raise_on_abort clock definition id c).1 in
        get saga_key db id (save_all show_error context saga_key db r.journal t).1
        ≡ ok (some (saved_as show_error context (r.inst, r.context))))
unfolding saved_as
get-run show_error context saga_key db laws raise_on_abort clock definition id c t all done =
    let r = (run raise_on_abort clock definition id c).1 in
    let own = run-RunIsOf raise_on_abort clock definition id c in
    let stored =
      save_all-Stored show_error context saga_key db laws id definition.name (clock c) r.journal
        (r.inst, r.context) t own.saved (run-Settled raise_on_abort clock definition id c).saved all
        done in
    let found =
      get-Stored saga_key db laws (saved_as show_error context (r.inst, r.context)) _ stored in
    subst
      (λ x.
        get saga_key db x (save_all show_error context saga_key db r.journal t).1
        ≡ ok (some (saved_as show_error context (r.inst, r.context))))
      own.current.same_id found
