-- ===== src/Dlq/Replay.antt =====
-- What a replay does to the messages of the in-memory queue.
use taas_server_py.Prelude.{
  String, Bool, true, false, ◌&&◌, Option, none, some, if◌then◌else◌, str_eq, ◌≡◌, refl,
}
use taas_server_py.Exec.{Result, ok, err, Action}
use taas_server_py.Dlq.{DeadLetterMessage, Store, replay, replayed, replay_found}

-- a repository that holds its messages by id: a read changes nothing and a deletion is of one id
pub record StoreLaws {E : Type 0} (store : Store E) : Type 0 where
  pub contents : E → String → Option DeadLetterMessage
  pub get-contents : (id : String) (e : E) → store.get id e ≡ (ok (contents e id), e)
  pub delete_ok : (id : String) (e : E) → (store.delete id e).0 ≡ ok tt
  pub delete-contents :
      (id j : String) (e : E)
      → contents (store.delete id e).1 j ≡ (if str_eq id j then none else contents e j)

abbrev pub is_ok {ℓ} : {A : Type ℓ} → Result A → Bool
is_ok (ok a) = true
is_ok (err e) = false

module _ {E : Type 0} (store : Store E) (laws : StoreLaws store)
    (run : DeadLetterMessage → Action E (Unit {0}))
    (kept : (message : DeadLetterMessage) (j : String) (e : E)
      → laws.contents (run message e).1 j ≡ laws.contents e j) where
  found_contents :
      (id j : String) (delete_on_success : Bool) (e : E) (stored : Option DeadLetterMessage)
      → let (res, e') = replay_found store (some run) run id delete_on_success (ok stored, e) in
        laws.contents e' j
        ≡ (if is_ok res && delete_on_success && str_eq id j then none else laws.contents e j)
  found_contents id j delete_on_success e none = refl
  found_contents id j delete_on_success e (some message) =
      ended (run message e).0 (run message e).1 delete_on_success (kept message j e)
    where
      ended :
          (res : Result (Unit {0})) (e' : E) (flag : Bool)
          → laws.contents e' j ≡ laws.contents e j
          → let (res', e'') = replayed store (some run) id flag (res, e') in
            laws.contents e'' j
            ≡ (if is_ok res' && flag && str_eq id j then none else laws.contents e j)
      ended (ok _) e' true same = rw (laws.delete-contents id j e', laws.delete_ok id e', same) refl
      ended (ok _) e' false same = same
      ended (err exn) e' flag same = same

  -- With a repository that holds messages by id and a replayer that leaves it alone, a replay deletes
  -- its message exactly if it ends well and the deletion was asked for, and deletes no other: a
  -- message whose replay fails, is missing or is to be kept is still there.
  pub replay-contents :
      (id j : String) (delete_on_success : Bool) (e : E)
      → let (res, e') = replay store (some run) id delete_on_success e in
        laws.contents e' j
        ≡ (if is_ok res && delete_on_success && str_eq id j then none else laws.contents e j)
  unfolding replay
  replay-contents id j delete_on_success e =
      rw (laws.get-contents id e) (found_contents id j delete_on_success e (laws.contents e id))
