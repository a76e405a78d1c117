-- ===== src/Space/Stopping/Lifecycle.antt =====
-- `ExecutorStart` and then `Stop` of pkg/executionspace/v1alpha, for the executor that was started.
use etos_api.Prelude.{ℕ, ◌≡◌, ◌≢◌, refl, sym, ap, arith, Option, none, some, List, [], ◌∷◌, Text}
use mathlib.Core.Path.{subst}
use etos_api.Database.{Error, Uuids, Kv, Etcd, open_id, World, key, write, request}
use etos_api.Space.{ExecutorSpec, ExecutionSpace, Codec, value, delete_spec}
use etos_api.Space.Provider.{job, checkin, build_of}
use etos_api.Space.Provider.Answering.{answering, executor_spec-answering}
use etos_api.Space.Executor.{Situation, executor_start}
use etos_api.Space.Executor.Released.{Running}
use etos_api.Space.Stopping.{
  Stops, stop_one, stop_all, stop_executors, checked_in, after_stops, after_stop,
}

module _ (kv : Kv) (uuids : Uuids) (specs : Codec ExecutorSpec) (spaces : Codec ExecutionSpace)
    (db : Etcd) (stop : Text → Option Error) where
  job-answering :
      (id : ℕ) (e : ExecutorSpec) (store : kv.State)
      → kv.get (key kv uuids (open_id db id)) store ≡ some (specs.encode e)
      → job kv uuids specs spaces db id (answering kv uuids specs spaces db store)
        ≡ (value e.build_id, answering kv uuids specs spaces db store)
  unfolding job
  job-answering id e store stored =
      ap (λ p. (build_of kv uuids specs spaces db p.0, p.1))
        (executor_spec-answering kv uuids specs spaces db id e store stored)

  checkin-one :
      (e : ExecutorSpec) (store : kv.State)
      → e.id ≢ 0
      → (checkin kv uuids specs spaces db (e ∷ []) (answering kv uuids specs spaces db store)).0
        ≡ none
  unfolding checkin delete_spec write request open_id
  checkin-one e store named = ground arith

  checked_in-ok :
      (builds : List Text) (p : Option Error × World kv)
      → p.0 ≡ none
      → ((checked_in kv uuids specs spaces db stop builds p).0 ≡ 204)
        × ((checked_in kv uuids specs spaces db stop builds p).1 ≡ builds)
  checked_in-ok builds (none, w) h = (refl, refl)
  checked_in-ok builds (some e, w) h = absurd (cc (h))

  abbrev Succeeds : ExecutorSpec → Text → Stops (World kv) → Type 0
  Succeeds e id s =
      ((after_stops kv uuids specs spaces db stop (e ∷ []) s s.error).0 ≡ 204)
      × ((after_stops kv uuids specs spaces db stop (e ∷ []) s s.error).1 ≡ id ∷ [])

  -- One executor whose build is stored, and whose job can be stopped.
  stop_one-stored :
      (e : ExecutorSpec) (id : Text) (store : kv.State)
      → e.id ≢ 0
      → id ≢ []
      → stop id ≡ none
      → job kv uuids specs spaces db e.id (answering kv uuids specs spaces db store)
        ≡ (value id, answering kv uuids specs spaces db store)
      → ((stop_executors kv uuids specs spaces db stop
            (some (e ∷ []))
            (answering kv uuids specs spaces db store)).0
          ≡ 204)
        × ((stop_executors kv uuids specs spaces db stop
              (some (e ∷ []))
              (answering kv uuids specs spaces db store)).1
            ≡ id ∷ [])
  unfolding stop_executors stop_all
  stop_one-stored e [] store named some_id stops loaded = absurd (some_id refl)
  stop_one-stored e (b ∷ build) store named some_id stops loaded =
      subst
        (λ p. Succeeds e (b ∷ build) (
          stop_one kv uuids specs spaces db stop (stop_all kv uuids specs spaces db stop []) none
            p))
        (sym loaded)
        (subst
          (λ r. Succeeds e (b ∷ build) (record {
            error = after_stop r none;
            builds = (b ∷ build) ∷ [];
            world = answering kv uuids specs spaces db store;
          }))
          (sym stops) (checked_in-ok ((b ∷ build) ∷ []) _ (checkin-one e store named)))

  -- A request to start an executor that answered 204, followed by a request to stop that executor:
  -- if the executor's id is not nil and its build has a name, the executor can stop the build, and the
  -- database answers, then the second request answers 204 and has stopped that build and no other.
  pub stop_executors_of_Running :
      (s : Situation) (w : World kv)
      (r : Running kv uuids specs spaces db s (executor_start kv uuids specs spaces db s w))
      → r.spec.id ≢ 0
      → r.id ≢ []
      → stop r.id ≡ none
      → ((stop_executors kv uuids specs spaces db stop (some (r.spec ∷ [])) (
            answering kv uuids specs spaces db
              (executor_start kv uuids specs spaces db s w).1.store)).0
          ≡ 204)
        × ((stop_executors kv uuids specs spaces db stop (some (r.spec ∷ [])) (
              answering kv uuids specs spaces db
                (executor_start kv uuids specs spaces db s w).1.store)).1
            ≡ r.id ∷ [])
  stop_executors_of_Running s w r named some_id stops =
      stop_one-stored r.spec r.id _ named some_id stops
        (job-answering r.spec.id (record r.spec { build_id = r.id }) _ r.stored)
