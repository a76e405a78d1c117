-- ===== src/Space/Executor/Released.antt =====
-- `ExecutorStart` of pkg/executionspace/v1alpha/executor.go: the jobs that are left running.
use etos_api.Prelude.{
  ◌≡◌, ◌≢◌, ◌⊎◌, Bool, true, false, none, some, List, [], ◌∷◌, Text, codes, text_eq, if◌then◌else◌,
}
use etos_api.Database.{Uuids, Kv, Etcd, open_id, World, key}
use etos_api.Space.{lookup, ExecutorSpec, ExecutionSpace, Codec}
use etos_api.Space.Executor.{
  fresh_state, wait_start, or_empty, Situation, Call, start, cancel, stop, Answered,
}

unfoldable pub remove : Text → List Text → List Text
remove id [] = []
remove id (j ∷ js) = let rest = remove id js in if text_eq j id then js else j ∷ rest

-- The jobs that run after the calls: one whose `Cancel` or `Stop` failed counts as running.
unfoldable pub running : List Call → List Text → List Text
unfolding remove
running [] js = js
running (start id ∷ calls) js = running calls (id ∷ js)
running (cancel id ended ∷ calls) js = running calls (if ended then remove id js else js)
running (stop id ended ∷ calls) js = running calls (if ended then remove id js else js)

-- What is left of the only job, by whether the call that should end it succeeded.
abbrev pub left : Bool → Text → List Text
left true id = []
left false id = id ∷ []

module _ (kv : Kv) (uuids : Uuids) (specs : Codec ExecutorSpec) (spaces : Codec ExecutionSpace)
    (db : Etcd) where
  -- The request succeeded: one job runs, its executor is stored with it as the build, and the wait
  -- for its sub suite succeeded.
  pub record Running (s : Situation) (p : Answered × World kv) : Type 0 where
    pub no_content : p.0.0 ≡ 204
    pub id : Text
    pub spec : ExecutorSpec
    pub one_job : running p.0.1 [] ≡ id ∷ []
    pub stored :
        kv.get (key kv uuids (open_id db spec.id)) p.1.store
        ≡ some (specs.encode (record spec { build_id = id }))
    pub ready :
        wait_start s.rounds
          (or_empty (lookup (codes "ENVIRONMENT_ID") spec.instructions.environment))
          fresh_state
        ≡ none

  -- The request failed and no job is left, or the one that was started is left, since its wait
  -- panicked or the call that should end it failed.
  pub record Failed (s : Situation) (p : Answered × World kv) : Type 0 where
    pub status : p.0.0 ≢ 204
    pub no_job :
        (running p.0.1 [] ≡ [])
        ⊎ ((id : Text) × (running p.0.1 [] ≡ id ∷ []) × ((s.waited id ≡ none) ⊎ (s.ends ≡ false)))

  abbrev pub Released : Situation → Answered × World kv → Type 0
  Released s p = Running s p ⊎ Failed s p
