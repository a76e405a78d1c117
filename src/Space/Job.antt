-- ===== src/Space/Job.antt =====
-- internal/executionspace/executor/kubernetes.go: the executor that runs test runners as Kubernetes
-- jobs. The API server is a parameter: what it answers, and the events of a watch, one for each round
-- of a `select`.
use etos_api.Prelude.{
  ◌≡◌, ◌⊎◌, ◌↔◌, refl, Bool, true, false, ◌&&◌, ◌||◌, Option, none, some, List, [], ◌∷◌, ◌++◌, Text,
  codes, arith, is_empty, if◌then◌else◌,
}
use etos_api.Database.{Error, message, Uuids}
use etos_api.Space.{Map, ExecutorSpec, Decoded, value, undecoded}

-- `outOfCluster`: whether there is a configuration, from the file `.kube/config` of a home directory.
unfoldable pub out_of_cluster : (builds : Text → Bool) → (home : Text) → Bool
out_of_cluster builds home = if is_empty home then false else builds home

-- `Kubernetes`: whether the executor is made; it panics without a configuration or a client.
unfoldable pub new_executor :
    (in_cluster : Bool) → (builds : Text → Bool) → (home : Text) → (makes_client : Bool) → Bool
unfolding out_of_cluster
new_executor in_cluster builds home makes_client =
    if in_cluster || out_of_cluster builds home then makes_client else false

-- A condition of a pod: whether its type is `Ready`, and whether its status is `True`.
pub record Condition : Type 0 where
  pub is_ready_type : Bool
  pub is_true : Bool

-- The conditions of a pod.
abbrev pub Pod : Type 0
Pod = List Condition

-- `isReady`.
unfoldable pub is_ready : Pod → Bool
is_ready [] = false
is_ready (c ∷ cs) = c.is_ready_type && c.is_true || is_ready cs

-- The job that is created: its name, image, arguments and environment.
pub record Job : Type 0 where
  pub name : Text
  pub image : Text
  pub args : List Text
  pub envs : Map

unfoldable pub job_name : Uuids → ExecutorSpec → Text
job_name uuids e = codes "etr-" ++ uuids.show e.id

unfoldable pub arguments : Map → List Text
arguments [] = []
arguments ((k, v) ∷ m) = (k ++ b'=' ∷ v) ∷ arguments m

-- `Start`: the API server answers the creation with the job that it made, or with an error.
unfoldable pub start : (Job → Decoded Job) → Uuids → ExecutorSpec → Decoded Text
unfolding job_name arguments
start create uuids e =
    elim (create (record {
      name = job_name uuids e;
      image = e.instructions.image;
      args = arguments e.instructions.parameters;
      envs = e.instructions.environment;
    })) [ undecoded error ↦ undecoded error | value job ↦ value job.name ]

-- An event of a watch on the pods of a job.
pub data Watched : Type 0 where
  -- the context is done
  context_done : Watched
  -- a pod that was added or modified, or one that was deleted
  changed : Pod → Watched
  deleted : Pod → Watched
  -- the channel is closed: its zero event has no type and no object
  closed : Watched

-- How a wait ends: with a result, by the panic of the type assertion, or still waiting.
pub data Waited : Type 0 where
  finished : Decoded Text → Waited
  panicked : Waited
  waiting : Waited

abbrev ready_or : Text → Waited → Bool → Waited
ready_or name rest true = finished (value name)
ready_or name rest false = rest

-- The loop of `Wait`, which returns the name of the job as the build.
unfoldable pub wait : Text → List Watched → Waited
unfolding is_ready
wait name [] = waiting
wait name (context_done ∷ events) = finished (
    undecoded
      (message (codes "timed out waiting for Kubernetes job " ++ name ++ codes " to start")))
wait name (changed pod ∷ events) = ready_or name (wait name events) (is_ready pod)
wait name (deleted pod ∷ events) = ready_or name (wait name events) (is_ready pod)
wait name (closed ∷ events) = panicked

-- What the API server answers to the deletion of a job.
pub data Deletion : Type 0 where
  accepted : Deletion
  not_found : Deletion
  refused : Error → Deletion

-- What it answers to the watch.
pub data Watch : Type 0 where
  events_of : List Watched → Watch
  probable_eof : Watch
  failed : Error → Watch

-- How `Stop` ends: `nil`, an error, or still waiting.
pub data Stopped : Type 0 where
  stopped : Stopped
  not_stopped : Error → Stopped
  still_stopping : Stopped

-- The loop of `Stop`.
unfoldable pub wait_deleted : Text → List Watched → Stopped
wait_deleted name [] = still_stopping
wait_deleted name (context_done ∷ events) =
    not_stopped
      (message (codes "timed out waiting for Kubernetes job " ++ name ++ codes " to stop"))
wait_deleted name (changed pod ∷ events) = wait_deleted name events
wait_deleted name (deleted pod ∷ events) = stopped
wait_deleted name (closed ∷ events) = wait_deleted name events

abbrev watched : Text → Watch → Stopped
watched name (events_of events) = wait_deleted name events
watched name probable_eof = stopped
watched name (failed e) = not_stopped e

-- `Stop`, and `Cancel`.
unfoldable pub stop : Text → Deletion → Watch → Stopped
unfolding wait_deleted
stop name not_found watch = stopped
stop name (refused e) watch = not_stopped e
stop name accepted watch = watched name watch

-- `podFromJob`.
unfoldable pub pod_from_job : Decoded (List Pod) → Decoded Pod
pod_from_job (undecoded e) = undecoded e
pod_from_job (value (pod ∷ [])) = value pod
pod_from_job (value pods) = undecoded (message (codes "no pod yet"))

abbrev alive_pod : Decoded Pod → Decoded Bool
alive_pod (undecoded e) = undecoded e
alive_pod (value pod) = value (is_ready pod)

-- `Alive`: the answers to the lookup of the job and to the list of its pods.
unfoldable pub alive : Option Error → Decoded (List Pod) → Decoded Bool
unfolding is_ready pod_from_job
alive (some e) pods = undecoded e
alive none pods = alive_pod (pod_from_job pods)

-- The pod of some event was ready before the context was done and the watch was closed.
abbrev pub SeesReady : List Watched → Type 0
SeesReady [] = ⊥
SeesReady (context_done ∷ events) = ⊥
SeesReady (changed pod ∷ events) = (is_ready pod ≡ true) ⊎ SeesReady events
SeesReady (deleted pod ∷ events) = (is_ready pod ≡ true) ⊎ SeesReady events
SeesReady (closed ∷ events) = ⊥

abbrev pub SeesDeleted : List Watched → Type 0
SeesDeleted [] = ⊥
SeesDeleted (context_done ∷ events) = ⊥
SeesDeleted (changed pod ∷ events) = SeesDeleted events
SeesDeleted (deleted pod ∷ events) = Unit
SeesDeleted (closed ∷ events) = SeesDeleted events

-- The wait for a job returns a build exactly if the watch shows a ready pod before the context is
-- done and the watch is closed, and the build is then the name of the job.
pub wait_iff :
    (name build : Text) (events : List Watched)
    → (wait name events ≡ finished (value build)) ↔ (SeesReady events × (build ≡ name))
unfolding wait
wait_iff name build [] = ground arith
wait_iff name build (context_done ∷ events) = ground arith
wait_iff name build (changed pod ∷ events) = ground (arith, wait_iff name build events)
wait_iff name build (deleted pod ∷ events) = ground (arith, wait_iff name build events)
wait_iff name build (closed ∷ events) = ground arith

wait_deleted_iff :
    (name : Text) (events : List Watched)
    → (wait_deleted name events ≡ stopped) ↔ SeesDeleted events
unfolding wait_deleted
wait_deleted_iff name [] = ground arith
wait_deleted_iff name (context_done ∷ events) = ground arith
wait_deleted_iff name (changed pod ∷ events) = wait_deleted_iff name events
wait_deleted_iff name (deleted pod ∷ events) = ground arith
wait_deleted_iff name (closed ∷ events) = wait_deleted_iff name events

-- What makes `Stop` succeed: the job was gone already, nothing could be watched, or a pod is deleted.
abbrev pub Gone : Deletion → Watch → Type 0
Gone not_found watch = Unit
Gone (refused e) watch = ⊥
Gone accepted (events_of events) = SeesDeleted events
Gone accepted probable_eof = Unit
Gone accepted (failed e) = ⊥

-- `Stop` succeeds exactly if the job is not found, or its deletion is accepted and the watch meets
-- the end of the file or shows a deleted pod before the context is done.
pub stop_iff :
    (name : Text) (deletion : Deletion) (watch : Watch)
    → (stop name deletion watch ≡ stopped) ↔ Gone deletion watch
unfolding stop
stop_iff name not_found watch = ground arith
stop_iff name (refused e) watch = ground arith
stop_iff name accepted (events_of events) = wait_deleted_iff name events
stop_iff name accepted probable_eof = ground arith
stop_iff name accepted (failed e) = ground arith

-- The watch is closed before a ready pod and before the context is done.
abbrev pub ClosesFirst : List Watched → Type 0
ClosesFirst [] = ⊥
ClosesFirst (context_done ∷ events) = ⊥
ClosesFirst (changed pod ∷ events) = (is_ready pod ≡ false) × ClosesFirst events
ClosesFirst (deleted pod ∷ events) = (is_ready pod ≡ false) × ClosesFirst events
ClosesFirst (closed ∷ events) = Unit

-- The wait for a job panics exactly if the watch is closed before it shows a ready pod and before the
-- context is done.
wait-panics_iff :
    (name : Text) (events : List Watched) → (wait name events ≡ panicked) ↔ ClosesFirst events
unfolding wait
wait-panics_iff name [] = ground arith
wait-panics_iff name (context_done ∷ events) = ground arith
wait-panics_iff name (changed pod ∷ events) = ground (arith, wait-panics_iff name events)
wait-panics_iff name (deleted pod ∷ events) = ground (arith, wait-panics_iff name events)
wait-panics_iff name (closed ∷ events) = ground arith

-- The runner is alive exactly if the job has one pod and that pod is ready.
pub alive_iff :
    (pods : List Pod)
    → (alive none (value pods) ≡ value true)
      ↔ ((pod : Pod) × (pods ≡ pod ∷ []) × (is_ready pod ≡ true))
unfolding alive
alive_iff [] = ground arith
alive_iff (pod ∷ []) = ((λ h. (pod, refl, cc (h))), λ p. let (x, e, r) = p in cc (e, r))
alive_iff (pod ∷ other ∷ pods) = ground arith
