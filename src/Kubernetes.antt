-- ===== src/Kubernetes.antt =====
-- internal/kubernetes/kubernetes.go: the cached lists of jobs and pods, and what is read from them.
-- The API server is a parameter: what it answers at a time. Times are milliseconds of one clock. A
-- call of the cache is one step, since the code fetches under a lock and checks the cache again there.
pub mod Fresh
pub mod Found
pub mod Tests
use etos_api.Prelude.{
  ℕ, ◌-◌, ◌≤◌, ◌≡◌, Bool, true, false, not, ◌&&◌, ◌||◌, Option, none, some, List, [], ◌∷◌, Text,
  codes, text_eq, ltb, ◌==◌, if◌then◌else◌,
}
use etos_api.Database.{Error, message}
use etos_api.Space.{Map, lookup, Decoded, value, undecoded}

pub record Job : Type 0 where
  pub name : Text
  pub labels : Map
  pub succeeded : ℕ
  pub failed : ℕ

pub record Pod : Type 0 where
  pub labels : Map
  pub pod_ip : Text

-- `cacheTTL`.
abbrev pub cache_ttl : ℕ
cache_ttl = 5000

module _ {ℓ} {A : Type ℓ} where
  -- A `cacheEntry`: a list and the time it was stored.
  abbrev pub is_fresh : ℕ → Option (A × ℕ) → Bool
  is_fresh now none = false
  is_fresh now (some (a, stored)) = ltb (now - stored) cache_ttl

  abbrev pub stored_by : ℕ → Option (A × ℕ) → Decoded A → Decoded A × Option (A × ℕ)
  stored_by now cache (undecoded e) = (undecoded e, cache)
  stored_by now cache (value a) = (value a, some (a, now))

  abbrev pub get_by : Bool → ℕ → Decoded A → Option (A × ℕ) → Decoded A × Option (A × ℕ)
  get_by true now answer (some (a, stored)) = (value a, some (a, stored))
  get_by true now answer none = stored_by now none answer
  get_by false now answer cache = stored_by now cache answer

  -- `getAllJobs`, and for pods `getAllPods`, where the API server would answer `answer`.
  unfoldable pub get_all : ℕ → Decoded A → Option (A × ℕ) → Decoded A × Option (A × ℕ)
  get_all now answer cache = get_by (is_fresh now cache) now answer cache

abbrev pub same_label : Option Text → Text → Bool
same_label none v = false
same_label (some t) v = text_eq t v

-- `keyPairExists`.
unfoldable pub key_pair_exists : Map → Map → Bool
key_pair_exists labels [] = true
key_pair_exists labels ((k, v) ∷ pairs) =
    same_label (lookup k labels) v && key_pair_exists labels pairs

abbrev pub current_labels : Text → Map
current_labels identifier =
    (codes "etos.eiffel-community.github.io/id", identifier)
    ∷ (codes "app.kubernetes.io/name", codes "suite-runner")
    ∷ []

abbrev pub legacy_labels : Text → Map
legacy_labels identifier = (codes "id", identifier) ∷ (codes "app", codes "suite-runner") ∷ []

unfoldable pub matches : Text → Job → Bool
matches identifier job =
    key_pair_exists job.labels (current_labels identifier)
    || key_pair_exists job.labels (legacy_labels identifier)

-- The loop of `getJobsByIdentifier`.
unfoldable pub jobs_by_identifier : Text → List Job → List Job
unfolding matches
jobs_by_identifier identifier [] = []
jobs_by_identifier identifier (job ∷ jobs) =
    let rest = jobs_by_identifier identifier jobs in
    if matches identifier job then job ∷ rest else rest

abbrev pub first_finished : List Job → Bool
first_finished [] = true
first_finished (job ∷ jobs) = if job.succeeded == 0 && job.failed == 0 then false else true

abbrev pub finished_by : Text → Decoded (List Job) → Bool
finished_by identifier (undecoded e) = false
finished_by identifier (value jobs) = first_finished (jobs_by_identifier identifier jobs)

-- `IsFinished`; `has_client` is whether a client can be made.
unfoldable pub is_finished :
    Bool → Text → ℕ → Decoded (List Job) → Option (List Job × ℕ) → Bool × Option (List Job × ℕ)
is_finished false identifier now answer cache = (false, cache)
is_finished true identifier now answer cache =
    let (jobs, later) = get_all now answer cache in (finished_by identifier jobs, later)

-- The loop over the pods in `LogListenerIP`.
unfoldable pub pods_of_job : Text → List Pod → List Pod
pods_of_job name [] = []
pods_of_job name (pod ∷ pods) =
    let rest = pods_of_job name pods in
    if same_label (lookup (codes "job-name") pod.labels) name then pod ∷ rest else rest

abbrev pub first_ip : List Pod → Decoded Text
first_ip [] = undecoded (message (codes "could not find pod for job"))
first_ip (pod ∷ pods) = value pod.pod_ip

abbrev pub ip_in : Text → Decoded (List Pod) → Decoded Text
ip_in name (undecoded e) = undecoded e
ip_in name (value pods) = first_ip (pods_of_job name pods)

-- A `kubernetesCache`, for one namespace.
pub record Cache : Type 0 where
  pub jobs : Option (List Job × ℕ)
  pub pods : Option (List Pod × ℕ)

-- `getAllPods`.
unfoldable pub get_all_pods : ℕ → Decoded (List Pod) → Cache → Decoded (List Pod) × Cache
unfolding get_all
get_all_pods now answer c =
    let (pods, later) = get_all now answer c.pods in (pods, record c { pods = later })

abbrev pub ip_of_jobs : Text → ℕ → Decoded (List Pod) → List Job → Cache → Decoded Text × Cache
ip_of_jobs identifier now pods [] c = (undecoded (message (codes "could not find esr job")), c)
ip_of_jobs identifier now pods (job ∷ jobs) c =
    let (listed, later) = get_all_pods now pods c in (ip_in job.name listed, later)

abbrev pub ip_for :
    Text → ℕ → Decoded (List Pod) → Decoded (List Job) → Cache → Decoded Text × Cache
ip_for identifier now pods (undecoded e) c = (undecoded e, c)
ip_for identifier now pods (value jobs) c =
    ip_of_jobs identifier now pods (jobs_by_identifier identifier jobs) c

-- `LogListenerIP`, where the API server would answer `jobs` and `pods`; it is asked for pods only if
-- there is a job.
unfoldable pub log_listener_ip :
    Bool → Text → ℕ → Decoded (List Job) → Decoded (List Pod) → Cache → Decoded Text × Cache
unfolding get_all get_all_pods
log_listener_ip false identifier now jobs pods c = (undecoded (message (codes "no client")), c)
log_listener_ip true identifier now jobs pods c =
    let (listed, later) = get_all now jobs c.jobs in
    ip_for identifier now pods listed (record c { jobs = later })

-- What the struct `Kubernetes` keeps of its client.
pub record ClientState : Type 0 where
  pub has_config : Bool
  pub has_client : Bool

abbrev make_client : Bool → ClientState → Bool × ClientState
make_client makes k = if makes then (true, record k { has_client = true }) else (false, k)

-- `clientset`: whether there is a client, where a configuration is found and a client made or not.
unfoldable pub clientset : (configures makes : Bool) → ClientState → Bool × ClientState
clientset configures makes k =
    if k.has_client
    then (true, k)
    else if k.has_config
    then make_client makes k
    else if configures
    then make_client makes (record k { has_config = true })
    else (false, k)
