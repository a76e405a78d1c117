-- ===== src/Kubernetes/Found.antt =====
-- `IsFinished` and `LogListenerIP` of internal/kubernetes/kubernetes.go: the jobs and pods they read.
use etos_api.Prelude.{
  ℕ, ◌≤◌, ◌≡◌, ◌≢◌, ◌⊎◌, inl, inr, refl, sym, ap, ◌∙◌, arith, Bool, true, false, Option, some, List,
  [], ◌∷◌, ◌++◌, Text, codes, ◌==◌, ◌&&◌, All, Bool-cases, if◌then◌else◌,
}
use mathlib.Core.Path.{subst}
use etos_api.Space.{lookup, Decoded, value, undecoded}
use etos_api.Kubernetes.{
  Job, Pod, get_all, same_label, key_pair_exists, current_labels, legacy_labels, matches,
  jobs_by_identifier, first_finished, finished_by, is_finished, pods_of_job, first_ip, ip_in,
  ip_of_jobs, ip_for, get_all_pods, log_listener_ip, Cache,
}
use etos_api.Kubernetes.Fresh.{
  Api, Reached, IsRecent, get_all-IsRecent, IsOf, key_pair_exists-HasLabels,
  key_pair_exists_of_HasLabels, same_label_eq, same_label_of,
}

-- The first element with a property.
pub record First {ℓ} {A : Type ℓ} (P : A → Type 0) (xs : List A) : Type ℓ where
  pub element : A
  pub before : List A
  pub after : List A
  pub parts : xs ≡ before ++ element ∷ after
  pub none_before : All (λ x. ¬ P x) before
  pub holds : P element

abbrev later_First {ℓ} :
    {A : Type ℓ} (P : A → Type 0) (x : A) (xs : List A) → ¬ P x → First P xs → First P (x ∷ xs)
later_First P x xs other f = record {
  element = f.element;
  before = x ∷ f.before;
  after = f.after;
  parts = ap (λ ys. x ∷ ys) f.parts;
  none_before = (other, f.none_before);
  holds = f.holds;
}

matches-IsOf : (id : Text) (job : Job) → matches id job ≡ true → IsOf id job
unfolding matches
matches-IsOf id job h = elim (Bool-cases (key_pair_exists job.labels (current_labels id))) [
  | inl e ↦ inl (key_pair_exists-HasLabels job.labels (current_labels id) e)
  | inr e ↦ inr (key_pair_exists-HasLabels job.labels (legacy_labels id) (ground (arith, e, h)))
]

matches_of_IsOf : (id : Text) (job : Job) → IsOf id job → matches id job ≡ true
unfolding matches
matches_of_IsOf id job (inl h) =
    ground (arith, key_pair_exists_of_HasLabels job.labels (current_labels id) h)
matches_of_IsOf id job (inr h) =
    ground (arith, key_pair_exists_of_HasLabels job.labels (legacy_labels id) h)

jobs_by_identifier_step :
    (id : Text) (job : Job) (jobs : List Job) (b : Bool)
    → matches id job ≡ b
    → jobs_by_identifier id (job ∷ jobs)
      ≡ (if b then job ∷ jobs_by_identifier id jobs else jobs_by_identifier id jobs)
unfolding jobs_by_identifier
jobs_by_identifier_step id job jobs b h =
    ap (λ x. if x then job ∷ jobs_by_identifier id jobs else jobs_by_identifier id jobs) h

-- What the selection of jobs starts with.
abbrev Selected : Text → List Job → List Job → Type 0
Selected id jobs [] = All (λ job. ¬ IsOf id job) jobs
Selected id jobs (j ∷ js) = (f : First (IsOf id) jobs) × (f.element ≡ j)

Selected-later :
    (id : Text) (job : Job) (jobs selected : List Job)
    → ¬ IsOf id job
    → Selected id jobs selected
    → Selected id (job ∷ jobs) selected
Selected-later id job jobs [] other h = (other, h)
Selected-later id job jobs (j ∷ js) other (f, e) = (later_First (IsOf id) job jobs other f, e)

jobs_by_identifier-Selected :
    (id : Text) (jobs : List Job) → Selected id jobs (jobs_by_identifier id jobs)
jobs_by_identifier-Selected id [] = unfold jobs_by_identifier in tt
jobs_by_identifier-Selected id (job ∷ jobs) = elim (Bool-cases (matches id job)) [
  | inl e ↦ subst (Selected id (job ∷ jobs)) (sym (jobs_by_identifier_step id job jobs true e)) (
    record {
      element = job;
      before = [];
      after = jobs;
      parts = refl;
      none_before = tt;
      holds = matches-IsOf id job e;
    },
    refl,
  )
  | inr e ↦ subst (Selected id (job ∷ jobs)) (sym (jobs_by_identifier_step id job jobs false e)) (
      Selected-later id job jobs (jobs_by_identifier id jobs)
        (λ h. cc (e, matches_of_IsOf id job h)) (jobs_by_identifier-Selected id jobs))
]

-- The test run has no job among these, or its first job has ended.
abbrev pub HasEnded : Text → List Job → Type 0
HasEnded id jobs =
    All (λ job. ¬ IsOf id job) jobs
    ⊎ ((f : First (IsOf id) jobs) × ((f.element.succeeded ≢ 0) ⊎ (f.element.failed ≢ 0)))

ended_counts : (s f : ℕ) → (if s == 0 && f == 0 then false else true) ≡ true → (s ≢ 0) ⊎ (f ≢ 0)
ended_counts s f h = ground (arith, h)

first_finished-HasEnded :
    (id : Text) (jobs selected : List Job)
    → Selected id jobs selected
    → first_finished selected ≡ true
    → HasEnded id jobs
first_finished-HasEnded id jobs [] s h = inl s
first_finished-HasEnded id jobs (j ∷ js) (f, e) h = inr (
  f,
  subst (λ x. (x.succeeded ≢ 0) ⊎ (x.failed ≢ 0)) (sym e) (ended_counts j.succeeded j.failed h),
)

finished_by-HasEnded :
    (api : Api (List Job)) (id : Text) (now : ℕ) (d : Decoded (List Job))
    → ((jobs : List Job) → d ≡ value jobs → IsRecent api now jobs)
    → finished_by id d ≡ true
    → (jobs : List Job) × IsRecent api now jobs × HasEnded id jobs
finished_by-HasEnded api id now (undecoded e) recent h = absurd (cc (h))
finished_by-HasEnded api id now (value jobs) recent h = (
  jobs,
  recent jobs refl,
  first_finished-HasEnded id jobs (jobs_by_identifier id jobs) (jobs_by_identifier-Selected id jobs)
      h,
)

-- A test run is called finished only if the API server has answered, at most five seconds ago, with
-- jobs of which none is of that run, or of which the first that is of that run has succeeded or
-- failed; whatever calls used the cache before.
pub is_finished-HasEnded :
    (api : Api (List Job)) (has_client : Bool) (id : Text) (cache : Option (List Job × ℕ))
    (before now : ℕ)
    → Reached api cache before
    → before ≤ now
    → (is_finished has_client id now (api now) cache).0 ≡ true
    → (jobs : List Job) × IsRecent api now jobs × HasEnded id jobs
unfolding is_finished
is_finished-HasEnded api false id cache before now r le h = absurd (cc (h))
is_finished-HasEnded api true id cache before now r le h =
    finished_by-HasEnded api id now (get_all now (api now) cache).0
      (get_all-IsRecent api cache before now r le) h

-- A pod of the job: its label names it.
abbrev pub IsPodOf : Text → Pod → Type 0
IsPodOf name pod = lookup (codes "job-name") pod.labels ≡ some name

abbrev SelectedPods : Text → List Pod → List Pod → Type 0
SelectedPods name pods [] = Unit
SelectedPods name pods (p ∷ ps) = (f : First (IsPodOf name) pods) × (f.element ≡ p)

SelectedPods-later :
    (name : Text) (pod : Pod) (pods selected : List Pod)
    → ¬ IsPodOf name pod
    → SelectedPods name pods selected
    → SelectedPods name (pod ∷ pods) selected
SelectedPods-later name pod pods [] other h = tt
SelectedPods-later name pod pods (p ∷ ps) other (f, e) =
    (later_First (IsPodOf name) pod pods other f, e)

pods_of_job_step :
    (name : Text) (pod : Pod) (pods : List Pod) (b : Bool)
    → same_label (lookup (codes "job-name") pod.labels) name ≡ b
    → pods_of_job name (pod ∷ pods)
      ≡ (if b then pod ∷ pods_of_job name pods else pods_of_job name pods)
unfolding pods_of_job
pods_of_job_step name pod pods b h =
    ap (λ x. if x then pod ∷ pods_of_job name pods else pods_of_job name pods) h

pods_of_job-SelectedPods :
    (name : Text) (pods : List Pod) → SelectedPods name pods (pods_of_job name pods)
pods_of_job-SelectedPods name [] = unfold pods_of_job in tt
pods_of_job-SelectedPods name (pod ∷ pods) =
    elim (Bool-cases (same_label (lookup (codes "job-name") pod.labels) name)) [
      | inl e ↦
          subst (SelectedPods name (pod ∷ pods)) (sym (pods_of_job_step name pod pods true e)) (
            record {
              element = pod;
              before = [];
              after = pods;
              parts = refl;
              none_before = tt;
              holds = same_label_eq (lookup (codes "job-name") pod.labels) name e;
            },
            refl,
          )
      | inr e ↦
          subst (SelectedPods name (pod ∷ pods)) (sym (pods_of_job_step name pod pods false e)) (
            SelectedPods-later name pod pods (pods_of_job name pods)
              (λ h. cc (e, same_label_of (lookup (codes "job-name") pod.labels) name h))
              (pods_of_job-SelectedPods name pods))
    ]

-- An address is that of the first pod of the first job of the test run.
pub record Listens (id : Text) (jobs : List Job) (pods : List Pod) (ip : Text) : Type 0 where
  pub job : First (IsOf id) jobs
  pub pod : First (IsPodOf job.element.name) pods
  pub address : pod.element.pod_ip ≡ ip

-- It is so in answers of the last five seconds.
abbrev pub NowListens : Api (List Job) → Api (List Pod) → ℕ → Text → Text → Type 0
NowListens jobs_api pods_api now id ip =
    (jobs : List Job) × (pods : List Pod) × IsRecent jobs_api now jobs
    × IsRecent pods_api now pods
    × Listens id jobs pods ip

first_ip-Listens :
    (id ip name : Text) (jobs : List Job) (pods selected : List Pod) (job : First (IsOf id) jobs)
    → job.element.name ≡ name
    → SelectedPods name pods selected
    → first_ip selected ≡ value ip
    → Listens id jobs pods ip
first_ip-Listens id ip name jobs pods [] job e s h = absurd (cc (h))
first_ip-Listens id ip name jobs pods (p ∷ ps) job e (f, at) h =
    let moved = subst (λ n. (g : First (IsPodOf n) pods) × (g.element ≡ p)) (sym e) (f, at) in
    record { job = job; pod = moved.0; address = ap (λ x. x.pod_ip) moved.1 ∙ cc (h) }

ip_in-Listens :
    (id ip name : Text) (api : Api (List Pod)) (now : ℕ) (d : Decoded (List Pod)) (jobs : List Job)
    (job : First (IsOf id) jobs)
    → job.element.name ≡ name
    → ((pods : List Pod) → d ≡ value pods → IsRecent api now pods)
    → ip_in name d ≡ value ip
    → (pods : List Pod) × IsRecent api now pods × Listens id jobs pods ip
ip_in-Listens id ip name api now (undecoded x) jobs job e recent h = absurd (cc (h))
ip_in-Listens id ip name api now (value pods) jobs job e recent h = (
  pods,
  recent pods refl,
  first_ip-Listens id ip name jobs pods (pods_of_job name pods) job e
      (pods_of_job-SelectedPods name pods) h,
)

-- `LogListenerIP` behind the list of jobs.
ip_for-Listens :
    (id ip : Text) (api : Api (List Pod)) (now before : ℕ) (c : Cache) (jobs selected : List Job)
    → Selected id jobs selected
    → Reached api c.pods before
    → before ≤ now
    → (ip_of_jobs id now (api now) selected c).0 ≡ value ip
    → (pods : List Pod) × IsRecent api now pods × Listens id jobs pods ip
ip_for-Listens id ip api now before c jobs [] s r le h = absurd (cc (h))
ip_for-Listens id ip api now before c jobs (j ∷ js) (f, e) r le h =
    ip_in-Listens id ip j.name api now (get_all now (api now) c.pods).0 jobs f (ap (λ x. x.name) e)
      (get_all-IsRecent api c.pods before now r le) (unfold get_all_pods in h)

listed-Listens :
    (jobs_api : Api (List Job)) (pods_api : Api (List Pod)) (id ip : Text) (c : Cache)
    (before now : ℕ) (d : Decoded (List Job))
    → ((jobs : List Job) → d ≡ value jobs → IsRecent jobs_api now jobs)
    → Reached pods_api c.pods before
    → before ≤ now
    → (ip_for id now (pods_api now) d c).0 ≡ value ip
    → NowListens jobs_api pods_api now id ip
listed-Listens jobs_api pods_api id ip c before now (undecoded x) recent r le h = absurd (cc (h))
listed-Listens jobs_api pods_api id ip c before now (value jobs) recent r le h =
    let (pods, new, listens) =
      ip_for-Listens id ip pods_api now before c jobs (jobs_by_identifier id jobs)
        (jobs_by_identifier-Selected id jobs) r le h in
    (jobs, pods, recent jobs refl, new, listens)

-- The address of a log listener that is returned is that of the first pod whose label names the first
-- job of the test run, among jobs and pods that the API server has answered at most five seconds ago,
-- whatever calls used the caches before.
pub log_listener_ip-Listens :
    (jobs_api : Api (List Job)) (pods_api : Api (List Pod)) (has_client : Bool) (id ip : Text)
    (c : Cache) (before now : ℕ)
    → Reached jobs_api c.jobs before
    → Reached pods_api c.pods before
    → before ≤ now
    → (log_listener_ip has_client id now (jobs_api now) (pods_api now) c).0 ≡ value ip
    → NowListens jobs_api pods_api now id ip
unfolding log_listener_ip
log_listener_ip-Listens jobs_api pods_api false id ip c before now rj rp le h = absurd (cc (h))
log_listener_ip-Listens jobs_api pods_api true id ip c before now rj rp le h =
    listed-Listens jobs_api pods_api id ip _ before now (get_all now (jobs_api now) c.jobs).0
      (get_all-IsRecent jobs_api c.jobs before now rj le) rp le h
