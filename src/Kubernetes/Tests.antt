-- ===== src/Kubernetes/Tests.antt =====
-- The Kubernetes client on concrete jobs.
use etos_api.Prelude.{ℕ, refl, arith, true, Option, none, List, [], ◌∷◌, codes, text_eq}
use etos_api.Space.{lookup, value}
use etos_api.Kubernetes.{
  Job, Pod, get_all, key_pair_exists, matches, jobs_by_identifier, is_finished, current_labels,
  log_listener_ip, get_all_pods, pods_of_job,
}
use etos_api.Kubernetes.Fresh.{Api, Reached, empty, call, IsRecent}
use etos_api.Kubernetes.Found.{HasEnded, is_finished-HasEnded, NowListens, log_listener_ip-Listens}

abbrev ended : Job
ended = record {
  name = codes "j";
  labels = current_labels (codes "run");
  succeeded = 1;
  failed = 0;
}

abbrev other_run : Job
other_run = record { name = codes "k"; labels = []; succeeded = 0; failed = 0 }

abbrev listener : Pod
listener = record { labels = (codes "job-name", codes "j") ∷ []; pod_ip = codes "10.0.0.1" }

abbrev api : Api (List Job)
api t = value (other_run ∷ ended ∷ [])

abbrev used : Option (List Job × ℕ)
used = (get_all 1000 (api 1000) none).1

was_used : Reached api used 1000
was_used = call 1000 (empty 0) (omega arith)

is_finished-HasEnded_example :
    (jobs : List Job) × IsRecent api 3000 jobs × HasEnded (codes "run") jobs
unfolding is_finished get_all jobs_by_identifier matches key_pair_exists lookup text_eq
is_finished-HasEnded_example =
    is_finished-HasEnded api true (codes "run") used 1000 3000 was_used (omega arith) refl

abbrev pods_api : Api (List Pod)
pods_api t = value (listener ∷ [])

log_listener_ip-Listens_example : NowListens api pods_api 3000 (codes "run") (codes "10.0.0.1")
unfolding log_listener_ip get_all get_all_pods jobs_by_identifier matches key_pair_exists
    pods_of_job lookup text_eq
log_listener_ip-Listens_example =
    log_listener_ip-Listens api pods_api true (codes "run") (codes "10.0.0.1")
      (record { jobs = used; pods = none }) 1000 3000 was_used (empty 1000) (omega arith) refl
