-- ===== src/Space/Jobs.antt =====
-- The jobs of the executors, on a store in memory.
use etos_api.Prelude.{
  ◌≡◌, refl, arith, true, false, Option, none, some, List, [], ◌∷◌, Text, codes, text_eq, All,
}
use etos_api.Database.{Etcd, World, open_id, key}
use etos_api.Database.Memory.{memory, short_uuids}
use etos_api.Repository.{EiffelEvent, Repository}
use etos_api.Space.{ExecutorSpec, Decoded, value}
use etos_api.Space.Serial.{specs, spaces}
use etos_api.Space.Provider.Answering.{answering}
use etos_api.Space.Executor.{Situation, Round, wait_start, executor_start}
use etos_api.Space.Executor.Waiting.{Found, wait_start-Found}
use etos_api.Space.Executor.Released.{Released}
use etos_api.Space.Stopping.{stop_executors}
use etos_api.Database.{write, request}
use etos_api.Repository.{
  environment_defined, main_suite_started, activity_triggered, test_suite_started,
}
use etos_api.Space.{lookup, save_spec, delete_spec}
use etos_api.Space.Provider.{save_executor, executor_spec, job, checkin}
use etos_api.Space.Executor.{get_sub_suite}
use etos_api.Space.Executor.Released.{Running, running}
use etos_api.Space.Stopping.{stop_all}
use etos_api.Space.Stopping.Stopped.{IsStopped, build_at}
use etos_api.Space.Stopping.CheckedIn.{Emptied, stop_executors-CheckedIn}
use etos_api.Space.Stopping.Lifecycle.{stop_executors_of_Running}
use etos_api.Space.Job.{Condition}

abbrev client : Etcd
client = record { id = 0; tree_prefix = []; data_bytes = []; has_read = false }

-- An executor in the store.
abbrev runner : Text → ExecutorSpec
runner build = record {
  request = record {
    url = codes "u";
    method = codes "POST";
    data_id = 10;
    headers = [];
    timeout = 7200;
  };
  instructions = record {
    image = codes "r";
    environment = (codes "ENVIRONMENT_ID", 10 ∷ []) ∷ [];
    parameters = [];
    identifier = 100;
  };
  id = 10;
  build_id = build;
}

abbrev holding : Text → World memory
holding build = record { store = (b'/' ∷ 10 ∷ [], specs.encode (runner build)) ∷ []; answers = [] }

abbrev an_event : EiffelEvent
an_event = record { id = codes "i"; name = codes "n"; context = codes "c" }

abbrev all_found : Repository
all_found query = value (an_event ∷ [])

abbrev nothing_yet : Repository
nothing_yet query = value []

abbrev rounds : List Round
rounds =
    record { alive = value true; repository = nothing_yet }
    ∷ record { alive = value true; repository = all_found }
    ∷ []

wait_start-Found_example : Found rounds (10 ∷ [])
unfolding wait_start get_sub_suite environment_defined main_suite_started activity_triggered
    test_suite_started
wait_start-Found_example = wait_start-Found rounds (10 ∷ []) refl

abbrev same_name : Text → Option (Decoded Text)
same_name id = some (value id)

abbrev situation : Situation
situation = record {
  body = some 10;
  timed_out = λ stage. false;
  started = λ e. value (codes "etr");
  waited = same_name;
  rounds = rounds;
  ends = true;
}

is_running :
    Running memory short_uuids specs spaces client situation
      (executor_start memory short_uuids specs spaces client situation (holding []))
unfolding executor_start executor_spec save_executor save_spec write request key open_id text_eq
    lookup wait_start get_sub_suite environment_defined main_suite_started activity_triggered
    test_suite_started running
is_running = record {
  no_content = refl;
  id = codes "etr";
  spec = runner [];
  one_job = refl;
  stored = refl;
  ready = refl;
}

stop_executors_of_Running_example :
    ((stop_executors memory short_uuids specs spaces client
        (λ id. none)
        (some (runner [] ∷ []))
        (answering memory short_uuids specs spaces client
          (executor_start memory short_uuids specs spaces client situation (holding [])).1.store)).0
      ≡ 204)
    × ((stop_executors memory short_uuids specs spaces client
          (λ id. none)
          (some (runner [] ∷ []))
          (answering memory short_uuids specs spaces client
            (executor_start memory short_uuids specs spaces client situation
              (holding [])).1.store)).1
        ≡ codes "etr" ∷ [])
unfolding is_running
stop_executors_of_Running_example =
    stop_executors_of_Running memory short_uuids specs spaces client (λ id. none) situation
      (holding []) is_running (omega arith) (λ e. cc (e)) refl

stop_executors-CheckedIn_example :
    All
      (λ e.
        IsStopped memory short_uuids specs spaces client
          (λ id. none)
          (build_at memory short_uuids specs spaces client (holding (codes "etr")).store e.id))
      (runner [] ∷ [])
    × All
        (Emptied memory short_uuids specs spaces client
          (stop_executors memory short_uuids specs spaces client
            (λ id. none)
            (some (runner [] ∷ []))
            (holding (codes "etr"))).2.store)
        (runner [] ∷ [])
unfolding stop_executors stop_all job executor_spec checkin delete_spec write request key open_id
    text_eq
stop_executors-CheckedIn_example =
    stop_executors-CheckedIn memory short_uuids specs spaces client (λ id. none) (runner [] ∷ [])
      (holding (codes "etr")) refl

abbrev one_pod : List Condition
one_pod = record { is_ready_type = true; is_true = true } ∷ []

abbrev emptied : World memory
emptied =
    (stop_executors memory short_uuids specs spaces client (λ id. none) (some (runner [] ∷ []))
      (holding (codes "etr"))).2
