-- ===== src/Space/Executor.antt =====
-- pkg/executionspace/v1alpha/executor.go: `ExecutorStart`, and the wait for the sub suite. What the
-- executor and the event repository answer is a parameter; `retry.Constant` runs its function until
-- it succeeds, fails for good, or the context is done.
pub mod Waiting
pub mod Released
use etos_api.Prelude.{
  ℕ, ◌≡◌, Bool, true, false, Option, none, some, List, [], ◌∷◌, Text, codes, if◌then◌else◌,
}
use etos_api.Database.{Error, message, Uuids, Kv, Etcd, World}
use etos_api.Space.{lookup, ExecutorSpec, ExecutionSpace, Decoded, value, undecoded, Codec}
use etos_api.Space.Provider.{save_executor, executor_spec}
use etos_api.Repository.{
  EiffelEvent, Repository, environment_defined, main_suite_started, test_suite_started,
}

-- `state`, without the executor.
pub record SubSuiteState : Type 0 where
  pub environment : Option EiffelEvent
  pub main_suite : Option EiffelEvent

abbrev pub fresh_state : SubSuiteState
fresh_state = record { environment = none; main_suite = none }

-- A map without the key gives the empty text.
abbrev pub or_empty : Option Text → Text
or_empty none = []
or_empty (some t) = t

abbrev pub with_main :
    Repository → EiffelEvent → Decoded EiffelEvent → Decoded EiffelEvent × SubSuiteState
with_main repository env (undecoded e) =
    (undecoded e, record { environment = some env; main_suite = none })
with_main repository env (value main) = (
  test_suite_started repository main.id env.name,
  record { environment = some env; main_suite = some main },
)

abbrev pub with_environment :
    Repository → Option EiffelEvent → Decoded EiffelEvent → Decoded EiffelEvent × SubSuiteState
with_environment repository main (undecoded e) =
    (undecoded e, record { environment = none; main_suite = main })
with_environment repository none (value env) =
    with_main repository env (main_suite_started repository env.context)
with_environment repository (some main) (value env) = with_main repository env (value main)

abbrev pub environment_of : Repository → Text → Option EiffelEvent → Decoded EiffelEvent
environment_of repository id none = environment_defined repository id
environment_of repository id (some env) = value env

-- `getSubSuite`: the events that were found are kept for the next call. `id` is the value of
-- ENVIRONMENT_ID.
unfoldable pub get_sub_suite :
    Repository → Text → SubSuiteState → Decoded EiffelEvent × SubSuiteState
get_sub_suite repository id s =
    with_environment repository s.main_suite (environment_of repository id s.environment)

-- One round of the retries: what `Alive` answers, and the event repository at that time.
pub record Round : Type 0 where
  pub alive : Decoded Bool
  pub repository : Repository

abbrev pub after_sub_suite :
    (SubSuiteState → Option Error) → Decoded EiffelEvent × SubSuiteState → Option Error
after_sub_suite again (undecoded e, s) = again s
after_sub_suite again (value event, s) = none

-- `again` is the next round.
abbrev pub in_round :
    (SubSuiteState → Option Error) → Repository → Text → SubSuiteState → Decoded Bool → Option Error
in_round again repository id s (undecoded e) = again s
in_round again repository id s (value false) =
    some (message (codes "test runner did not start properly"))
in_round again repository id s (value true) = after_sub_suite again (get_sub_suite repository id s)

-- `waitStart`: the rounds until the context is done.
unfoldable pub wait_start : List Round → Text → SubSuiteState → Option Error
wait_start [] id s = some (message (codes "context deadline exceeded"))
wait_start (r ∷ rounds) id s = in_round (wait_start rounds id) r.repository id s r.alive

-- The calls of `ExecutorStart` that wait for something.
pub data Stage : Type 0 where
  loading starting waiting saving initializing : Stage

pub record Situation : Type 0 where
  -- the id in the body, `none` if it cannot be decoded
  pub body : Option ℕ
  -- whether the context is done when the stage has failed
  pub timed_out : Stage → Bool
  pub started : ExecutorSpec → Decoded Text
  -- what `Wait` returns, `none` if it panics
  pub waited : Text → Option (Decoded Text)
  pub rounds : List Round
  -- whether a call of `Cancel` or `Stop` succeeds
  pub ends : Bool

-- The calls of the executor that start and end jobs, with whether `Cancel` and `Stop` succeeded: a
-- failure is logged only.
pub data Call : Type 0 where
  start : Text → Call
  cancel : Text → Bool → Call
  stop : Text → Bool → Call

abbrev pub status_for : Bool → ℕ → ℕ
status_for true code = 408
status_for false code = code

abbrev pub Answered : Type 0
Answered = ℕ × List Call

module _ (kv : Kv) (uuids : Uuids) (specs : Codec ExecutorSpec) (spaces : Codec ExecutionSpace)
    (db : Etcd) where
  abbrev pub initialized : Situation → Text → Text → Option Error → World kv → Answered × World kv
  initialized s id build none w = ((204, start id ∷ []), w)
  initialized s id build (some e) w =
      ((status_for (s.timed_out initializing) 400, start id ∷ stop build s.ends ∷ []), w)

  abbrev pub saved :
      Situation → ExecutorSpec → Text → Text → Option Error × World kv → Answered × World kv
  saved s e id build (some error, w) =
      ((status_for (s.timed_out saving) 500, start id ∷ stop build s.ends ∷ []), w)
  saved s e id build (none, w) =
      initialized s id build
        (wait_start s.rounds (or_empty (lookup (codes "ENVIRONMENT_ID") e.instructions.environment))
          fresh_state)
        w

  -- A panic of `Wait` is answered by `panicRecovery`, behind all that would end the job.
  abbrev pub waited_for :
      Situation → ExecutorSpec → Text → World kv → Option (Decoded Text) → Answered × World kv
  waited_for s e id w none = ((500, start id ∷ []), w)
  waited_for s e id w (some (undecoded error)) =
      ((status_for (s.timed_out waiting) 500, start id ∷ cancel id s.ends ∷ []), w)
  waited_for s e id w (some (value build)) =
      saved s e id build (save_executor kv uuids specs spaces db (record e { build_id = build }) w)

  abbrev pub started_with : Situation → ExecutorSpec → World kv → Decoded Text → Answered × World kv
  started_with s e w (undecoded error) = ((status_for (s.timed_out starting) 500, []), w)
  started_with s e w (value id) = waited_for s e id w (s.waited id)

  abbrev pub loaded : Situation → Decoded ExecutorSpec × World kv → Answered × World kv
  loaded s (undecoded error, w) = ((status_for (s.timed_out loading) 400, []), w)
  loaded s (value e, w) = started_with s e w (s.started e)

  abbrev pub with_body : Situation → World kv → Option ℕ → Answered × World kv
  with_body s w none = ((400, []), w)
  with_body s w (some id) = loaded s (executor_spec kv uuids specs spaces db id w)

  -- `ExecutorStart`: the status of the response, the calls that start and end jobs, and the
  -- database.
  unfoldable pub executor_start : Situation → World kv → Answered × World kv
  executor_start s w = with_body s w s.body
