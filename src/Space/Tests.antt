-- ===== src/Space/Tests.antt =====
-- The execution spaces on a store in memory.
use etos_api.Prelude.{
  ◌+◌, ◌≡◌, refl, arith, false, Option, none, some, [], ◌∷◌, Text, codes, text_eq, length, All, pos,
}
use etos_api.Database.{Etcd, World, open_id, key, applied, lost}
use etos_api.Database.Memory.{memory, short_uuids}
use etos_api.Space.{Map, ExecutionSpace, Environ, value, done}
use etos_api.Space.Serial.{specs, spaces}
use etos_api.Space.Provider.{FreshIds, ExecutorConfig, checkout, panics}
use etos_api.Space.Provider.Outcome.{AreFresh, Made}
use etos_api.Space.Provider.Answering.{answering}
use etos_api.Space.Provider.Success.{CheckedOut}
use etos_api.Space.Provider.Checkout.{checkout-Made}
use etos_api.Service.Routes.{execution_space}
use etos_api.Service.Routed.{IsRouted, start-IsRouted}
use etos_api.Space.Starting.{new_provider, maximum_of, StartRequest, Dataset, Provider}
use etos_api.Space.Starting.Launch.{IsLaunched, start-panics}
use etos_api.Space.Starting
use etos_api.Database.{unheard, write, request}
use etos_api.Space.{
  set, set_all, new, add, new_executor_spec, executor_environment, save_space, save_spec,
  fail_space,
}
use etos_api.Space.Provider.{checkout_loop, finish, save_executor}

abbrev client : Etcd
client = record { id = 0; tree_prefix = []; data_bytes = []; has_read = false }

abbrev environ : Environ
environ = record { https_proxy = codes "p"; http_proxy = []; no_proxy = []; tz = [] }

abbrev service : Provider
service = record { url = codes "u"; environ = environ; carrier = [] }

abbrev two_of : Option Map → StartRequest
two_of environment = record {
  minimum_amount = pos 2;
  maximum_amount = pos 0;
  test_runner = codes "r";
  environment = environment;
  artifact_identity = codes "pkg";
  dataset = record { etr_branch = []; etr_repo = []; dev = false };
}

-- The executors have the ids 10, 11, 12, and the checkout 5.
abbrev ids : FreshIds
ids i = (i + 10, i + 100)

fresh : AreFresh ids 5
fresh = record { others = λ i e. omega (arith, e); distinct = λ i j e. omega (arith, e) }

abbrev no_error : Text → Option Text
no_error t = none

abbrev bad : Text → Text
bad t = t

start-IsRouted_example :
    IsLaunched
      (new_provider (codes "http://host") environ [])
      (codes "run")
      5
      no_error
      memory
      short_uuids
      specs
      spaces
      client
      (two_of (some []))
      (Starting.start
        (new_provider (codes "http://host") environ [])
        (codes "run")
        5
        no_error
        (value (two_of (some []))))
      (λ cfg.
        (c : CheckedOut memory short_uuids specs spaces client bad cfg (
          checkout memory short_uuids specs spaces client cfg ids
            (answering memory short_uuids specs spaces client [])))
        × All (IsRouted (codes "http://host") (execution_space Starting.name)) c.space.executors)
start-IsRouted_example =
    start-IsRouted (codes "http://host") environ [] (codes "run") 5 no_error memory short_uuids
      specs spaces client bad ids (two_of (some [])) [] [] refl refl (omega arith)
      (λ j e. omega (arith, e)) fresh refl

start-panics_example :
    IsLaunched service
      (codes "run")
      5
      no_error
      memory
      short_uuids
      specs
      spaces
      client
      (two_of none)
      (Starting.start service (codes "run") 5 no_error (value (two_of none)))
      (λ cfg.
        ◌≡◌
          (checkout memory short_uuids specs spaces client cfg ids
            (answering memory short_uuids specs spaces client [])).0
          panics)
unfolding maximum_of
start-panics_example =
    start-panics service (codes "run") 5 no_error memory short_uuids specs spaces client ids
      (two_of none) 1 (answering memory short_uuids specs spaces client []) refl refl refl refl refl
      refl (omega arith) refl

abbrev config : ExecutorConfig
config = record {
  amount = 1;
  checkout_id = 5;
  environment = some [];
  common = record {
    url = codes "u";
    environ = environ;
    carrier = [];
    etos_identifier = codes "run";
    test_runner = codes "r";
  };
}

-- The last write is applied, but the client does not hear it, and the failure cannot be written.
abbrev flaky : World memory
flaky = record {
  store = [];
  answers = applied ∷ applied ∷ unheard (codes "timeout") ∷ lost (codes "timeout") ∷ [];
}

abbrev finished_space : ExecutionSpace
finished_space = record {
  id = 5;
  executors = [];
  references = (10 ∷ []) ∷ [];
  status = done;
  description = codes "Execution spaces checked out successfully";
}

checkout-Made_example :
    (length finished_space.references ≡ config.amount)
    × All
        (Made memory short_uuids specs spaces client ids 5 config.common 1
          (checkout memory short_uuids specs spaces client config ids flaky).1.store)
        finished_space.references
unfolding checkout checkout_loop finish save_space save_spec save_executor write request fail_space
    key open_id new add new_executor_spec executor_environment set set_all text_eq
checkout-Made_example =
    checkout-Made memory short_uuids specs spaces client ids config flaky
      (spaces.encode finished_space) finished_space fresh refl refl
      (spaces.decode_encode finished_space) refl

abbrev unheard_write : World memory
unheard_write = record { store = []; answers = unheard (codes "timeout") ∷ [] }
