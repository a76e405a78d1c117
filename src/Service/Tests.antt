-- ===== src/Service/Tests.antt =====
-- The configuration and the life of a service on concrete inputs.
use etos_api.Prelude.{
  Bool, Option, Text, ◌≡◌, ◌↔◌, refl, true, false, none, some, [], ◌∷◌, codes, text_eq,
}
use etos_api.Space.{lookup}
use etos_api.Auth.{parse, new_authorizer}
use etos_api.Auth.Keys.{KeyRequest, token, all_allowed, create_new}
use etos_api.Auth.Tests.{plain}
use etos_api.Service.Issuing.{HasKey, start_keys-issues_iff}
use etos_api.Service.Config.{
  KeyConfig, key_at, new_key_config, load, env_or_default, database_uri, new_sse_config,
}
use etos_api.Service.Server.{WebService, new_web_service, after_prefix}
use etos_api.Service.Start.{start_sse, serving, rabbitmq, start_keys, Started, Machine}
use etos_api.Service.Shutdown.{
  Main, v2alpha, Reach, here, next, ByServer, started, connects, signalled, shutting_down, closed,
}
use etos_api.Service.Shutdown.Graceful.{graceful_iff}
use etos_api.Service.Waiting
use etos_api.Service.Waiting.{Moves, first, running, checkout_at}
use etos_api.Service.Waiting.Ended.{ended_iff, HasBegun, HasEnded}

-- A client streams events of v2alpha when the signal arrives.
abbrev stopping : Main
stopping = record started {
  phase = shutting_down;
  new = record { cancelled = false; open_streams = 1 };
}

reached : Reach started stopping
reached =
    next (next here (connects v2alpha started refl))
      (signalled (record started { new = record { cancelled = false; open_streams = 1 } }) refl)

graceful_iff_example :
    ((t : Main) × ((r : Reach stopping t) × ByServer r) × (t.phase ≡ closed true))
    ↔ ((stopping.old.open_streams ≡ 0) × (stopping.older.open_streams ≡ 0))
graceful_iff_example = graceful_iff stopping reached refl

-- One checkout runs, and another is launched, when the signal arrives.
abbrev launched_two : Waiting.Main
launched_two =
    Waiting.launch 0
      (record (Waiting.begin (running ∷ [])
        (Waiting.launch 0 (record Waiting.started { beginning = 1 }))) { beginning = 1 })

reached_two : Waiting.Reach Waiting.started (record launched_two { phase = Waiting.shutting_down })
reached_two =
    let one = Waiting.next Waiting.here (Waiting.arrives Waiting.started refl) in
    let two = Waiting.next one (Waiting.launches 0 _ tt refl) in
    let three = Waiting.next two (Waiting.begins _ tt (Waiting.first [])) in
    let four = Waiting.next three (Waiting.arrives _ refl) in
    let five = Waiting.next four (Waiting.launches 0 _ tt refl) in
    Waiting.next five (Waiting.signalled _ refl)

ended_iff_example :
    ((t : Waiting.Main)
      → Waiting.Reach (record launched_two { phase = Waiting.shutting_down }) t
      → t.phase ≡ Waiting.exited
      → HasEnded (checkout_at 1 t.checkouts))
    ↔ HasBegun (checkout_at 1 launched_two.checkouts)
ended_iff_example =
    ended_iff 1 (record launched_two { phase = Waiting.shutting_down }) reached_two tt

database_test :
    database_uri (load [] ((codes "ETOS_ETCD_HOST", codes "db") ∷ []) none) ≡ codes "db:2379"
unfolding database_uri load env_or_default lookup text_eq
database_test = refl

streamer_test :
    start_sse
      (new_sse_config []
        ((codes "ETOS_RABBITMQ_URI", codes "rabbitmq-stream+tls://bus")
          ∷ (codes "ETOS_RABBITMQ_STREAM_NAME", codes "etos")
          ∷ [])
        none)
      (record {
        level_parses = true;
        has_hostname = true;
        has_clients = true;
        makes_directory = true;
      })
      (record { opens = true; creates = true; hostname_of = λ uri. codes "bus" })
    ≡ serving (
      rabbitmq (codes "rabbitmq-stream+tls://bus") (codes "etos") (some (codes "bus")),
      new_web_service (load [] [] none),
    )
unfolding start_sse new_sse_config load env_or_default lookup text_eq after_prefix new_web_service
streamer_test = refl

abbrev machine : Machine
machine = record {
  level_parses = true;
  has_hostname = true;
  has_clients = true;
  makes_directory = true;
}

abbrev parses : Text → Bool
parses t = true

abbrev keys_config : KeyConfig
keys_config =
    new_key_config []
      ((codes "PUBLIC_KEY_PATH", codes "p") ∷ (codes "PRIVATE_KEY_PATH", codes "k") ∷ []) none

abbrev key_files : Text → Option Text
key_files path = some path

abbrev keys_service : Started (Bool × WebService)
keys_service = serving (true, new_web_service keys_config.base)

served : start_keys keys_config machine key_files parses parses ≡ keys_service
unfolding start_keys new_key_config load env_or_default lookup text_eq new_authorizer key_at
served = refl

abbrev key_request : KeyRequest
key_request = record { scope = codes "get-sse"; identity = [] }

start_keys-issues_iff_example :
    ((t : Text) × (create_new plain true 0 (codes "run") (some key_request) ≡ token t)) ↔ (
      HasKey (key_at key_files keys_config.private_key_path)
      × (all_allowed (parse key_request.scope) ≡ true))
start_keys-issues_iff_example =
    start_keys-issues_iff keys_config machine key_files parses parses true
      (new_web_service keys_config.base) plain 0 (codes "run") key_request served
