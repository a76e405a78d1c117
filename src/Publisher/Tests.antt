-- ===== src/Publisher/Tests.antt =====
-- The publisher on concrete attempts.
use etos_api.Prelude.{◌≡◌, ◌≢◌, refl, true, false, some, [], ◌∷◌, inl, inr, codes}
use etos_api.Publisher.{
  Publisher, Attempt, connected, dial_fails, confirmed, channel_closed, expired, acknowledged,
  retrying, publish, new_publisher,
}
use etos_api.Publisher.Outcome.{Settled, publish-Settled}
use etos_api.Publisher.Recovery.{IsHalfOpen, publish_half_open}
use etos_api.Publisher.Recovery.Ends.{publish-ends}
use etos_api.Publisher.Hook.{fire, published}

abbrev good : Attempt
good = record {
  dial = connected;
  drain = confirmed true;
  accepted = true;
  confirm = confirmed true;
  late = false;
  cancelled = false;
}

-- The confirmation does not come in time, and the connection is closed.
abbrev too_late : Attempt
too_late = record good { confirm = expired; late = true }

abbrev no_broker : Attempt
no_broker = record good { dial = dial_fails false }

publish-Settled_example : Settled 7 (publish 7 (no_broker ∷ too_late ∷ good ∷ []) new_publisher)
publish-Settled_example = publish-Settled 7 (no_broker ∷ too_late ∷ good ∷ []) new_publisher tt

published_third : (publish 7 (no_broker ∷ too_late ∷ good ∷ []) new_publisher).0 ≡ acknowledged
unfolding publish
published_third = refl

publish-ends_example : (publish 7 (no_broker ∷ too_late ∷ good ∷ []) new_publisher).0 ≢ retrying
publish-ends_example =
    publish-ends 7 (no_broker ∷ too_late ∷ good ∷ []) new_publisher tt tt
      ((tt, tt), ((tt, tt), ((tt, tt), tt)))
      (inr (
        inr (
          inl (record {
            dial = refl;
            earlier = true;
            drain = refl;
            accepted = refl;
            confirm = refl;
          }))))

-- The exchange is unknown to the broker, which closes the channel.
abbrev no_exchange : Attempt
no_exchange = record good { confirm = channel_closed }

abbrev half_open : Publisher
half_open = (publish 7 (no_exchange ∷ []) new_publisher).1

half_open-IsHalfOpen : IsHalfOpen half_open
unfolding publish
half_open-IsHalfOpen = record { conn = refl; pending = 7 ∷ []; channel = refl }

publish_half_open_example : (publish 8 (good ∷ good ∷ []) half_open).0 ≡ retrying
publish_half_open_example = publish_half_open 8 (good ∷ good ∷ []) half_open half_open-IsHalfOpen (
  record { drain = tt; in_time = refl; wanted = refl },
  (record { drain = tt; in_time = refl; wanted = refl }, tt),
)

hook_publishes :
    fire
      (record {
        user_log = some true;
        identifier = some (codes "run");
        has_context = true;
        logger_level = codes "info";
      })
      (some (codes "{}"))
    ≡ published (codes "run.log.info") (codes "{}")
unfolding fire
hook_publishes = refl
