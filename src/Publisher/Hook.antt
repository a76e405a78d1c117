-- ===== src/Publisher/Hook.antt =====
-- internal/logging/rabbitmqhook: which log entries are published, and under which routing key. The
-- JSON formatter of logrus is a parameter: the text of an entry, or `none` for an error.
use etos_api.Prelude.{Bool, true, false, Option, none, some, ◌++◌, ◌≡◌, refl, Text, codes}
use etos_api.Stream.Rabbit.{qualified}

-- The fields of a log entry that the hook reads, with the level of its logger.
pub record Entry : Type 0 where
  pub user_log : Option Bool
  pub identifier : Option Text
  pub has_context : Bool
  pub logger_level : Text

pub data Fired : Type 0 where
  ignored : Fired
  failed : Text → Fired
  published : (routing_key : Text) (message : Text) → Fired

-- `publish`, up to the call of the publisher.
unfoldable pub routing_key : Text → Text → Text
routing_key identifier level = identifier ++ (codes ".log." ++ level)

abbrev pub publish_formatted : Text → Text → Option Text → Fired
publish_formatted identifier level none = failed (codes "format")
publish_formatted identifier level (some message) = published (routing_key identifier level) message

abbrev pub checked : Option Text → Bool → Text → Option Text → Fired
checked none has_context level formatted = failed (codes "no identifier set to user log entry")
checked (some identifier) false level formatted = failed (codes "no context set to user log entry")
checked (some identifier) true level formatted = publish_formatted identifier level formatted

abbrev pub fire_by : Option Bool → Entry → Option Text → Fired
fire_by (some false) e formatted = ignored
fire_by (some true) e formatted = checked e.identifier e.has_context e.logger_level formatted
fire_by none e formatted = checked e.identifier e.has_context e.logger_level formatted

-- `Fire`; the entry that is handed on to the publisher has `user_log` false.
unfoldable pub fire : Entry → Option Text → Fired
unfolding routing_key
fire e formatted = fire_by e.user_log e formatted

-- A log line of a test run is published under the routing key that a stream of this run asks for, by
-- the filter "log" with the level of the logger.
pub routing_key-qualified :
    (identifier level : Text)
    → routing_key identifier level ≡ qualified identifier (codes "log") level
unfolding routing_key
routing_key-qualified identifier level = refl
