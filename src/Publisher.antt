-- ===== src/Publisher.antt =====
-- internal/rabbitmq/rabbitmq.go: the publisher that waits for the confirmation of each message, and
-- (in `Hook`) the log hook that uses it. The AMQP client and the broker are the choices of an
-- `Attempt`: how dialling ends, what is received in each wait, and whether a publish is accepted.
-- A message is the number of its `Publish` call. Calls are taken one after another.
pub mod Serial
pub mod Outcome
pub mod Recovery
pub mod Hook
pub mod Tests
use etos_api.Prelude.{
  ℕ, Bool, true, false, Option, none, some, List, [], ◌∷◌, ◌++◌, ◌&&◌, if◌then◌else◌,
}

-- An `amqp.Channel` in confirm mode, with the messages that were published on it and for which no
-- confirmation was received. Confirmations come in the order of the messages.
pub record Channel : Type 0 where
  pub is_open : Bool
  pub pending : List ℕ

-- `conn` and `channel` are `none` for nil, and `conn` is whether it is open. `acked` is not kept by
-- the code: the messages with a positive confirmation, the latest first.
pub record Publisher : Type 0 where
  pub conn : Option Bool
  pub channel : Option Channel
  pub has_outstanding : Bool
  pub acked : List ℕ

-- `NewPublisher`.
abbrev pub new_publisher : Publisher
new_publisher = record { conn = none; channel = none; has_outstanding = false; acked = [] }

abbrev pub shut : Channel → Channel
shut c = record c { is_open = false }

abbrev pub shut_all : Option Channel → Option Channel
shut_all none = none
shut_all (some c) = some (shut c)

abbrev pub close_by : Option Bool → Publisher → Publisher
close_by none p = p
close_by (some is_open) p = record p { conn = some false; channel = shut_all p.channel }

-- `Close`.
unfoldable pub close : Publisher → Publisher
close p = close_by p.conn p

-- How the calls of `ensureConnection` end. A failed dial leaves nil or a closed connection.
pub data Dial : Type 0 where
  bad_url : Dial
  dial_fails : (left : Bool) → Dial
  channel_fails : Dial
  confirm_fails : Dial
  connected : Dial

abbrev pub reopen : Dial → Publisher → Bool × Publisher
reopen bad_url p = (false, p)
reopen (dial_fails false) p = (false, record p { conn = none })
reopen (dial_fails true) p = (false, record p { conn = some false })
reopen channel_fails p = (false, record p { conn = some true; channel = none })
reopen confirm_fails p = (
  false,
  record p { conn = some false; channel = some (record { is_open = false; pending = [] }) },
)
reopen connected p = (
  true,
  record p {
    conn = some true;
    channel = some (record { is_open = true; pending = [] });
    has_outstanding = false;
  },
)

abbrev pub ensure_by : Option Bool → Option Channel → Dial → Publisher → Bool × Publisher
ensure_by (some true) (some c) dial p = (true, p)
ensure_by (some true) none dial p = reopen dial (close p)
ensure_by (some false) channel dial p = reopen dial (close p)
ensure_by none channel dial p = reopen dial (close p)

-- `ensureConnection`; false is an error.
unfoldable pub ensure_connection : Dial → Publisher → Bool × Publisher
unfolding close
ensure_connection dial p = ensure_by p.conn p.channel dial p

-- The case of the `select` in `awaitConfirmation` that is taken.
pub data Wait : Type 0 where
  connection_closed : Wait
  channel_closed : Wait
  confirmed : (ack : Bool) → Wait
  expired : Wait

pub data Waited : Type 0 where
  broken : Waited
  timed_out : Waited
  confirmation : (ack : Bool) → Waited

abbrev pub acked_with : Bool → ℕ → List ℕ → List ℕ
acked_with true m acked = m ∷ acked
acked_with false m acked = acked

-- The first pending message is confirmed. Where none is pending, a closed channel gives the zero
-- confirmation, and an open one gives none, so that the wait ends by its timeout.
abbrev pub receive : Bool → Bool → List ℕ → Publisher → Waited × Publisher
receive ack is_open (m ∷ rest) p = (
  confirmation ack,
  record p {
    channel = some (record { is_open = is_open; pending = rest });
    has_outstanding = false;
    acked = acked_with ack m p.acked;
  },
)
receive ack true [] p = (timed_out, p)
receive ack false [] p = (confirmation false, record p { has_outstanding = false })

abbrev pub receive_from : Bool → Option Channel → Publisher → Waited × Publisher
receive_from ack none p = (timed_out, p)
receive_from ack (some c) p = receive ack c.is_open c.pending p

-- `awaitConfirmation`.
unfoldable pub await_confirmation : Wait → Publisher → Waited × Publisher
await_confirmation connection_closed p =
    (broken, record p { conn = some false; channel = shut_all p.channel })
await_confirmation channel_closed p = (broken, record p { channel = shut_all p.channel })
await_confirmation (confirmed ack) p = receive_from ack p.channel p
await_confirmation expired p = (timed_out, p)

-- One attempt: `late` is whether its context has expired when it ends, `cancelled` whether that of
-- the caller has an error then.
pub record Attempt : Type 0 where
  pub dial : Dial
  pub drain : Wait
  pub accepted : Bool
  pub confirm : Wait
  pub late : Bool
  pub cancelled : Bool

pub data Tried : Type 0 where
  delivered : Tried
  refused : Tried

-- `CloseOnTimeout`.
unfoldable pub close_on_timeout : Bool → Tried → Publisher → Tried × Publisher
unfolding close
close_on_timeout true t p = (t, close p)
close_on_timeout false t p = (t, p)

abbrev pub tried_by : Bool → Tried
tried_by true = delivered
tried_by false = refused

abbrev pub conclude : Bool → Waited × Publisher → Tried × Publisher
conclude late (timed_out, p) = close_on_timeout true refused p
conclude late (broken, p) = close_on_timeout late refused p
conclude late (confirmation ack, p) = close_on_timeout late (tried_by ack) p

abbrev pub with_message : ℕ → Channel → Publisher → Publisher
with_message m c p = record p {
  channel = some (record c { pending = c.pending ++ m ∷ [] });
  has_outstanding = true;
}

abbrev pub send_if : Bool → ℕ → Attempt → Channel → Publisher → Tried × Publisher
send_if true m a c p = conclude a.late (await_confirmation a.confirm (with_message m c p))
send_if false m a c p = close_on_timeout a.late refused p

-- A publish on a closed channel is an error. The channel is not nil behind `ensureConnection`.
abbrev pub send_on : ℕ → Attempt → Option Channel → Publisher → Tried × Publisher
send_on m a none p = close_on_timeout a.late refused p
send_on m a (some c) p = send_if (c.is_open && a.accepted) m a c p

abbrev pub after_drain : ℕ → Attempt → Waited × Publisher → Tried × Publisher
after_drain m a (timed_out, p) = close_on_timeout true refused p
after_drain m a (broken, p) = close_on_timeout a.late refused p
after_drain m a (confirmation ack, p) = send_on m a p.channel p

abbrev pub drain_if : Bool → ℕ → Attempt → Publisher → Tried × Publisher
drain_if true m a p = after_drain m a (await_confirmation a.drain p)
drain_if false m a p = send_on m a p.channel p

abbrev pub on_connection : ℕ → Attempt → Bool × Publisher → Tried × Publisher
on_connection m a (false, p) = (refused, p)
on_connection m a (true, p) = drain_if p.has_outstanding m a p

-- `tryPublish`.
unfoldable pub try_publish : ℕ → Attempt → Publisher → Tried × Publisher
unfolding ensure_connection await_confirmation close_on_timeout
try_publish m a p = on_connection m a (ensure_connection a.dial p)

-- How `Publish` ends: with nil, with the error of its context, or not yet.
pub data Published : Type 0 where
  acknowledged : Published
  context_error : Published
  retrying : Published

abbrev pub after_try :
    (Publisher → Published × Publisher) → Bool → Tried × Publisher → Published × Publisher
after_try rest cancelled (delivered, p) = (acknowledged, p)
after_try rest true (refused, p) = (context_error, p)
after_try rest false (refused, p) = rest p

-- `Publish`: all errors but those of the context are retried.
unfoldable pub publish : ℕ → List Attempt → Publisher → Published × Publisher
unfolding try_publish
publish m [] p = (retrying, p)
publish m (a ∷ attempts) p = after_try (publish m attempts) a.cancelled (try_publish m a p)
