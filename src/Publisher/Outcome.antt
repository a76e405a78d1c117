-- ===== src/Publisher/Outcome.antt =====
-- What one attempt and the retries of `Publish` leave behind.
use etos_api.Prelude.{ℕ, ◌≡◌, refl, Bool, true, false, Option, none, some, List, [], ◌∷◌}
use etos_api.Publisher.{
  Channel, Publisher, Wait, connection_closed, channel_closed, confirmed, expired, Waited, broken,
  timed_out, confirmation, Attempt, Tried, delivered, refused, Published, acknowledged,
  context_error, retrying, ensure_connection, await_confirmation, try_publish, publish, receive,
  receive_from, after_drain, drain_if, on_connection, after_try,
}
use etos_api.Publisher.Serial.{
  IsSerial, Latest, Post, ensure_connection-IsSerial, await-IsSerial, close_on_timeout-Post,
  send_on-Post,
}

-- Nothing is outstanding behind a confirmation.
Free : Waited → Publisher → Type 0
Free broken p = Unit
Free timed_out p = Unit
Free (confirmation ack) p = p.has_outstanding ≡ false

receive_from-Free :
    (ack : Bool) (channel : Option Channel) (p : Publisher)
    → Free (receive_from ack channel p).0 (receive_from ack channel p).1
unfolding Free
receive_from-Free ack none p = tt
receive_from-Free ack (some c) p = of_pending c.is_open c.pending
  where
    of_pending :
        (is_open : Bool) (pending : List ℕ)
        → Free (receive ack is_open pending p).0 (receive ack is_open pending p).1
    of_pending b (m ∷ rest) = refl
    of_pending true [] = tt
    of_pending false [] = refl

await-Free : (w : Wait) (p : Publisher) → Free (await_confirmation w p).0 (await_confirmation w p).1
unfolding await_confirmation Free
await-Free connection_closed p = tt
await-Free channel_closed p = tt
await-Free expired p = tt
await-Free (confirmed ack) p = receive_from-Free ack p.channel p

after_drain-Post :
    (m : ℕ) (a : Attempt) (w : Waited) (p : Publisher)
    → IsSerial p
    → Free w p
    → Post m (after_drain m a (w, p))
unfolding Free
after_drain-Post m a timed_out p h k = close_on_timeout-Post m true refused p h tt
after_drain-Post m a broken p h k = close_on_timeout-Post m a.late refused p h tt
after_drain-Post m a (confirmation ack) p h k = send_on-Post m a p.channel p h refl k

drain_if-Post :
    (b : Bool) (m : ℕ) (a : Attempt) (p : Publisher)
    → IsSerial p
    → p.has_outstanding ≡ b
    → Post m (drain_if b m a p)
drain_if-Post true m a p h e =
    let r = await_confirmation a.drain p in
    after_drain-Post m a r.0 r.1 (await-IsSerial a.drain p h) (await-Free a.drain p)
drain_if-Post false m a p h e = send_on-Post m a p.channel p h refl e

on_connection-Post :
    (m : ℕ) (a : Attempt) (b : Bool) (p : Publisher)
    → IsSerial p
    → Post m (on_connection m a (b, p))
on_connection-Post m a false p h = (h, tt)
on_connection-Post m a true p h = drain_if-Post p.has_outstanding m a p h refl

pub try_publish-Post :
    (m : ℕ) (a : Attempt) (p : Publisher) → IsSerial p → Post m (try_publish m a p)
unfolding try_publish
try_publish-Post m a p h =
    let r = ensure_connection a.dial p in
    on_connection-Post m a r.0 r.1 (ensure_connection-IsSerial a.dial p h)

-- What `Publish` leaves behind, by how it ends.
abbrev pub Settled : ℕ → Published × Publisher → Type 0
Settled m (acknowledged, p) = IsSerial p × Latest m p
Settled m (context_error, p) = IsSerial p
Settled m (retrying, p) = IsSerial p

after_try-Settled :
    (m : ℕ) (rest : Publisher → Published × Publisher) (cancelled : Bool) (t : Tried)
    (p : Publisher)
    → Post m (t, p)
    → ((q : Publisher) → IsSerial q → Settled m (rest q))
    → Settled m (after_try rest cancelled (t, p))
after_try-Settled m rest cancelled delivered p h k = h
after_try-Settled m rest true refused p h k = h.0
after_try-Settled m rest false refused p h k = k p h.0

-- The publisher never has more than one message in flight, and none unless one is marked as
-- outstanding: this is kept by every `Publish`, whatever the broker does. A `Publish` that returns nil
-- has received the positive confirmation of its own message, as the latest one.
pub publish-Settled :
    (m : ℕ) (attempts : List Attempt) (p : Publisher)
    → IsSerial p
    → Settled m (publish m attempts p)
unfolding publish
publish-Settled m [] p h = h
publish-Settled m (a ∷ attempts) p h =
    let r = try_publish m a p in
    after_try-Settled m (publish m attempts) a.cancelled r.0 r.1 (try_publish-Post m a p h)
      (λ q k. publish-Settled m attempts q k)
