-- ===== src/Publisher/Recovery.antt =====
-- When the retries of `Publish` end: not behind a channel that is closed alone, and otherwise with
-- the first attempt in which the broker answers.
pub mod Usable
pub mod Ends
use etos_api.Prelude.{
  ℕ, ◌≡◌, refl, sym, ap, ◌∙◌, Bool, true, false, Option, none, some, List, [], ◌∷◌, ◌&&◌,
}
use mathlib.Core.Path.{subst}
use etos_api.Publisher.{
  Channel, Publisher, Dial, Wait, connection_closed, channel_closed, confirmed, expired, Waited,
  broken, timed_out, confirmation, Attempt, Tried, delivered, refused, Published, retrying,
  ensure_connection, await_confirmation, close_on_timeout, try_publish, publish, ensure_by, receive,
  receive_from, shut_all, send_on, after_drain, drain_if, on_connection, after_try,
}

-- The broker has closed the channel, and the connection is open.
pub record IsHalfOpen (p : Publisher) : Type 0 where
  pub conn : p.conn ≡ some true
  pub pending : List ℕ
  pub channel : p.channel ≡ some (record { is_open = false; pending = pending })

-- No context expires, and the connection is not closed.
abbrev pub IsCalm : Wait → Type 0
IsCalm connection_closed = ⊥
IsCalm channel_closed = Unit
IsCalm (confirmed ack) = Unit
IsCalm expired = ⊥

pub record IsQuiet (a : Attempt) : Type 0 where
  pub drain : IsCalm a.drain
  pub in_time : a.late ≡ false
  pub wanted : a.cancelled ≡ false

abbrev pub AllQuiet : List Attempt → Type 0
AllQuiet [] = Unit
AllQuiet (a ∷ attempts) = IsQuiet a × AllQuiet attempts

abbrev Fails : Tried × Publisher → Type 0
Fails (t, p) = (t ≡ refused) × IsHalfOpen p

abbrev Stays : Waited × Publisher → Type 0
Stays (timed_out, p) = ⊥
Stays (broken, p) = IsHalfOpen p
Stays (confirmation ack, p) = IsHalfOpen p

in_time-Fails :
    (late : Bool) (p : Publisher)
    → late ≡ false
    → IsHalfOpen p
    → Fails (close_on_timeout late refused p)
unfolding close_on_timeout
in_time-Fails true p e h = absurd (cc (e))
in_time-Fails false p e h = (refl, h)

receive-Stays :
    (ack : Bool) (pending : List ℕ) (p : Publisher)
    → IsHalfOpen p
    → p.channel ≡ some (record { is_open = false; pending = pending })
    → Stays (receive ack false pending p)
receive-Stays ack (m ∷ rest) p h e = record { conn = h.conn; pending = rest; channel = refl }
receive-Stays ack [] p h e = record { conn = h.conn; pending = []; channel = e }

await-Stays : (w : Wait) (p : Publisher) → IsCalm w → IsHalfOpen p → Stays (await_confirmation w p)
unfolding await_confirmation
await-Stays connection_closed p calm h = elim calm [ ]
await-Stays expired p calm h = elim calm [ ]
await-Stays channel_closed p calm h = record {
  conn = h.conn;
  pending = h.pending;
  channel = ap shut_all h.channel;
}
await-Stays (confirmed ack) p calm h =
    subst (λ c. Stays (receive_from ack c p)) (sym h.channel)
      (receive-Stays ack h.pending p h h.channel)

send_on-Fails :
    (m : ℕ) (a : Attempt) (p : Publisher)
    → IsQuiet a
    → IsHalfOpen p
    → Fails (send_on m a p.channel p)
send_on-Fails m a p quiet h =
    subst (λ c. Fails (send_on m a c p)) (sym h.channel) (in_time-Fails a.late p quiet.in_time h)

after_drain-Fails :
    (m : ℕ) (a : Attempt) (w : Waited) (p : Publisher)
    → IsQuiet a
    → Stays (w, p)
    → Fails (after_drain m a (w, p))
after_drain-Fails m a timed_out p quiet h = elim h [ ]
after_drain-Fails m a broken p quiet h = in_time-Fails a.late p quiet.in_time h
after_drain-Fails m a (confirmation ack) p quiet h = send_on-Fails m a p quiet h

drain_if-Fails :
    (b : Bool) (m : ℕ) (a : Attempt) (p : Publisher)
    → IsQuiet a
    → IsHalfOpen p
    → Fails (drain_if b m a p)
drain_if-Fails true m a p quiet h =
    let r = await_confirmation a.drain p in
    after_drain-Fails m a r.0 r.1 quiet (await-Stays a.drain p quiet.drain h)
drain_if-Fails false m a p quiet h = send_on-Fails m a p quiet h

ensure-Stays : (dial : Dial) (p : Publisher) → IsHalfOpen p → ensure_connection dial p ≡ (true, p)
unfolding ensure_connection
ensure-Stays dial p h =
    ap (λ (c : Option Bool). ensure_by c p.channel dial p) h.conn
    ∙ ap (λ (c : Option Channel). ensure_by (some true) c dial p) h.channel

try_publish-Fails :
    (m : ℕ) (a : Attempt) (p : Publisher) → IsQuiet a → IsHalfOpen p → Fails (try_publish m a p)
unfolding try_publish
try_publish-Fails m a p quiet h =
    subst (λ r. Fails (on_connection m a r)) (sym (ensure-Stays a.dial p h))
      (drain_if-Fails p.has_outstanding m a p quiet h)

after_try-retrying :
    (rest : Publisher → Published × Publisher) (cancelled : Bool) (t : Tried) (p : Publisher)
    → cancelled ≡ false
    → Fails (t, p)
    → ((q : Publisher) → IsHalfOpen q → (rest q).0 ≡ retrying)
    → (after_try rest cancelled (t, p)).0 ≡ retrying
after_try-retrying rest true t p e h k = absurd (cc (e))
after_try-retrying rest false delivered p e (f, h) k = absurd (cc (f))
after_try-retrying rest false refused p e (f, h) k = k p h

-- Once the broker has closed the channel and not the connection, `Publish` is never acknowledged: every
-- attempt keeps the closed channel, as long as no context expires and the connection is not closed.
pub publish_half_open :
    (m : ℕ) (attempts : List Attempt) (p : Publisher)
    → IsHalfOpen p
    → AllQuiet attempts
    → (publish m attempts p).0 ≡ retrying
unfolding publish
publish_half_open m [] p h quiet = refl
publish_half_open m (a ∷ attempts) p h (quiet, rest) =
    let r = try_publish m a p in
    after_try-retrying (publish m attempts) a.cancelled r.0 r.1 quiet.wanted
      (try_publish-Fails m a p quiet h) (λ q k. publish_half_open m attempts q k rest)
