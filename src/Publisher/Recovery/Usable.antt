-- ===== src/Publisher/Recovery/Usable.antt =====
-- A publisher is left usable, for the next attempt, by every attempt in which the channel is not closed
-- alone.
use etos_api.Prelude.{
  ℕ, ◌≡◌, refl, sym, ap, ◌∙◌, ◌⊎◌, inl, inr, Bool, true, false, Option, none, some, List, [], ◌∷◌,
  ◌++◌, ◌&&◌,
}
use mathlib.Core.Path.{subst}
use etos_api.Publisher.{
  Channel, Publisher, Dial, bad_url, dial_fails, channel_fails, confirm_fails, connected, Wait,
  connection_closed, channel_closed, confirmed, expired, Waited, broken, timed_out, confirmation,
  Attempt, Tried, refused, close, close_by, reopen, ensure_connection, await_confirmation,
  close_on_timeout, try_publish, ensure_by, receive, receive_from, conclude, with_message, send_if,
  send_on, after_drain, tried_by, drain_if, on_connection,
}

-- Not a closed channel on an open connection.
abbrev pub Sound : Option Bool → Option Channel → Type 0
Sound (some true) (some c) = c.is_open ≡ true
Sound (some true) none = Unit
Sound (some false) channel = Unit
Sound none channel = Unit

abbrev pub IsUsable : Publisher → Type 0
IsUsable p = Sound p.conn p.channel

-- The channel is not closed alone.
abbrev pub IsKept : Wait → Type 0
IsKept channel_closed = ⊥
IsKept connection_closed = Unit
IsKept (confirmed ack) = Unit
IsKept expired = Unit

abbrev pub AllKept : List Attempt → Type 0
AllKept [] = Unit
AllKept (a ∷ attempts) = (IsKept a.drain × IsKept a.confirm) × AllKept attempts

-- A publisher that is connected, with an open channel.
pub record IsReady (p : Publisher) : Type 0 where
  pub conn : p.conn ≡ some true
  pub pending : List ℕ
  pub channel : p.channel ≡ some (record { is_open = true; pending = pending })

Ready-IsUsable : (p : Publisher) → IsReady p → IsUsable p
Ready-IsUsable p h =
    subst (λ c. Sound c p.channel) (sym h.conn) (subst (Sound (some true)) (sym h.channel) refl)

shut-IsUsable : (conn : Option Bool) (p : Publisher) → IsUsable (close_by conn p) ⊎ (conn ≡ none)
shut-IsUsable none p = inr refl
shut-IsUsable (some b) p = inl tt

close-IsUsable : (p : Publisher) → IsUsable (close p)
unfolding close
close-IsUsable p = elim (shut-IsUsable p.conn p) [
  | inl h ↦ h
  | inr e ↦
      subst (λ (c : Option Bool). IsUsable (close_by c p)) (sym e)
        (subst (λ (c : Option Bool). Sound c p.channel) (sym e) tt)
]

close_on_timeout-IsUsable :
    (late : Bool) (t : Tried) (p : Publisher) → IsUsable p → IsUsable (close_on_timeout late t p).1
unfolding close_on_timeout
close_on_timeout-IsUsable true t p h = close-IsUsable p
close_on_timeout-IsUsable false t p h = h

expired-IsUsable : (p : Publisher) → IsUsable (close_on_timeout true refused p).1
unfolding close_on_timeout
expired-IsUsable p = close-IsUsable p

-- `ensureConnection` fails and leaves a publisher that it reconnects, or succeeds and leaves one that
-- is connected.
abbrev pub Ensured : Bool × Publisher → Type 0
Ensured (false, p) = IsUsable p
Ensured (true, p) = IsReady p

reopen-Ensured : (dial : Dial) (p : Publisher) → IsUsable p → Ensured (reopen dial p)
reopen-Ensured bad_url p h = h
reopen-Ensured (dial_fails true) p h = tt
reopen-Ensured (dial_fails false) p h = tt
reopen-Ensured channel_fails p h = tt
reopen-Ensured confirm_fails p h = tt
reopen-Ensured connected p h = record { conn = refl; pending = []; channel = refl }

ensure_by-Ensured :
    (conn : Option Bool) (channel : Option Channel) (dial : Dial) (p : Publisher)
    → p.conn ≡ conn
    → p.channel ≡ channel
    → Sound conn channel
    → Ensured (ensure_by conn channel dial p)
ensure_by-Ensured (some true) (some c) dial p e f h = record {
  conn = e;
  pending = c.pending;
  channel = f ∙ ap (λ (b : Bool). some (record { is_open = b; pending = c.pending })) h;
}
ensure_by-Ensured (some true) none dial p e f h = reopen-Ensured dial (close p) (close-IsUsable p)
ensure_by-Ensured (some false) channel dial p e f h =
    reopen-Ensured dial (close p) (close-IsUsable p)
ensure_by-Ensured none channel dial p e f h = reopen-Ensured dial (close p) (close-IsUsable p)

pub ensure-Ensured : (dial : Dial) (p : Publisher) → IsUsable p → Ensured (ensure_connection dial p)
unfolding ensure_connection
ensure-Ensured dial p h = ensure_by-Ensured p.conn p.channel dial p refl refl h

-- A wait of a connected publisher.
abbrev Kept : Waited × Publisher → Type 0
Kept (broken, p) = IsUsable p
Kept (timed_out, p) = Unit
Kept (confirmation ack, p) = IsReady p

receive-Kept :
    (ack : Bool) (pending : List ℕ) (p : Publisher)
    → p.conn ≡ some true
    → p.channel ≡ some (record { is_open = true; pending = pending })
    → Kept (receive ack true pending p)
receive-Kept ack (m ∷ rest) p e f = record { conn = e; pending = rest; channel = refl }
receive-Kept ack [] p e f = tt

await-Kept : (w : Wait) (p : Publisher) → IsKept w → IsReady p → Kept (await_confirmation w p)
unfolding await_confirmation
await-Kept connection_closed p k h = tt
await-Kept channel_closed p k h = elim k [ ]
await-Kept expired p k h = tt
await-Kept (confirmed ack) p k h =
    subst (λ c. Kept (receive_from ack c p)) (sym h.channel)
      (receive-Kept ack h.pending p h.conn h.channel)

conclude-IsUsable :
    (late : Bool) (w : Waited) (p : Publisher) → Kept (w, p) → IsUsable (conclude late (w, p)).1
conclude-IsUsable late timed_out p h = expired-IsUsable p
conclude-IsUsable late broken p h = close_on_timeout-IsUsable late refused p h
conclude-IsUsable late (confirmation ack) p h =
    close_on_timeout-IsUsable late (tried_by ack) p (Ready-IsUsable p h)

send_if-IsUsable :
    (b : Bool) (m : ℕ) (a : Attempt) (c : Channel) (p : Publisher)
    → IsKept a.confirm
    → IsReady p
    → c.is_open ≡ true
    → IsUsable (send_if b m a c p).1
send_if-IsUsable false m a c p k h e =
    close_on_timeout-IsUsable a.late refused p (Ready-IsUsable p h)
send_if-IsUsable true m a c p k h e =
    let q : Publisher = with_message m c p in
    let r = await_confirmation a.confirm q in
    conclude-IsUsable a.late r.0 r.1 (
      await-Kept a.confirm q k (record {
        conn = h.conn;
        pending = c.pending ++ m ∷ [];
        channel = ap (λ (b : Bool). some (record { is_open = b; pending = c.pending ++ m ∷ [] })) e;
      }))

send_on-IsUsable :
    (m : ℕ) (a : Attempt) (p : Publisher)
    → IsKept a.confirm
    → IsReady p
    → IsUsable (send_on m a p.channel p).1
send_on-IsUsable m a p k h =
    subst (λ c. IsUsable (send_on m a c p).1) (sym h.channel)
      (send_if-IsUsable (true && a.accepted) m a (record { is_open = true; pending = h.pending }) p
        k h refl)

after_drain-IsUsable :
    (m : ℕ) (a : Attempt) (w : Waited) (p : Publisher)
    → IsKept a.confirm
    → Kept (w, p)
    → IsUsable (after_drain m a (w, p)).1
after_drain-IsUsable m a timed_out p k h = expired-IsUsable p
after_drain-IsUsable m a broken p k h = close_on_timeout-IsUsable a.late refused p h
after_drain-IsUsable m a (confirmation ack) p k h = send_on-IsUsable m a p k h

drain_if-IsUsable :
    (b : Bool) (m : ℕ) (a : Attempt) (p : Publisher)
    → IsKept a.drain × IsKept a.confirm
    → IsReady p
    → IsUsable (drain_if b m a p).1
drain_if-IsUsable true m a p (d, k) h =
    let r = await_confirmation a.drain p in
    after_drain-IsUsable m a r.0 r.1 k (await-Kept a.drain p d h)
drain_if-IsUsable false m a p (d, k) h = send_on-IsUsable m a p k h

on_connection-IsUsable :
    (m : ℕ) (a : Attempt) (b : Bool) (p : Publisher)
    → IsKept a.drain × IsKept a.confirm
    → Ensured (b, p)
    → IsUsable (on_connection m a (b, p)).1
on_connection-IsUsable m a false p k h = h
on_connection-IsUsable m a true p k h = drain_if-IsUsable p.has_outstanding m a p k h

-- An attempt in which the channel is not closed alone leaves a publisher that can be used.
pub try_publish-IsUsable :
    (m : ℕ) (a : Attempt) (p : Publisher)
    → IsKept a.drain × IsKept a.confirm
    → IsUsable p
    → IsUsable (try_publish m a p).1
unfolding try_publish
try_publish-IsUsable m a p k h =
    let r = ensure_connection a.dial p in
    on_connection-IsUsable m a r.0 r.1 k (ensure-Ensured a.dial p h)
