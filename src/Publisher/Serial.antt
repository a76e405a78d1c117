-- ===== src/Publisher/Serial.antt =====
-- At most one message of the publisher is in flight, and a `Publish` that returns nil has seen the
-- confirmation of its own message.
use etos_api.Prelude.{
  ℕ, ◌≤◌, ◌≡◌, refl, sym, ap, ◌∙◌, Bool, true, false, Option, none, some, List, [], ◌∷◌, ◌++◌,
  arith, length, ◌&&◌,
}
use mathlib.Core.Path.{subst}
use etos_api.Publisher.{
  Channel, Publisher, Dial, bad_url, dial_fails, channel_fails, confirm_fails, connected, Wait,
  connection_closed, channel_closed, confirmed, expired, Waited, broken, timed_out, confirmation,
  Attempt, Tried, delivered, refused, close, ensure_connection, await_confirmation,
  close_on_timeout, close_by, shut_all, reopen, ensure_by, receive, conclude, with_message, send_if,
  send_on, receive_from,
}

-- What is pending on the channel, for a publisher that has a message outstanding or not.
abbrev pub Held : Option Channel → Bool → Type 0
Held none has_outstanding = Unit
Held (some c) false = c.pending ≡ []
Held (some c) true = (length c.pending ≤ 1) × (c.is_open ≡ true → length c.pending ≡ 1)

abbrev pub IsSerial : Publisher → Type 0
IsSerial p = Held p.channel p.has_outstanding

Held-shut : (channel : Option Channel) (b : Bool) → Held channel b → Held (shut_all channel) b
Held-shut none b h = tt
Held-shut (some c) false h = h
Held-shut (some c) true (h, k) = (h, λ e. cc (e))

close_by-IsSerial : (conn : Option Bool) (p : Publisher) → IsSerial p → IsSerial (close_by conn p)
close_by-IsSerial none p h = h
close_by-IsSerial (some b) p h = Held-shut p.channel p.has_outstanding h

close-IsSerial : (p : Publisher) → IsSerial p → IsSerial (close p)
unfolding close
close-IsSerial p h = close_by-IsSerial p.conn p h

close_on_timeout-IsSerial :
    (late : Bool) (t : Tried) (p : Publisher) → IsSerial p → IsSerial (close_on_timeout late t p).1
unfolding close_on_timeout
close_on_timeout-IsSerial true t p h = close-IsSerial p h
close_on_timeout-IsSerial false t p h = h

none_pending-Held : (b : Bool) → Held (some (record { is_open = false; pending = [] })) b
none_pending-Held true = (omega arith, λ e. cc (e))
none_pending-Held false = refl

reopen-IsSerial : (dial : Dial) (p : Publisher) → IsSerial p → IsSerial (reopen dial p).1
reopen-IsSerial bad_url p h = h
reopen-IsSerial (dial_fails true) p h = h
reopen-IsSerial (dial_fails false) p h = h
reopen-IsSerial channel_fails p h = tt
reopen-IsSerial confirm_fails p h = none_pending-Held p.has_outstanding
reopen-IsSerial connected p h = refl

ensure_by-IsSerial :
    (conn : Option Bool) (channel : Option Channel) (dial : Dial) (p : Publisher)
    → IsSerial p
    → IsSerial (ensure_by conn channel dial p).1
ensure_by-IsSerial (some true) (some c) dial p h = h
ensure_by-IsSerial (some true) none dial p h = reopen-IsSerial dial (close p) (close-IsSerial p h)
ensure_by-IsSerial (some false) channel dial p h =
    reopen-IsSerial dial (close p) (close-IsSerial p h)
ensure_by-IsSerial none channel dial p h = reopen-IsSerial dial (close p) (close-IsSerial p h)

pub ensure_connection-IsSerial :
    (dial : Dial) (p : Publisher) → IsSerial p → IsSerial (ensure_connection dial p).1
unfolding ensure_connection
ensure_connection-IsSerial dial p h = ensure_by-IsSerial p.conn p.channel dial p h

receive-IsSerial :
    (ack is_open b : Bool) (pending : List ℕ) (p : Publisher)
    → Held (some (record { is_open = is_open; pending = pending })) b
    → IsSerial p
    → p.channel ≡ some (record { is_open = is_open; pending = pending })
    → IsSerial (receive ack is_open pending p).1
receive-IsSerial ack is_open true (m ∷ []) p h k e = refl
receive-IsSerial ack is_open true (m ∷ n ∷ rest) p (h, g) k e = absurd (omega arith)
receive-IsSerial ack is_open false (m ∷ rest) p h k e = absurd (cc (h))
receive-IsSerial ack true b [] p h k e = k
receive-IsSerial ack false b [] p h k e = subst (λ c. Held c false) (sym e) refl

receive_from-IsSerial :
    (ack : Bool) (channel : Option Channel) (p : Publisher)
    → IsSerial p
    → p.channel ≡ channel
    → IsSerial (receive_from ack channel p).1
receive_from-IsSerial ack none p h e = h
receive_from-IsSerial ack (some c) p h e =
    receive-IsSerial ack c.is_open p.has_outstanding c.pending p
      (subst (λ d. Held d p.has_outstanding) e h) h e

pub await-IsSerial : (w : Wait) (p : Publisher) → IsSerial p → IsSerial (await_confirmation w p).1
unfolding await_confirmation
await-IsSerial connection_closed p h = Held-shut p.channel p.has_outstanding h
await-IsSerial channel_closed p h = Held-shut p.channel p.has_outstanding h
await-IsSerial (confirmed ack) p h = receive_from-IsSerial ack p.channel p h refl
await-IsSerial expired p h = h

-- An attempt that ends with nil has, as the latest, the positive confirmation of its message.
abbrev pub Latest : ℕ → Publisher → Type 0
Latest m p = (earlier : List ℕ) × (p.acked ≡ m ∷ earlier)

abbrev pub Told : ℕ → Tried → Publisher → Type 0
Told m delivered p = Latest m p
Told m refused p = Unit

abbrev Heard : ℕ → Waited × Publisher → Type 0
Heard m (confirmation true, p) = Latest m p
Heard m (confirmation false, p) = Unit
Heard m (broken, p) = Unit
Heard m (timed_out, p) = Unit

abbrev pub Post : ℕ → Tried × Publisher → Type 0
Post m (t, p) = IsSerial p × Told m t p

close_by-acked : (conn : Option Bool) (p : Publisher) → (close_by conn p).acked ≡ p.acked
close_by-acked none p = refl
close_by-acked (some b) p = refl

close-Latest : (m : ℕ) (p : Publisher) → Latest m p → Latest m (close p)
unfolding close
close-Latest m p (earlier, h) = (earlier, close_by-acked p.conn p ∙ h)

pub close_on_timeout-Post :
    (m : ℕ) (late : Bool) (t : Tried) (p : Publisher)
    → IsSerial p
    → Told m t p
    → Post m (close_on_timeout late t p)
unfolding close_on_timeout
close_on_timeout-Post m true delivered p h k = (close-IsSerial p h, close-Latest m p k)
close_on_timeout-Post m true refused p h k = (close-IsSerial p h, tt)
close_on_timeout-Post m false t p h k = (h, k)

conclude-Post :
    (m : ℕ) (late : Bool) (w : Waited) (p : Publisher)
    → IsSerial p
    → Heard m (w, p)
    → Post m (conclude late (w, p))
conclude-Post m late timed_out p h k = close_on_timeout-Post m true refused p h tt
conclude-Post m late broken p h k = close_on_timeout-Post m late refused p h tt
conclude-Post m late (confirmation true) p h k = close_on_timeout-Post m late delivered p h k
conclude-Post m late (confirmation false) p h k = close_on_timeout-Post m late refused p h tt

-- With one pending message, the confirmation that is received is its own.
await-Heard :
    (m : ℕ) (w : Wait) (is_open : Bool) (p : Publisher)
    → p.channel ≡ some (record { is_open = is_open; pending = m ∷ [] })
    → Heard m (await_confirmation w p)
unfolding await_confirmation
await-Heard m connection_closed is_open p e = tt
await-Heard m channel_closed is_open p e = tt
await-Heard m expired is_open p e = tt
await-Heard m (confirmed true) is_open p e =
    subst (λ c. Heard m (receive_from true c p)) (sym e) (p.acked, refl)
await-Heard m (confirmed false) is_open p e =
    subst (λ c. Heard m (receive_from false c p)) (sym e) tt

-- A message is published on an open channel with none pending.
send_if-Post :
    (b : Bool) (m : ℕ) (a : Attempt) (c : Channel) (p : Publisher)
    → IsSerial p
    → c.pending ≡ []
    → Post m (send_if b m a c p)
send_if-Post false m a c p h e = close_on_timeout-Post m a.late refused p h tt
send_if-Post true m a c p h e =
    let one : c.pending ++ m ∷ [] ≡ m ∷ [] = ap (λ (r : List ℕ). r ++ m ∷ []) e in
    let q : Publisher = with_message m c p in
    let serial : IsSerial q =
      (omega (arith, ap length one), λ opened. omega (arith, ap length one)) in
    let r = await_confirmation a.confirm q in
    conclude-Post m a.late r.0 r.1 (await-IsSerial a.confirm q serial) (
      await-Heard m a.confirm c.is_open q
        (ap (λ (r : List ℕ). some (record { is_open = c.is_open; pending = r })) one))

pub send_on-Post :
    (m : ℕ) (a : Attempt) (channel : Option Channel) (p : Publisher)
    → IsSerial p
    → p.channel ≡ channel
    → p.has_outstanding ≡ false
    → Post m (send_on m a channel p)
send_on-Post m a none p h e free = close_on_timeout-Post m a.late refused p h tt
send_on-Post m a (some c) p h e free =
    send_if-Post (c.is_open && a.accepted) m a c p h
      (subst (λ d. Held d false) e (subst (λ b. Held p.channel b) free h))
