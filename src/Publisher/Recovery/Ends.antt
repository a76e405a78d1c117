-- ===== src/Publisher/Recovery/Ends.antt =====
-- The retries of `Publish` end with an attempt that the broker answers, if it never closes the channel
-- alone.
use etos_api.Prelude.{
  ℕ, ◌≡◌, ◌≢◌, refl, ap, ◌∙◌, ◌⊎◌, inl, inr, Bool, true, false, Option, none, some, List, [], ◌∷◌,
  arith, length,
}
use mathlib.Core.Path.{subst}
use etos_api.Publisher.{
  Channel, Publisher, Dial, connected, Wait, confirmed, Waited, confirmation, Attempt, Tried,
  delivered, refused, Published, retrying, ensure_connection, await_confirmation, close_on_timeout,
  try_publish, publish, ensure_by, receive_from, conclude, with_message, send_if, send_on,
  after_drain, drain_if, on_connection, after_try, acked_with,
}
use etos_api.Publisher.Serial.{IsSerial, Held, ensure_connection-IsSerial}
use etos_api.Publisher.Outcome.{try_publish-Post}
use etos_api.Publisher.Recovery.Usable.{
  IsUsable, AllKept, IsReady, Ensured, ensure-Ensured, try_publish-IsUsable,
}

-- The broker answers the whole attempt, with a positive confirmation of the message.
pub record IsAnswered (a : Attempt) : Type 0 where
  pub dial : a.dial ≡ connected
  pub earlier : Bool
  pub drain : a.drain ≡ confirmed earlier
  pub accepted : a.accepted ≡ true
  pub confirm : a.confirm ≡ confirmed true

abbrev pub SomeAnswered : List Attempt → Type 0
SomeAnswered [] = ⊥
SomeAnswered (a ∷ attempts) = IsAnswered a ⊎ SomeAnswered attempts

close_on_timeout-tried :
    (late : Bool) (t : Tried) (p : Publisher) → (close_on_timeout late t p).0 ≡ t
unfolding close_on_timeout
close_on_timeout-tried true t p = refl
close_on_timeout-tried false t p = refl

-- With none pending, a message that is confirmed is delivered.
send_on-delivered :
    (m : ℕ) (a : Attempt) (p : Publisher)
    → IsAnswered a
    → p.channel ≡ some (record { is_open = true; pending = [] })
    → (send_on m a p.channel p).0 ≡ delivered
unfolding await_confirmation
send_on-delivered m a p g e =
    let c : Channel = record { is_open = true; pending = [] } in
    ap (λ (d : Option Channel). (send_on m a d p).0) e
    ∙ ap (λ (b : Bool). (send_if b m a c p).0) g.accepted
    ∙ ap (λ (w : Wait). (conclude a.late (await_confirmation w (with_message m c p))).0) g.confirm
    ∙ close_on_timeout-tried a.late delivered _

-- What a connected publisher of one message has pending.
ready_pending :
    (p : Publisher) (b : Bool)
    → IsSerial p
    → p.has_outstanding ≡ b
    → (h : IsReady p) → Held (some (record { is_open = true; pending = h.pending })) b
ready_pending p b s e h =
    subst (λ c. Held c b) h.channel (subst (λ (d : Bool). Held p.channel d) e s)

one_pending : (pending : List ℕ) → length pending ≡ 1 → (n : ℕ) × (pending ≡ n ∷ [])
one_pending [] e = absurd (omega arith)
one_pending (n ∷ []) e = (n, refl)
one_pending (n ∷ k ∷ pending) e = absurd (omega arith)

free_pending :
    (p : Publisher) (h : IsReady p)
    → h.pending ≡ []
    → p.channel ≡ some (record { is_open = true; pending = [] })
free_pending p h e =
    h.channel ∙ ap (λ (r : List ℕ). some (record { is_open = true; pending = r })) e

receive_one :
    (ack : Bool) (n : ℕ) (p : Publisher)
    → p.channel ≡ some (record { is_open = true; pending = n ∷ [] })
    → await_confirmation (confirmed ack) p ≡ (
      confirmation ack,
      record p {
        channel = some (record { is_open = true; pending = [] });
        has_outstanding = false;
        acked = acked_with ack n p.acked;
      },
    )
unfolding await_confirmation
receive_one ack n p e = ap (λ (c : Option Channel). receive_from ack c p) e

drain_if-delivered :
    (b : Bool) (m : ℕ) (a : Attempt) (p : Publisher)
    → IsAnswered a
    → IsSerial p
    → p.has_outstanding ≡ b
    → IsReady p
    → (drain_if b m a p).0 ≡ delivered
drain_if-delivered false m a p g s e h =
    send_on-delivered m a p g (free_pending p h (ready_pending p false s e h))
drain_if-delivered true m a p g s e h =
    let (n, one) = one_pending h.pending ((ready_pending p true s e h).1 refl) in
    ap (λ (w : Wait). (after_drain m a (await_confirmation w p)).0) g.drain
    ∙ ap (λ (r : Waited × Publisher). (after_drain m a r).0)
        (receive_one g.earlier n p
          (h.channel ∙ ap (λ (r : List ℕ). some (record { is_open = true; pending = r })) one))
    ∙ send_on-delivered m a _ g refl

-- An answered dial always connects.
connects :
    (conn : Option Bool) (channel : Option Channel) (p : Publisher)
    → (ensure_by conn channel connected p).0 ≡ true
connects (some true) (some c) p = refl
connects (some true) none p = refl
connects (some false) channel p = refl
connects none channel p = refl

on_connection-delivered :
    (m : ℕ) (a : Attempt) (b : Bool) (p : Publisher)
    → b ≡ true
    → IsAnswered a
    → IsSerial p
    → Ensured (b, p)
    → (on_connection m a (b, p)).0 ≡ delivered
on_connection-delivered m a false p e g s h = absurd (cc (e))
on_connection-delivered m a true p e g s h = drain_if-delivered p.has_outstanding m a p g s refl h

try_publish-delivered :
    (m : ℕ) (a : Attempt) (p : Publisher)
    → IsAnswered a
    → IsSerial p
    → IsUsable p
    → (try_publish m a p).0 ≡ delivered
unfolding try_publish ensure_connection
try_publish-delivered m a p g s u =
    let r = ensure_connection a.dial p in
    on_connection-delivered m a r.0 r.1
      (ap (λ (d : Dial). (ensure_by p.conn p.channel d p).0) g.dial ∙ connects p.conn p.channel p) g
      (ensure_connection-IsSerial a.dial p s) (ensure-Ensured a.dial p u)

after_try-delivered :
    (rest : Publisher → Published × Publisher) (cancelled : Bool) (r : Tried × Publisher)
    → r.0 ≡ delivered
    → (after_try rest cancelled r).0 ≢ retrying
after_try-delivered rest cancelled (delivered, p) e = cc
after_try-delivered rest cancelled (refused, p) e = absurd (cc (e))

after_try-ends :
    (rest : Publisher → Published × Publisher) (cancelled : Bool) (t : Tried) (p : Publisher)
    → (rest p).0 ≢ retrying
    → (after_try rest cancelled (t, p)).0 ≢ retrying
after_try-ends rest cancelled delivered p h = cc
after_try-ends rest true refused p h = cc
after_try-ends rest false refused p h = h

-- `Publish` returns, with nil or with the error of its context, no later than the first attempt that
-- the broker answers, for every list of attempts in which the channel is not closed alone, from a
-- publisher whose channel was not closed alone either.
pub publish-ends :
    (m : ℕ) (attempts : List Attempt) (p : Publisher)
    → IsSerial p
    → IsUsable p
    → AllKept attempts
    → SomeAnswered attempts
    → (publish m attempts p).0 ≢ retrying
unfolding publish
publish-ends m [] p s u k g = elim g [ ]
publish-ends m (a ∷ attempts) p s u (k, ks) (inl g) =
    after_try-delivered (publish m attempts) a.cancelled (try_publish m a p)
      (try_publish-delivered m a p g s u)
publish-ends m (a ∷ attempts) p s u (k, ks) (inr g) =
    let r = try_publish m a p in
    after_try-ends (publish m attempts) a.cancelled r.0 r.1 (
      publish-ends m attempts r.1 (try_publish-Post m a p s).0 (try_publish-IsUsable m a p k u) ks
        g)
