-- ===== src/Sse/Subscribe/Account.antt =====
-- What one connection to `subscribe` of pkg/sse/v2alpha/sse.go has sent, against the log that its
-- stream delivers.
use etos_api.Prelude.{
  ℕ, ◌+◌, ◌<◌, Bool, true, false, Option, none, some, List, [], ◌∷◌, ◌≡◌, refl, arith, ltb_ℤ, Text,
  ℤ, pos, inc64, max_int64, if◌then◌else◌,
}
use etos_api.Stream.{Message}
use etos_api.Events.{Event, JsonCodec, is_zero}
use etos_api.Sse.Log.{InOrder, below, below_of_InOrder}
use etos_api.Sse.Subscribe.Induction.{Follows, Rules, subscribe_induction}
use etos_api.Sse.Subscribe.{Sent, forwarded, ping, failure, Choice, accept, Setup, subscribe}

-- The id that a client keeps: that of the last event with an id.
abbrev pub id_of : Sent → ℤ
id_of (forwarded e) = e.id
id_of (ping id) = id
id_of (failure retry reason) = pos 0

unfoldable pub last_seen : ℤ → List Sent → ℤ
last_seen seen [] = seen
last_seen seen (s ∷ sent) = last_seen (if is_zero (id_of s) then seen else id_of s) sent

-- The events that come from messages.
unfoldable pub forwarded_of : List Sent → List Event
forwarded_of [] = []
forwarded_of (forwarded e ∷ sent) = e ∷ forwarded_of sent
forwarded_of (ping id ∷ sent) = forwarded_of sent
forwarded_of (failure retry reason ∷ sent) = forwarded_of sent

module _ (codec : JsonCodec) (validate : Text → Bool) where
  abbrev pub onto : Option Event → List Event → List Event
  onto none events = events
  onto (some e) events = e ∷ events

  -- The messages that are not dropped, as events.
  unfoldable pub accepted : List Message → List Event
  accepted [] = []
  accepted (m ∷ ms) = onto (accept codec validate m) (accepted ms)

  -- What one connection has sent accounts for every message below the last id that the client has
  -- seen, and the id does not fall.
  pub record Accounts (log : List Message) (last_id : ℤ) (sent : List Sent) : Type 0 where
    pub grows : ltb_ℤ (last_seen last_id sent) last_id ≡ false
    pub complete : forwarded_of sent ≡ accepted (below (last_seen last_id sent) log)

  pub accept-id :
      (m : Message) (e : Event) → accept codec validate m ≡ some e → e.id ≡ inc64 m.offset
  unfolding accept
  accept-id m e h = ground arith

  Accounts-quiet :
      (log : List Message) (n : ℕ) (sent : List Sent)
      → InOrder (pos n) log
      → last_seen (pos n) sent ≡ pos n
      → forwarded_of sent ≡ []
      → Accounts log (pos n) sent
  unfolding accepted
  Accounts-quiet log n sent o seen none_forwarded = record {
    grows = ground (arith, seen);
    complete = ground (arith, seen, none_forwarded, below_of_InOrder (pos n) (pos n) log);
  }

  Accounts-silent : (log : List Message) (n : ℕ) → InOrder (pos n) log → Accounts log (pos n) []
  unfolding last_seen forwarded_of
  Accounts-silent log n o = Accounts-quiet log n [] o refl refl

  Accounts-failed :
      (log : List Message) (n : ℕ) (retry : Bool) (reason : Text)
      → InOrder (pos n) log
      → Accounts log (pos n) (failure retry reason ∷ [])
  unfolding last_seen forwarded_of
  Accounts-failed log n retry reason o = Accounts-quiet log n _ o refl refl

  Accounts-dropped :
      (m : Message) (log : List Message) (n : ℕ) (sent : List Sent)
      → accept codec validate m ≡ none
      → Accounts log (pos n) sent
      → Accounts (m ∷ log) (pos n) sent
  unfolding accepted below
  Accounts-dropped m log n sent h a = record {
    grows = a.grows;
    complete = ground (arith, h, a.complete);
  }

  Accounts-forwarded :
      (m : Message) (log : List Message) (n k : ℕ) (e : Event) (sent : List Sent)
      → accept codec validate m ≡ some e
      → m.offset ≡ pos k
      → k < max_int64
      → ltb_ℤ (pos k) (pos n) ≡ false
      → Accounts log (pos (k + 1)) sent
      → Accounts (m ∷ log) (pos n) (forwarded e ∷ sent)
  unfolding accepted below last_seen forwarded_of inc64
  Accounts-forwarded m log n k e sent h at fits ge a = record {
    grows = ground (arith, a.grows, accept-id m e h);
    complete = ground (arith, h, a.complete, a.grows, accept-id m e h);
  }

  Accounts-ping :
      (log : List Message) (n k : ℕ) (sent : List Sent)
      → ltb_ℤ (pos n) (pos k) ≡ true
      → Accounts log (pos k) sent
      → Accounts log (pos n) (ping (pos k) ∷ sent)
  unfolding last_seen forwarded_of
  Accounts-ping log n k sent h a = record {
    grows = ground (arith, a.grows);
    complete = ground (arith, a.complete);
  }

  Accounts-ping_zero :
      (log : List Message) (n : ℕ) (sent : List Sent)
      → Accounts log (pos n) sent
      → Accounts log (pos n) (ping (pos 0) ∷ sent)
  unfolding last_seen forwarded_of
  Accounts-ping_zero log n sent a = record { grows = a.grows; complete = a.complete }

  Accounts-rules : Rules codec validate (λ log n sent. Accounts log (pos n) sent)
  Accounts-rules = record {
    silent = Accounts-silent;
    failed = Accounts-failed;
    dropped = Accounts-dropped;
    forwarded_on = Accounts-forwarded;
    pinged = Accounts-ping;
    pinged_zero = Accounts-ping_zero;
  }

  pub subscribe-Accounts :
      (setup : Setup) (choices : List Choice) (log : List Message) (n : ℕ)
      → InOrder (pos n) log
      → Follows choices log
      → Accounts log (pos n) (subscribe codec validate setup choices (pos n))
  subscribe-Accounts =
      subscribe_induction codec validate (λ log n sent. Accounts log (pos n) sent) Accounts-rules
