-- ===== src/Sse/Subscribe/Ids.antt =====
-- The ids of the events that one connection to `subscribe` of pkg/sse/v2alpha/sse.go sends.
use etos_api.Prelude.{
  ℕ, ◌+◌, ◌<◌, Bool, true, false, some, List, [], ◌∷◌, ◌≡◌, ◌∙◌, arith, ltb_ℤ, Text, ℤ, pos,
  max_int64, if◌then◌else◌,
}
use etos_api.Stream.{Message}
use etos_api.Events.{Event, JsonCodec, is_zero}
use etos_api.Sse.Log.{InOrder}
use etos_api.Sse.Subscribe.{Sent, forwarded, ping, Choice, accept, Setup, subscribe}
use etos_api.Sse.Subscribe.Account.{id_of, accept-id}
use etos_api.Sse.Subscribe.Induction.{Follows, inc64-offset, subscribe_induction}

-- Every event from a message has an id, and each id that is sent is above the ids before it.
abbrev pub IsNumbered : Sent → Type 0
IsNumbered (forwarded e) = is_zero e.id ≡ false
IsNumbered _ = Unit

abbrev pub Rises : ℤ → List Sent → Type 0
Rises last [] = Unit
Rises last (s ∷ sent) =
    IsNumbered s
    × (is_zero (id_of s) ≡ false → ltb_ℤ last (id_of s) ≡ true)
    × Rises (if is_zero (id_of s) then last else id_of s) sent

id-forwarded :
    (codec : JsonCodec) (validate : Text → Bool) (m : Message) (k : ℕ) (e : Event)
    → accept codec validate m ≡ some e
    → m.offset ≡ pos k
    → k < max_int64
    → e.id ≡ pos (k + 1)
id-forwarded codec validate m k e h at fits =
    accept-id codec validate m e h ∙ inc64-offset m k at fits

Rises-forwarded :
    (n k : ℕ) (e : Event) (sent : List Sent)
    → e.id ≡ pos (k + 1)
    → ltb_ℤ (pos k) (pos n) ≡ false
    → Rises (pos (k + 1)) sent
    → Rises (pos n) (forwarded e ∷ sent)
Rises-forwarded n k e sent id ge r =
    let given : is_zero e.id ≡ false = ground arith in (given, λ _. ground arith, rw (given, id) r)

Rises-ping :
    (n k : ℕ) (sent : List Sent)
    → ltb_ℤ (pos n) (pos k) ≡ true
    → Rises (pos k) sent
    → Rises (pos n) (ping (pos k) ∷ sent)
Rises-ping n k sent more r =
    let given : is_zero (pos k) ≡ false = ground arith in (tt, λ _. more, rw given r)

-- On one connection each id that is sent is larger than the last id with which it was opened and
-- than every id that was sent before it, and every event from a message has an id. The choices
-- follow a stream that delivers a log of increasing offsets from the last id on.
pub subscribe-Rises :
    (codec : JsonCodec) (validate : Text → Bool) (setup : Setup) (choices : List Choice)
    (log : List Message) (n : ℕ)
    → InOrder (pos n) log
    → Follows choices log
    → Rises (pos n) (subscribe codec validate setup choices (pos n))
subscribe-Rises codec validate =
    subscribe_induction codec validate (λ log n sent. Rises (pos n) sent)
      (record {
        silent = λ log n o. tt;
        failed = λ log n retry reason o. (tt, λ z. cc, tt);
        dropped = λ m log n sent h r. r;
        forwarded_on = λ m log n k e sent h at fits ge r.
            Rises-forwarded n k e sent (id-forwarded codec validate m k e h at fits) ge r;
        pinged = λ log n k sent more r. Rises-ping n k sent more r;
        pinged_zero = λ log n sent r. (tt, λ z. cc, r);
      })
