-- ===== src/Esr/Feed/Serving.antt =====
-- What `GetEvents` of pkg/sse/v1/sse.go writes to the client, and which listener it polls.
use etos_api.Prelude.{
  ℕ, suc, ◌≤◌, ◌≡◌, refl, sym, ap, ◌∙◌, Bool, true, false, Option, none, some, List, [], ◌∷◌, ◌++◌,
  append_assoc, arith, Text, codes, length, drop, ℤ, pos, max_int64, All,
}
use etos_api.Prelude.Decimal.{decimal, parse_int-decimal, decimal-ne-nil}
use etos_api.Events.{Event, JsonCodec}
use etos_api.Esr.{url_at}
use etos_api.Esr.Feed.{
  Choice, Sent, Ended, open_still, returned, events_in, subscribe, Receive, server_stops, next,
  Served, serve, Situation, Response, streamed, last_id, answer_for, get_events,
}
use etos_api.Esr.Feed.Delivery.{
  from_log, from_log-append, IsEvent, AllAnswer, reached, subscribe-Delivered,
}

-- No write fails.
abbrev pub AllWritten : List Receive → Type 0
AllWritten [] = Unit
AllWritten (server_stops ∷ rest) = AllWritten rest
AllWritten (next true ∷ rest) = AllWritten rest
AllWritten (next false ∷ rest) = ⊥

-- What is written are the first of the events that were sent.
serve-first :
    (receives : List Receive) (sent : List Sent) (ended : Ended)
    → AllWritten receives
    → (later : List Sent) × ((serve receives sent ended).0 ++ later ≡ sent)
unfolding serve
serve-first [] sent ended h = (sent, refl)
serve-first (server_stops ∷ rest) sent ended h = serve-first rest sent ended h
serve-first (next false ∷ rest) sent ended h = elim h [ ]
serve-first (next true ∷ rest) (s ∷ sent) ended h =
    let (later, e) = serve-first rest sent ended h in (later, ap (λ (r : List Sent). s ∷ r) e)
serve-first (next true ∷ rest) [] returned h = ([], refl)
serve-first (next true ∷ rest) [] open_still h = ([], refl)

last_id-decimal : (n : ℕ) → n ≤ max_int64 → last_id (decimal n) ≡ pos n
unfolding last_id
last_id-decimal n h = ground (arith, parse_int-decimal n h, decimal-ne-nil n)

answer_for-inv :
    (finished : Bool) (address : Option Text) (can_flush : Bool) (stream : Text → Response)
    {t : Text} {n : ℤ} {ss : List Sent} {served : Served}
    → answer_for finished address can_flush stream ≡ streamed t n ss served
    → (a : Text) × (address ≡ some a) × (stream a ≡ streamed t n ss served)
answer_for-inv true a f stream h = absurd (cc (h))
answer_for-inv false none f stream h = absurd (cc (h))
answer_for-inv false (some a) false stream h = absurd (cc (h))
answer_for-inv false (some a) true stream h = (a, refl, h)

module _ (codec : JsonCodec) where
  -- What a response streams, if it does.
  streamed-inv :
      (s : Situation) (choices : List Choice) (receives : List Receive) {t : Text} {n : ℤ}
      {ss : List Sent} {served : Served}
      → get_events codec s choices receives ≡ streamed t n ss served
      → (url_at (codes "/v1/log") s.address ≡ some t)
        × (ss
            ≡ (serve receives
                (subscribe codec choices (last_id s.last_event_id)).0
                (subscribe codec choices (last_id s.last_event_id)).1).0)
  unfolding get_events
  streamed-inv s choices receives h =
      let (a, address, e) =
        answer_for-inv s.finished (url_at (codes "/v1/log") s.address) s.can_flush _ h in
      (cc (address, e), cc (e))

  -- A request that sends back the number `n + 1` gets, if it is streamed and no write fails, the
  -- events of the log from line `n` on: those written and the ones that are left out at the end are
  -- all of them, each once and in order. The listener answers with lines from the number on that is
  -- asked for, every line is an event, and the log has fewer lines than the largest id.
  pub get_events-Follows :
      (log : List Text) (n : ℕ) (s : Situation) (choices : List Choice) (receives : List Receive)
      {t : Text} {id : ℤ} {ss : List Sent} {served : Served}
      → suc n ≤ max_int64
      → suc (length log) ≤ max_int64
      → All (IsEvent codec) log
      → AllAnswer codec log choices
      → AllWritten receives
      → s.last_event_id ≡ decimal (suc n)
      → get_events codec s choices receives ≡ streamed t id ss served
      → (left : List Event) × (from_log ss ++ left ≡ events_in codec (drop n log))
  get_events-Follows log n s choices receives {ss = ss} start bound all answers writes header h =
      let header_id : last_id s.last_event_id ≡ pos (suc n) =
        ap last_id header ∙ last_id-decimal (suc n) start in
      let sent : List Sent = (subscribe codec choices (pos (suc n))).0 in
      let ended : Ended = (subscribe codec choices (pos (suc n))).1 in
      let (later, e) = serve-first receives sent ended writes in
      let written : ss ≡ (serve receives sent ended).0 =
        (streamed-inv s choices receives h).1
        ∙ ap
            (λ (c : ℤ).
              (serve receives (subscribe codec choices c).0 (subscribe codec choices c).1).0)
            header_id in
      let rest : List Event = events_in codec (drop (reached codec n choices) log) in
      let parts : from_log ss ++ from_log later ≡ from_log sent =
        ap (λ (r : List Sent). from_log r ++ from_log later) written
        ∙ sym (from_log-append (serve receives sent ended).0 later)
        ∙ ap from_log e in
      (
        from_log later ++ rest,
        sym (append_assoc (from_log ss) (from_log later) rest)
            ∙ ap (λ (r : List Event). r ++ rest) parts
            ∙ subscribe-Delivered codec log n choices start bound all answers,
      )
