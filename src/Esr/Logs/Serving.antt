-- ===== src/Esr/Logs/Serving.antt =====
-- What `GetEvents` of pkg/sse/v1alpha/sse.go writes to the client, and which listener it polls.
use etos_api.Prelude.{
  ℕ, suc, ◌≤◌, ◌≡◌, refl, sym, ap, ◌∙◌, Bool, true, false, Option, none, some, List, [], ◌∷◌, ◌++◌,
  append_assoc, arith, Text, codes, text_eq, length, drop, ℤ, pos, max_int64, Bool-cases, ◌≢◌, inl,
  inr,
}
use mathlib.Core.Path.{subst}
use etos_api.Prelude.Decimal.{decimal, parse_int-decimal, decimal-ne-nil}
use etos_api.Events.{Event}
use etos_api.Kubernetes.{Job, Pod, Cache, log_listener_ip}
use etos_api.Kubernetes.Fresh.{Api, Reached}
use etos_api.Kubernetes.Found.{NowListens}
use etos_api.Esr.{scan, url_at}
use etos_api.Esr.Address.{url_at-Listens}
use etos_api.Esr.Logs.{
  Choice, number, Ended, open_still, returned, panicked, named, subscribe, url, written,
  write_failed, hijacked, Receive, client_gone, server_stops, next, Served, serve, serve_event,
  Situation, Response, streamed, last_id, get_events, answer_for,
}
use etos_api.Esr.Logs.Delivery.{messages_of, AllPolls, subscribe-Delivered, reached}

-- No write fails.
abbrev pub AllWritten : List Receive → Type 0
AllWritten [] = Unit
AllWritten (next written ∷ rest) = AllWritten rest
AllWritten (next write_failed ∷ rest) = ⊥
AllWritten (next hijacked ∷ rest) = ⊥
AllWritten (client_gone ∷ rest) = AllWritten rest
AllWritten (server_stops ∷ rest) = AllWritten rest

-- The messages written are the first of those that were sent.
abbrev IsFirstOf : List Event → List Event → Type 0
IsFirstOf es sent = (later : List Event) × (messages_of es ++ later ≡ messages_of sent)

IsFirstOf-cons :
    (e : Event) (es sent : List Event) → IsFirstOf es sent → IsFirstOf (e ∷ es) (e ∷ sent)
unfolding messages_of
IsFirstOf-cons e es sent (later, h) = elim (Bool-cases (text_eq e.event (codes "message"))) [
  | inl message ↦ (later, rw message (ap (λ (r : List Event). e ∷ r) h))
  | inr other ↦ (later, rw other h)
]

IsFirstOf-nil : (sent : List Event) → IsFirstOf [] sent
unfolding messages_of
IsFirstOf-nil sent = (messages_of sent, refl)

event-IsFirstOf :
    (can_hijack : Bool) (rest : List Event → List Event × Served) (e : Event) (sent : List Event)
    → IsFirstOf (rest sent).0 sent
    → IsFirstOf (serve_event can_hijack rest written (some (e, sent))).0 (e ∷ sent)
event-IsFirstOf can_hijack rest e sent h = elim (Bool-cases (text_eq e.event (codes "shutdown"))) [
  | inl stop ↦ rw stop (IsFirstOf-nil (e ∷ sent))
  | inr other ↦ rw other (IsFirstOf-cons e (rest sent).0 sent h)
]

-- An event without fields, from a closed channel, is no message.
closed-IsFirstOf :
    (can_hijack : Bool) (rest : List Event → List Event × Served)
    → IsFirstOf (rest []).0 []
    → IsFirstOf (serve_event can_hijack rest written (some (named [], []))).0 []
unfolding messages_of text_eq
closed-IsFirstOf can_hijack rest h = h

serve-IsFirstOf :
    (can_hijack : Bool) (receives : List Receive) (sent : List Event) (ended : Ended)
    → AllWritten receives
    → IsFirstOf (serve can_hijack receives sent ended).0 sent
unfolding serve
serve-IsFirstOf can_hijack [] sent ended h = IsFirstOf-nil sent
serve-IsFirstOf can_hijack (client_gone ∷ rest) sent ended h = IsFirstOf-nil sent
serve-IsFirstOf can_hijack (server_stops ∷ rest) sent ended h = IsFirstOf-nil sent
serve-IsFirstOf can_hijack (next write_failed ∷ rest) sent ended h = elim h [ ]
serve-IsFirstOf can_hijack (next hijacked ∷ rest) sent ended h = elim h [ ]
serve-IsFirstOf can_hijack (next written ∷ rest) (e ∷ sent) ended h =
    event-IsFirstOf can_hijack (λ later. serve can_hijack rest later ended) e sent
      (serve-IsFirstOf can_hijack rest sent ended h)
serve-IsFirstOf can_hijack (next written ∷ rest) [] returned h =
    closed-IsFirstOf can_hijack (λ later. serve can_hijack rest later returned)
      (serve-IsFirstOf can_hijack rest [] returned h)
serve-IsFirstOf can_hijack (next written ∷ rest) [] open_still h = IsFirstOf-nil []
serve-IsFirstOf can_hijack (next written ∷ rest) [] panicked h = IsFirstOf-nil []

last_id-decimal : (n : ℕ) → n ≤ max_int64 → last_id (decimal n) ≡ some (pos n)
last_id-decimal n h = ground (arith, parse_int-decimal n h, decimal-ne-nil n)

answer_for-inv :
    (finished : Bool) (address : Option Text) (id : Option ℤ) (can_flush : Bool)
    (stream : Text → ℤ → Response) {t : Text} {n : ℤ} {es : List Event} {served : Served}
    → answer_for finished address id can_flush stream ≡ streamed t n es served
    → (finished ≡ false)
      × ((a : Text) × (m : ℤ) × (address ≡ some a)
          × (id ≡ some m)
          × (stream a m ≡ streamed t n es served))
answer_for-inv true a id f stream h = absurd (cc (h))
answer_for-inv false none id f stream h = absurd (cc (h))
answer_for-inv false (some a) none f stream h = absurd (cc (h))
answer_for-inv false (some a) (some m) false stream h = absurd (cc (h))
answer_for-inv false (some a) (some m) true stream h = (refl, (a, m, refl, refl, h))

-- What a response streams, if it does.
record Streams (s : Situation) (choices : List Choice) (receives : List Receive) (t : Text) (n : ℤ)
    (es : List Event) : Type 0 where
  running : s.finished ≡ false
  address : url s.address ≡ some t
  id : last_id s.last_event_id ≡ some n
  written_by : es ≡ (serve s.can_hijack receives (subscribe choices n).0 (subscribe choices n).1).0

get_events-Streams :
    (s : Situation) (choices : List Choice) (receives : List Receive) {t : Text} {n : ℤ}
    {es : List Event} {served : Served}
    → get_events s choices receives ≡ streamed t n es served
    → Streams s choices receives t n es
unfolding get_events
get_events-Streams s choices receives h =
    let (running, (a, m, address, id, e)) =
      answer_for-inv s.finished (url s.address) (last_id s.last_event_id) s.can_flush _ h in
    record { running = running; address = cc (address, e); id = cc (id, e); written_by = cc (e) }

-- A request that sends back the id `n + 1` gets, if it is streamed and no write fails, the messages
-- for the lines of the log from line `n` on: those written and the ones that are left out at the end
-- are all of them, each once and in order, with their ids. The polls read whole lines of the log, and
-- the log has fewer lines than the largest id.
pub get_events-Numbered :
    (log : Text) (n : ℕ) (s : Situation) (choices : List Choice) (receives : List Receive)
    {t : Text} {id : ℤ} {es : List Event} {served : Served}
    → suc n ≤ max_int64
    → suc (length (scan log)) ≤ max_int64
    → AllPolls log choices
    → AllWritten receives
    → s.last_event_id ≡ decimal (suc n)
    → get_events s choices receives ≡ streamed t id es served
    → (left : List Event) × (messages_of es ++ left ≡ number (pos (suc n)) (drop n (scan log)))
get_events-Numbered log n s choices receives {id = id} {es = es} start bound polls writes header h =
    let d = get_events-Streams s choices receives h in
    let header_id : last_id s.last_event_id ≡ some (pos (suc n)) =
      ap last_id header ∙ last_id-decimal (suc n) start in
    let same : id ≡ pos (suc n) = cc (d.id, header_id) in
    let sent : List Event = (subscribe choices (pos (suc n))).0 in
    let written_first : IsFirstOf es sent =
      subst (λ (e : List Event). IsFirstOf e sent)
        (sym (
          d.written_by
          ∙ ap
              (λ (c : ℤ).
                (serve s.can_hijack receives (subscribe choices c).0 (subscribe choices c).1).0)
              same))
        (serve-IsFirstOf s.can_hijack receives sent (subscribe choices (pos (suc n))).1 writes) in
    let m : ℕ = reached n choices in
    let rest : List Event = number (pos (suc m)) (drop m (scan log)) in
    (
      written_first.0 ++ rest,
      sym (append_assoc (messages_of es) written_first.0 rest)
          ∙ ap (λ (r : List Event). r ++ rest) written_first.1
          ∙ subscribe-Delivered log n choices start bound polls,
    )

-- A streamed response polls the log of the first pod of the first job of the test run, in answers of
-- the last five seconds, which `IsFinished` has not called finished.
pub get_events-Listens :
    (identifier : Text) (jobs_api : Api (List Job)) (pods_api : Api (List Pod)) (c : Cache)
    (before now : ℕ) (s : Situation) (choices : List Choice) (receives : List Receive) {t : Text}
    {id : ℤ} {es : List Event} {served : Served}
    → Reached jobs_api c.jobs before
    → Reached pods_api c.pods before
    → before ≤ now
    → s.address ≡ (log_listener_ip true identifier now (jobs_api now) (pods_api now) c).0
    → get_events s choices receives ≡ streamed t id es served
    → (ip : Text) × NowListens jobs_api pods_api now identifier ip
      × (ip ≢ [])
      × (t ≡ codes "http://" ++ (ip ++ codes ":8000/log"))
      × (s.finished ≡ false)
get_events-Listens identifier jobs_api pods_api c before now s choices receives {t = t} rj rp le at
      h =
    let d = get_events-Streams s choices receives h in
    let polled : url_at (codes "/log") s.address ≡ some t = unfold url in d.address in
    let (ip, l, given, shape) =
      url_at-Listens (codes "/log") identifier jobs_api pods_api c before now s.address rj rp le at
        polled in
    (ip, l, given, shape, d.running)
