-- ===== src/Esr/Feed/Delivery.antt =====
-- What `Subscribe` of pkg/sse/v1/sse.go delivers of the log of a suite runner, over all polls.
use etos_api.Prelude.{
  ℕ, zero, suc, ◌+◌, ◌≤◌, ◌<◌, ◌-◌, ◌≡◌, refl, sym, ap, ◌∙◌, true, false, some, List, [], ◌∷◌, ◌++◌,
  append_assoc, arith, Text, length, length-append, drop, drop-length, drop_add, drop-bound, All,
  All-append_left, ℤ, pos, inc64, max_int64,
}
use mathlib.Core.Path.{subst}
use etos_api.Events.{Event, JsonCodec, new}
use etos_api.Esr.{Reply, failed, body, scan}
use etos_api.Esr.Feed.{
  Choice, done, ping, tick, Sent, forwarded, pinged, shutdown, events_in, forward, advance,
  subscribe, by_reply,
}

-- The events of the log among what was sent.
unfoldable pub from_log : List Sent → List Event
from_log [] = []
from_log (forwarded e ∷ sent) = e ∷ from_log sent
from_log (pinged ∷ sent) = from_log sent
from_log (shutdown ∷ sent) = from_log sent

pub from_log-append : (xs ys : List Sent) → from_log (xs ++ ys) ≡ from_log xs ++ from_log ys
unfolding from_log
from_log-append [] ys = refl
from_log-append (forwarded e ∷ xs) ys = ap (λ (r : List Event). e ∷ r) (from_log-append xs ys)
from_log-append (pinged ∷ xs) ys = from_log-append xs ys
from_log-append (shutdown ∷ xs) ys = from_log-append xs ys

pub from_log-forward : (es : List Event) → from_log (forward es) ≡ es
unfolding from_log forward
from_log-forward [] = refl
from_log-forward (e ∷ es) = ap (λ (r : List Event). e ∷ r) (from_log-forward es)

inc64-pos : (n : ℕ) → n < max_int64 → inc64 (pos n) ≡ pos (suc n)
unfolding inc64
inc64-pos n h = ground arith

pub advance-pos :
    (n : ℕ) (es : List Event) → n + length es ≤ max_int64 → advance (pos n) es ≡ pos (n + length es)
unfolding advance
advance-pos n [] h = ap pos (omega arith)
advance-pos n (e ∷ es) h =
    ap (λ (c : ℤ). advance c es) (inc64-pos n (omega arith))
    ∙ advance-pos (suc n) es (omega arith)
    ∙ ap pos (omega arith)

module _ (codec : JsonCodec) where
  -- A line that `events.New` reads.
  abbrev pub IsEvent : Text → Type 0
  IsEvent line = (e : Event) × (new codec line ≡ some e)

  pub events_in-append :
      (xs ys : List Text) → events_in codec (xs ++ ys) ≡ events_in codec xs ++ events_in codec ys
  unfolding events_in
  events_in-append [] ys = refl
  events_in-append (x ∷ xs) ys = ground (arith, events_in-append xs ys)

  pub events_in-cons :
      (line : Text) (lines : List Text) {e : Event}
      → new codec line ≡ some e
      → events_in codec (line ∷ lines) ≡ e ∷ events_in codec lines
  unfolding events_in
  events_in-cons line lines h = ground arith

  length-events_in :
      (lines : List Text) → All IsEvent lines → length (events_in codec lines) ≡ length lines
  length-events_in [] h = unfold events_in in refl
  length-events_in (line ∷ lines) ((e, p), h) =
      omega (arith, ap length (events_in-cons line lines p), length-events_in lines h)

  -- The listener answers a request from a number on with lines of the log from there on.
  abbrev pub Answers : List Text → List Text → Reply → Type 0
  Answers log lines (failed finished) = Unit
  Answers log lines (body bytes) = (later : List Text) × (scan bytes ++ later ≡ lines)

  abbrev pub AllAnswer : List Text → List Choice → Type 0
  AllAnswer log [] = Unit
  AllAnswer log (done ∷ choices) = AllAnswer log choices
  AllAnswer log (ping ∷ choices) = AllAnswer log choices
  AllAnswer log (tick reply ∷ choices) =
      ((n : ℕ) → Answers log (drop n log) (reply (pos (suc n)))) × AllAnswer log choices

  -- The count of lines that is reached from `n`.
  abbrev pub reached_by : (ℕ → ℕ) → ℕ → Reply → ℕ
  reached_by rest n (failed finished) = rest n
  reached_by rest n (body bytes) = rest (n + length (scan bytes))

  unfoldable pub reached : ℕ → List Choice → ℕ
  reached n [] = n
  reached n (done ∷ choices) = n
  reached n (ping ∷ choices) = reached n choices
  reached n (tick reply ∷ choices) = reached_by (λ m. reached m choices) n (reply (pos (suc n)))

  -- The events sent so far, with those for the rest of the log, are the whole rest of the log.
  abbrev pub Complete : List Text → ℕ → List Sent → ℕ → Type 0
  Complete log n sent m =
      from_log sent ++ events_in codec (drop m log) ≡ events_in codec (drop n log)

  abbrev Delivers : List Text → List Choice → ℕ → Type 0
  Delivers log choices n =
      Complete log n (subscribe codec choices (pos (suc n))).0 (reached n choices)

  Complete-body :
      (log : List Text) (n m : ℕ) (lines later : List Text) (sent : List Sent)
      → lines ++ later ≡ drop n log
      → Complete log (n + length lines) sent m
      → Complete log n (forward (events_in codec lines) ++ sent) m
  Complete-body log n m lines later sent e ih =
      let es : List Event = events_in codec lines in
      let back : List Event = events_in codec (drop m log) in
      let left : drop (n + length lines) log ≡ later =
        drop_add n (length lines) log
        ∙ ap (drop (length lines)) (sym e)
        ∙ drop-length lines later in
      ap (λ (r : List Event). r ++ back)
        (from_log-append (forward es) sent
          ∙ ap (λ (r : List Event). r ++ from_log sent) (from_log-forward es))
      ∙ append_assoc es (from_log sent) back
      ∙ ap (λ (r : List Event). es ++ r) (ih ∙ ap (events_in codec) left)
      ∙ sym (events_in-append lines later)
      ∙ ap (events_in codec) e

  All-drop : (n : ℕ) (xs : List Text) → All IsEvent xs → All IsEvent (drop n xs)
  All-drop zero xs h = h
  All-drop (suc n) [] h = h
  All-drop (suc n) (x ∷ xs) (p, h) = All-drop n xs h

  Complete-ping :
      (log : List Text) (n m : ℕ) (sent : List Sent)
      → Complete log n sent m
      → Complete log n (pinged ∷ sent) m
  unfolding from_log
  Complete-ping log n m sent h = h

  Complete-shutdown :
      (log : List Text) (n m : ℕ) (sent : List Sent)
      → Complete log n sent m
      → Complete log n (shutdown ∷ sent) m
  unfolding from_log
  Complete-shutdown log n m sent h = h

  reply-Complete :
      (log : List Text) (n : ℕ) (choices : List Choice) (reply : Reply)
      → suc n ≤ max_int64
      → suc (length log) ≤ max_int64
      → All IsEvent log
      → Answers log (drop n log) reply
      → ((m : ℕ) → suc m ≤ max_int64 → Delivers log choices m)
      → Complete log n
          (by_reply codec (subscribe codec choices) (pos (suc n)) reply).0
          (reached_by (λ m. reached m choices) n reply)
  reply-Complete log n choices (failed true) start bound all a ih =
      Complete-shutdown log n (reached n choices) _ (ih n start)
  reply-Complete log n choices (failed false) start bound all a ih = ih n start
  reply-Complete log n choices (body bytes) start bound all (later, e) ih =
      let lines : List Text = scan bytes in
      let fits : n + length (drop n log) ≤ max_int64 - 1 =
        drop-bound n (max_int64 - 1) log (omega arith) (omega arith) in
      let all' : All IsEvent lines =
        All-append_left IsEvent lines later (subst (All IsEvent) (sym e) (All-drop n log all)) in
      let count : length (events_in codec lines) ≡ length lines = length-events_in lines all' in
      let inside : suc (n + length lines) ≤ max_int64 =
        omega (arith, ap length e, length-append {0} lines later) in
      let end : advance (pos (suc n)) (events_in codec lines) ≡ pos (suc (n + length lines)) =
        advance-pos (suc n) (events_in codec lines) (omega arith) ∙ ap pos (omega arith) in
      subst
        (λ (c : ℤ).
          Complete log n (forward (events_in codec lines) ++ (subscribe codec choices c).0)
            (reached (n + length lines) choices))
        (sym end)
        (Complete-body log n (reached (n + length lines) choices) lines later _ e
          (ih (n + length lines) inside))

  -- By induction on the choices.
  subscribe-Complete :
      (log : List Text) (n : ℕ) (choices : List Choice)
      → suc n ≤ max_int64
      → suc (length log) ≤ max_int64
      → All IsEvent log
      → AllAnswer log choices
      → Delivers log choices n
  unfolding subscribe reached
  subscribe-Complete log n [] start bound all h = unfold from_log in refl
  subscribe-Complete log n (done ∷ choices) start bound all h = unfold from_log in refl
  subscribe-Complete log n (ping ∷ choices) start bound all h =
      Complete-ping log n (reached n choices) _ (subscribe-Complete log n choices start bound all h)
  subscribe-Complete log n (tick reply ∷ choices) start bound all (a, h) =
      reply-Complete log n choices (reply (pos (suc n))) start bound all (a n)
        (λ m k. subscribe-Complete log m choices k bound all h)

  -- If every line of the log is an event, each event from number `n + 1` on is sent exactly once and
  -- in order up to the last line that was read: the events sent, with those of the lines that were
  -- not yet reached, are the events of all lines from `n` on. The listener answers with lines from
  -- the number on that is asked for, and the log has fewer lines than the largest id.
  pub subscribe-Delivered :
      (log : List Text) (n : ℕ) (choices : List Choice)
      → suc n ≤ max_int64
      → suc (length log) ≤ max_int64
      → All IsEvent log
      → AllAnswer log choices
      → Complete log n (subscribe codec choices (pos (suc n))).0 (reached n choices)
  subscribe-Delivered log n choices start bound all h =
      subscribe-Complete log n choices start bound all h
