-- ===== src/Esr/Logs/Delivery.antt =====
-- What `Subscribe` of pkg/sse/v1alpha/sse.go delivers of the log, over all polls.
use etos_api.Prelude.{
  ℕ, suc, ◌+◌, ◌≤◌, ◌<◌, ◌≡◌, refl, sym, ap, ◌∙◌, inl, inr, true, false, List, [], ◌∷◌, ◌++◌,
  append_assoc, append-nil, ◌⊎◌, split, arith, Text, codes, text_eq, leb, length, length-append,
  drop, drop-append, drop-length, length-drop, ℤ, pos, inc64, dec64, max_int64, if◌then◌else◌,
  Bool-cases,
}
use mathlib.Core.Path.{subst}
use etos_api.Events.{Event}
use etos_api.Esr.{failed, body, scan}
use etos_api.Esr.Lines.{scan-append}
use etos_api.Esr.Logs.{
  Choice, done, ping, tick, number, advance, subscribe, message_at, slice_from, send_slice, skipped,
  rest_of, Slice, Ended, named,
}

-- The events of the name "message".
unfoldable pub messages_of : List Event → List Event
messages_of [] = []
messages_of (e ∷ es) =
    let rest = messages_of es in if text_eq e.event (codes "message") then e ∷ rest else rest

messages_of-append :
    (xs ys : List Event) → messages_of (xs ++ ys) ≡ messages_of xs ++ messages_of ys
unfolding messages_of
messages_of-append [] ys = refl
messages_of-append (x ∷ xs) ys = ground (arith, messages_of-append xs ys)

messages_of-number : (c : ℤ) (lines : List Text) → messages_of (number c lines) ≡ number c lines
unfolding messages_of number text_eq
messages_of-number c [] = refl
messages_of-number c (line ∷ lines) =
    ap (λ (r : List Event). message_at c line ∷ r) (messages_of-number (inc64 c) lines)

number-append :
    (c : ℤ) (xs ys : List Text) → number c (xs ++ ys) ≡ number c xs ++ number (advance c xs) ys
unfolding number advance
number-append c [] ys = refl
number-append c (x ∷ xs) ys =
    ap (λ (r : List Event). message_at c x ∷ r) (number-append (inc64 c) xs ys)

inc64-pos : (n : ℕ) → n < max_int64 → inc64 (pos n) ≡ pos (suc n)
unfolding inc64
inc64-pos n h = ground arith

advance-pos :
    (n : ℕ) (lines : List Text)
    → n + length lines ≤ max_int64
    → advance (pos n) lines ≡ pos (n + length lines)
unfolding advance
advance-pos n [] h = ap pos (omega arith)
advance-pos n (line ∷ lines) h =
    ap (λ (c : ℤ). advance c lines) (inc64-pos n (omega arith))
    ∙ advance-pos (suc n) lines (omega arith)
    ∙ ap pos (omega arith)

read_bound :
    (lines later : List Text) {log : List Text}
    → lines ++ later ≡ log
    → suc (length log) ≤ max_int64
    → suc (length lines) ≤ max_int64
read_bound lines later e h = omega (arith, length-append {0} lines later, ap length e)

-- Behind the lines from `n` on the counter is one more than their count.
pub advance-drop :
    (n : ℕ) (lines : List Text)
    → n ≤ length lines
    → suc (length lines) ≤ max_int64
    → advance (pos (suc n)) (drop n lines) ≡ pos (suc (length lines))
advance-drop n lines h bound =
    advance-pos (suc n) (drop n lines) (omega (arith, length-drop n lines h))
    ∙ ap pos (omega (arith, length-drop n lines h))

-- Each poll read the log up to some point: its lines are the first lines of the log.
abbrev pub Reads : List Text → Choice → Type 0
Reads log done = Unit
Reads log ping = Unit
Reads log (tick (failed finished)) = Unit
Reads log (tick (body bytes)) = (later : List Text) × (scan bytes ++ later ≡ log)

abbrev pub AllRead : List Text → List Choice → Type 0
AllRead log [] = Unit
AllRead log (choice ∷ choices) = Reads log choice × AllRead log choices

-- The count of lines that is reached from `n`: that of the longest body polled before the end.
unfoldable pub reached : ℕ → List Choice → ℕ
reached n [] = n
reached n (done ∷ choices) = n
reached n (ping ∷ choices) = reached n choices
reached n (tick (failed true) ∷ choices) = n
reached n (tick (failed false) ∷ choices) = reached n choices
reached n (tick (body bytes) ∷ choices) =
    reached (if leb n (length (scan bytes)) then length (scan bytes) else n) choices

-- The events sent so far, with those for the rest of the log, are the whole rest of the log.
abbrev pub Complete : List Text → ℕ → List Event → ℕ → Type 0
Complete log n sent m =
    messages_of sent ++ number (pos (suc m)) (drop m log) ≡ number (pos (suc n)) (drop n log)

abbrev Delivers : List Text → List Choice → ℕ → Type 0
Delivers log choices n = Complete log n (subscribe choices (pos (suc n))).0 (reached n choices)

-- A poll that reaches line `n` sends the lines from `n` on.
Complete-poll :
    (lines later : List Text) (n m : ℕ) (sent : List Event)
    → n ≤ length lines
    → suc (length (lines ++ later)) ≤ max_int64
    → Complete (lines ++ later) (length lines) sent m
    → Complete (lines ++ later) n (number (pos (suc n)) (drop n lines) ++ sent) m
Complete-poll lines later n m sent h bound ih =
    let c : ℤ = pos (suc n) in
    let front : List Event = number c (drop n lines) in
    let back : List Event = number (pos (suc m)) (drop m (lines ++ later)) in
    let end : advance c (drop n lines) ≡ pos (suc (length lines)) =
      advance-drop n lines h (read_bound lines later refl bound) in
    let left : messages_of (front ++ sent) ++ back ≡ front ++ (messages_of sent ++ back) =
      ap (λ (r : List Event). r ++ back) (messages_of-append front sent)
      ∙ ap (λ (r : List Event). (r ++ messages_of sent) ++ back)
          (messages_of-number c (drop n lines))
      ∙ append_assoc front (messages_of sent) back in
    left
    ∙ ap (λ (r : List Event). front ++ r)
        (ih ∙ ap (number (pos (suc (length lines)))) (drop-length lines later))
    ∙ ap (λ (d : ℤ). front ++ number d later) (sym end)
    ∙ sym (number-append c (drop n lines) later)
    ∙ ap (number c) (sym (drop-append n lines later h))

pub slice_from-reach :
    (n : ℕ) (lines : List Text)
    → leb n (length lines) ≡ true
    → slice_from (dec64 (pos (suc n))) lines ≡ rest_of (drop n lines)
unfolding slice_from dec64
slice_from-reach n lines h = rw h

pub slice_from-short :
    (n : ℕ) (lines : List Text)
    → leb n (length lines) ≡ false
    → slice_from (dec64 (pos (suc n))) lines ≡ skipped
unfolding slice_from dec64
slice_from-short n lines h = rw h

Complete-ping :
    (log : List Text) (n m : ℕ) (sent : List Event)
    → Complete log n sent m
    → Complete log n (named (codes "ping") ∷ sent) m
unfolding messages_of text_eq
Complete-ping log n m sent h = h

-- What a poll sends, and the count that is reached with it.
abbrev polled : List Text → List Choice → ℕ → List Event × Ended
polled lines choices n =
    send_slice (subscribe choices) (pos (suc n)) (slice_from (dec64 (pos (suc n))) lines)

abbrev reach : List Text → ℕ → ℕ
reach lines n = if leb n (length lines) then length lines else n

poll-Complete :
    (lines later : List Text) (n : ℕ) (choices : List Choice)
    → suc (length (lines ++ later)) ≤ max_int64
    → Delivers (lines ++ later) choices (length lines)
    → Delivers (lines ++ later) choices n
    → Complete (lines ++ later) n (polled lines choices n).0 (reached (reach lines n) choices)
poll-Complete lines later n choices bound longer same = elim (Bool-cases (leb n (length lines))) [
  | inl far ↦
      let front : List Event = number (pos (suc n)) (drop n lines) in
      let le : n ≤ length lines = ground arith in
      let end : advance (pos (suc n)) (drop n lines) ≡ pos (suc (length lines)) =
        advance-drop n lines le (read_bound lines later refl bound) in
      let sent : (polled lines choices n).0
          ≡ front ++ (subscribe choices (pos (suc (length lines)))).0 =
        ap (λ (p : Slice). (send_slice (subscribe choices) (pos (suc n)) p).0)
          (slice_from-reach n lines far)
        ∙ ap (λ (c : ℤ). front ++ (subscribe choices c).0) end in
      rw far (
        subst (λ (es : List Event). Complete (lines ++ later) n es (reached (length lines) choices))
          (sym sent)
          (Complete-poll lines later n (reached (length lines) choices) _ le bound longer))
  | inr short ↦ rw short (
      subst (λ (es : List Event). Complete (lines ++ later) n es (reached n choices))
        (sym (
          ap (λ (p : Slice). (send_slice (subscribe choices) (pos (suc n)) p).0)
            (slice_from-short n lines short)))
        same)
]

-- By induction on the choices.
subscribe-Complete :
    (log : List Text) (n : ℕ) (choices : List Choice)
    → suc n ≤ max_int64
    → suc (length log) ≤ max_int64
    → AllRead log choices
    → Complete log n (subscribe choices (pos (suc n))).0 (reached n choices)
unfolding subscribe reached
subscribe-Complete log n [] start bound h = unfold messages_of in refl
subscribe-Complete log n (done ∷ choices) start bound h = unfold messages_of in refl
subscribe-Complete log n (ping ∷ choices) start bound (p, h) =
    Complete-ping log n (reached n choices) _ (subscribe-Complete log n choices start bound h)
subscribe-Complete log n (tick (failed true) ∷ choices) start bound h =
    unfold messages_of text_eq in refl
subscribe-Complete log n (tick (failed false) ∷ choices) start bound (p, h) =
    subscribe-Complete log n choices start bound h
subscribe-Complete log n (tick (body bytes) ∷ choices) start bound ((later, e), h) =
    subst
      (λ (l : List Text).
        Complete l n (polled (scan bytes) choices n).0 (reached (reach (scan bytes) n) choices))
      e
      (poll-Complete (scan bytes) later n choices
        (subst (λ (l : List Text). suc (length l) ≤ max_int64) (sym e) bound)
        (subst (λ (l : List Text). Delivers l choices (length (scan bytes))) (sym e)
          (subscribe-Complete log (length (scan bytes)) choices
            (read_bound (scan bytes) later e bound) bound h))
        (subst (λ (l : List Text). Delivers l choices n) (sym e)
          (subscribe-Complete log n choices start bound h)))

-- Each poll reads the whole log as it stands then: nothing, a part that ends with a line break, or all.
abbrev pub IsPart : Text → Text → Type 0
IsPart log bytes =
    (bytes ≡ [])
    ⊎ (((s : Text) × (t : Text) × (bytes ≡ s ++ b'\n' ∷ []) × (log ≡ s ++ b'\n' ∷ t))
        ⊎ (bytes ≡ log))

abbrev pub IsPoll : Text → Choice → Type 0
IsPoll log done = Unit
IsPoll log ping = Unit
IsPoll log (tick (failed finished)) = Unit
IsPoll log (tick (body bytes)) = IsPart log bytes

abbrev pub AllPolls : Text → List Choice → Type 0
AllPolls log [] = Unit
AllPolls log (choice ∷ choices) = IsPoll log choice × AllPolls log choices

scan-nil : scan [] ≡ []
unfolding scan split
scan-nil = refl

IsPart-scan :
    (log bytes : Text) → IsPart log bytes → (later : List Text) × (scan bytes ++ later ≡ scan log)
IsPart-scan log bytes (inl e) = (
  scan log,
  ap (λ (b : Text). scan b ++ scan log) e ∙ ap (λ (r : List Text). r ++ scan log) scan-nil,
)
IsPart-scan log bytes (inr (inl (s, t, e, f))) =
    let (zs, g) = scan-append s t in
    (zs, ap (λ (b : Text). scan b ++ zs) e ∙ sym g ∙ ap scan (sym f))
IsPart-scan log bytes (inr (inr e)) = ([], append-nil (scan bytes) ∙ ap scan e)

AllRead-of_polls :
    (log : Text) (choices : List Choice) → AllPolls log choices → AllRead (scan log) choices
AllRead-of_polls log [] h = tt
AllRead-of_polls log (done ∷ choices) (p, h) = (tt, AllRead-of_polls log choices h)
AllRead-of_polls log (ping ∷ choices) (p, h) = (tt, AllRead-of_polls log choices h)
AllRead-of_polls log (tick (failed finished) ∷ choices) (p, h) =
    (tt, AllRead-of_polls log choices h)
AllRead-of_polls log (tick (body bytes) ∷ choices) (p, h) =
    (IsPart-scan log bytes p, AllRead-of_polls log choices h)

-- From line `n` on, each line of the log up to the longest poll is sent exactly once and in order,
-- with the ids from `n + 1` on: the messages sent, with those for the lines that were not yet reached,
-- are the messages for all lines from `n` on. The polls read whole lines of the log, and the log has
-- fewer lines than the largest id.
pub subscribe-Delivered :
    (log : Text) (n : ℕ) (choices : List Choice)
    → suc n ≤ max_int64
    → suc (length (scan log)) ≤ max_int64
    → AllPolls log choices
    → Complete (scan log) n (subscribe choices (pos (suc n))).0 (reached n choices)
subscribe-Delivered log n choices start bound h =
    subscribe-Complete (scan log) n choices start bound (AllRead-of_polls log choices h)
