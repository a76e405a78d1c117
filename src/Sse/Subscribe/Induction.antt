-- ===== src/Sse/Subscribe/Induction.antt =====
-- Induction over the rounds of `subscribe` of pkg/sse/v2alpha/sse.go, for what holds of all that a
-- connection sends while its stream delivers a log.
use mathlib.Core.Path.{subst}
use etos_api.Prelude.{
  ℕ, ◌+◌, ◌<◌, Bool, true, false, none, some, List, [], ◌∷◌, ◌≡◌, sym, inl, inr, arith, ltb_ℤ, Text,
  All, ℤ, pos, negsuc, inc64, max_int64, Option-cases, Bool-cases, if◌then◌else◌,
}
use etos_api.Stream.{Message}
use etos_api.Events.{Event, JsonCodec}
use etos_api.Sse.Log.{InOrder, InOrder-weaken, InOrder-trans}
use etos_api.Sse.Resume.{Resume, resume, refuse, resume_offset}
use etos_api.Sse.Subscribe.{
  Sent, forwarded, ping, failure, Choice, done, tick, closed, message, send, if_taken, accept, step,
  prepend, go_on, loop, Setup, is_first, is_expired, consume_from, on_grant, subscribe,
}

-- The choices are those that a stream allows that still has to deliver `remaining`: a message is
-- received in turn, and the position of a ping is above no message that is still to come.
abbrev pub Follows : List Choice → List Message → Type 0
Follows [] remaining = Unit
Follows (done ∷ choices) remaining = Unit
Follows (closed notified cancelled taken ∷ choices) remaining = Unit
Follows (tick position taken ∷ choices) remaining =
    All (λ m. ltb_ℤ m.offset position ≡ false) remaining × Follows choices remaining
Follows (message m taken ∷ choices) [] = ⊥
Follows (message m taken ∷ choices) (next ∷ remaining) = (next ≡ m) × Follows choices remaining

pub inc64-offset :
    (m : Message) (k : ℕ) → m.offset ≡ pos k → k < max_int64 → inc64 m.offset ≡ pos (k + 1)
unfolding inc64
inc64-offset m k at fits = ground arith

-- What sending keeps: `P log n sent` is said of what is sent from the last id `n` on, while the stream
-- still has to deliver `log`.
pub record Rules (codec : JsonCodec) (validate : Text → Bool)
    (P : List Message → ℕ → List Sent → Type 0) : Type 0 where
  pub silent : (log : List Message) (n : ℕ) → InOrder (pos n) log → P log n []
  pub failed :
      (log : List Message) (n : ℕ) (retry : Bool) (reason : Text)
      → InOrder (pos n) log
      → P log n (failure retry reason ∷ [])
  pub dropped :
      (m : Message) (log : List Message) (n : ℕ) (sent : List Sent)
      → accept codec validate m ≡ none
      → P log n sent
      → P (m ∷ log) n sent
  pub forwarded_on :
      (m : Message) (log : List Message) (n k : ℕ) (e : Event) (sent : List Sent)
      → accept codec validate m ≡ some e
      → m.offset ≡ pos k
      → k < max_int64
      → ltb_ℤ (pos k) (pos n) ≡ false
      → P log (k + 1) sent
      → P (m ∷ log) n (forwarded e ∷ sent)
  pub pinged :
      (log : List Message) (n k : ℕ) (sent : List Sent)
      → ltb_ℤ (pos n) (pos k) ≡ true
      → P log k sent
      → P log n (ping (pos k) ∷ sent)
  pub pinged_zero :
      (log : List Message) (n : ℕ) (sent : List Sent) → P log n sent → P log n (ping (pos 0) ∷ sent)

module _ (codec : JsonCodec) (validate : Text → Bool) (P : List Message → ℕ → List Sent → Type 0)
    (rules : Rules codec validate P) where
  send_rule :
      (log : List Message) (n : ℕ) (taken : Bool) (s : Sent) (last_id : ℤ) (rest : ℤ → List Sent)
      → InOrder (pos n) log
      → P log n (s ∷ rest last_id)
      → P log n (go_on rest (send taken s last_id))
  send_rule log n true s last_id rest o p = p
  send_rule log n false s last_id rest o p = rules.silent log n o

  error_rule :
      (log : List Message) (n : ℕ) (taken retry : Bool) (reason : Text)
      → InOrder (pos n) log
      → P log n (prepend (if_taken taken (failure retry reason)) [])
  error_rule log n true retry reason o = rules.failed log n retry reason o
  error_rule log n false retry reason o = rules.silent log n o

  -- A message that is received: it is dropped, or sent with the id behind its offset.
  message_rule :
      (m : Message) (log : List Message) (n : ℕ) (taken : Bool) (rest : ℤ → List Sent)
      → InOrder (pos n) (m ∷ log)
      → ((k : ℕ) → InOrder (pos k) log → P log k (rest (pos k)))
      → P (m ∷ log) n (go_on rest (step codec validate (message m taken) (pos n)))
  unfolding step
  message_rule m log n taken rest (k, at, fits, ge, o) ih =
      elim (Option-cases (accept codec validate m)) [
        | inl dropped ↦
            rw (dropped, step)
              (rules.dropped m log n _ dropped
                (ih n (InOrder-trans (pos n) (pos (k + 1)) log (ground arith) o)))
        | inr (e, given) ↦
            rw (given, step)
              (send_rule (m ∷ log) n taken (forwarded e) (inc64 m.offset) rest (k, at, fits, ge, o)
                (rw (inc64-offset m k at fits)
                  (rules.forwarded_on m log n k e _ given at fits ge (ih (k + 1) o))))
      ]

  tick_rule :
      (log : List Message) (n : ℕ) (position : ℤ) (taken : Bool) (rest : ℤ → List Sent)
      → InOrder (pos n) log
      → All (λ m. ltb_ℤ m.offset position ≡ false) log
      → ((k : ℕ) → InOrder (pos k) log → P log k (rest (pos k)))
      → P log n (go_on rest (step codec validate (tick position taken) (pos n)))
  unfolding step
  tick_rule log n (negsuc k) taken rest o ahead ih =
      send_rule log n taken (ping (pos 0)) (pos n) rest o (rules.pinged_zero log n _ (ih n o))
  tick_rule log n (pos k) taken rest o ahead ih = elim (Bool-cases (ltb_ℤ (pos n) (pos k))) [
    | inl more ↦ rw more (
        send_rule log n taken (ping (pos k)) (pos k) rest o
          (rules.pinged log n k _ more (ih k (InOrder-weaken (pos n) (pos k) log ahead o))))
    | inr same ↦
        rw same
          (send_rule log n taken (ping (pos 0)) (pos n) rest o (rules.pinged_zero log n _ (ih n o)))
  ]

  step_rule :
      (choice : Choice) (log : List Message) (n : ℕ) (rest : ℤ → List Sent) (choices : List Choice)
      → InOrder (pos n) log
      → Follows (choice ∷ choices) log
      → ((later : List Message) (k : ℕ)
          → InOrder (pos k) later
          → Follows choices later
          → P later k (rest (pos k)))
      → P log n (go_on rest (step codec validate choice (pos n)))
  step_rule done log n rest choices o f ih = unfold step in rules.silent log n o
  step_rule (closed false cancelled taken) log n rest choices o f ih =
      unfold step in rules.silent log n o
  step_rule (closed true true taken) log n rest choices o f ih = unfold step in rules.silent log n o
  step_rule (closed true false taken) log n rest choices o f ih =
      unfold step in error_rule log n taken true _ o
  step_rule (tick position taken) log n rest choices o (ahead, f) ih =
      tick_rule log n position taken rest o ahead (λ k o'. ih log k o' f)
  step_rule (message m taken) [] n rest choices o f ih = elim f [ ]
  step_rule (message m taken) (next ∷ log) n rest choices o (same, f) ih =
      subst (λ x. P (x ∷ log) n (go_on rest (step codec validate (message m taken) (pos n))))
        (sym same)
        (message_rule m log n taken rest (subst (λ x. InOrder (pos n) (x ∷ log)) same o)
          (λ k o'. ih log k o' f))

  pub loop_induction :
      (choices : List Choice) (log : List Message) (n : ℕ)
      → InOrder (pos n) log
      → Follows choices log
      → P log n (loop codec validate choices (pos n))
  unfolding loop
  loop_induction [] log n o f = rules.silent log n o
  loop_induction (choice ∷ choices) log n o f =
      step_rule choice log n (loop codec validate choices) choices o f (loop_induction choices)

  if_rule :
      (log : List Message) (n : ℕ) (b : Bool) (s t : List Sent)
      → P log n s
      → P log n t
      → P log n (if b then s else t)
  if_rule log n true s t p q = p
  if_rule log n false s t p q = q

  consume_induction :
      (setup : Setup) (choices : List Choice) (log : List Message) (n : ℕ) (offset : ℤ)
      → InOrder (pos n) log
      → Follows choices log
      → P log n (consume_from codec validate setup choices offset (pos n))
  unfolding consume_from
  consume_induction setup choices log n offset o f =
      if_rule log n setup.consume_fails _ _ (error_rule log n setup.taken _ _ o) (
        if_rule log n (is_first offset) _ _ (loop_induction choices log n o f) (
          if_rule log n (is_expired (resume_offset setup.oldest_again (pos n))) _ _
            (error_rule log n setup.taken _ _ o) (loop_induction choices log n o f)))

  granted_rule :
      (setup : Setup) (choices : List Choice) (log : List Message) (n : ℕ) (granted : Resume)
      → InOrder (pos n) log
      → Follows choices log
      → P log n (on_grant codec validate setup choices (pos n) granted)
  granted_rule setup choices log n (resume offset) o f =
      consume_induction setup choices log n offset o f
  granted_rule setup choices log n (refuse retry reason) o f =
      error_rule log n setup.taken retry reason o

  -- Whatever the calls before the loop meet.
  pub subscribe_induction :
      (setup : Setup) (choices : List Choice) (log : List Message) (n : ℕ)
      → InOrder (pos n) log
      → Follows choices log
      → P log n (subscribe codec validate setup choices (pos n))
  unfolding subscribe
  subscribe_induction setup choices log n o f =
      granted_rule setup choices log n (resume_offset setup.oldest (pos n)) o f
