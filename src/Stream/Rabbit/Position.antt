-- ===== src/Stream/Rabbit/Position.antt =====
-- `Position` of internal/stream/rabbitmq.go while the consumer runs.
use etos_api.Prelude.{
  true, false, Option-cases, sym, some, List, [], ◌∷◌, ◌≡◌, ◌⊎◌, inl, inr, refl, arith, ℤ, ltb_ℤ,
  All,
}
use mathlib.Core.Path.{subst}
use etos_api.Stream.Rabbit.{RabbitMqStream, position}
use etos_api.Stream.Rabbit.Consuming.{
  Consuming, Step, begin, finish, skip, Reach, here, next, Ascending, IsStarted, Listed, All-at,
}

position_lem :
    (s : RabbitMqStream) (o : ℤ) → s.consumer ≡ some o → ltb_ℤ o s.start ≡ false → position s ≡ o
unfolding position
position_lem s o e low = ground arith

position_start :
    (s : RabbitMqStream) (o : ℤ)
    → s.consumer ≡ some o
    → ltb_ℤ s.start o ≡ false
    → position s ≡ s.start
unfolding position
position_start s o e low = ground arith

position-from_start :
    (s : RabbitMqStream) (a : ℤ) → ltb_ℤ a (position s) ≡ false → ltb_ℤ a s.start ≡ false
unfolding position
position-from_start s a h = ground (arith, Option-cases s.consumer)

ltb_ℤ-irrefl : (a : ℤ) → ltb_ℤ a a ≡ false
ltb_ℤ-irrefl a = ground arith

ltb_ℤ-asym : (a b : ℤ) → ltb_ℤ a b ≡ true → ltb_ℤ b a ≡ false
ltb_ℤ-asym a b h = ground arith

All-map : (P Q : ℤ → Type 0) (bs : List ℤ) → ((b : ℤ) → P b → Q b) → All P bs → All Q bs
All-map P Q [] f h = tt
All-map P Q (b ∷ bs) f (p, h) = (f b p, All-map P Q bs f h)

-- Each message is still to come, was filtered, or has begun. Every callback that has begun has
-- returned, but for the one that is being handled, which has the consumer's offset. What is to come
-- is not below the position, which is the start before the first callback, and then the consumer's
-- offset.
pub record Inv (messages : List ℤ) (c : Consuming) : Type 0 where
  pub current : ℤ
  pub consumer : c.stream.consumer ≡ some current
  pub each :
      (o : ℤ) → Listed o messages → Listed o c.begun ⊎ (Listed o c.filtered ⊎ Listed o c.coming)
  pub returned : (o : ℤ) → Listed o c.begun → (c.handling ≡ some o) ⊎ Listed o c.handled
  pub busy : (o : ℤ) → c.handling ≡ some o → o ≡ current
  pub ordered : Ascending c.coming
  pub ahead : All (λ o. ltb_ℤ o (position c.stream) ≡ false) c.coming
  pub at : (c.begun ≡ []) ⊎ (ltb_ℤ current c.stream.start ≡ false)

started-Inv : (c : Consuming) → IsStarted c → Inv c.coming c
started-Inv c s =
    let (o, made, low) = s.consumer in
    record {
      current = o;
      consumer = made;
      each = λ a l. inr (inr l);
      returned = λ a l. absurd (subst (Listed a) s.begun l);
      busy = λ a e. cc (s.handling);
      ordered = s.ordered;
      ahead =
          subst (λ (p : ℤ). All (λ o. ltb_ℤ o p ≡ false) c.coming)
            (sym (position_start c.stream o made low)) s.from_start;
      at = inl s.begun;
    }

-- Taking the next message off what is to come.
each_begun :
    (o offset : ℤ) (begun filtered coming later : List ℤ)
    → coming ≡ offset ∷ later
    → Listed o begun ⊎ (Listed o filtered ⊎ Listed o coming)
    → Listed o (offset ∷ begun) ⊎ (Listed o filtered ⊎ Listed o later)
each_begun o offset begun filtered coming later e (inl l) = inl (inr l)
each_begun o offset begun filtered coming later e (inr (inl l)) = inr (inl l)
each_begun o offset begun filtered coming later e (inr (inr l)) = elim (subst (Listed o) e l) [
  | inl same ↦ inl (inl same)
  | inr more ↦ inr (inr more)
]

each_filtered :
    (o offset : ℤ) (begun filtered coming later : List ℤ)
    → coming ≡ offset ∷ later
    → Listed o begun ⊎ (Listed o filtered ⊎ Listed o coming)
    → Listed o begun ⊎ (Listed o (offset ∷ filtered) ⊎ Listed o later)
each_filtered o offset begun filtered coming later e (inl l) = inl l
each_filtered o offset begun filtered coming later e (inr (inl l)) = inr (inl (inr l))
each_filtered o offset begun filtered coming later e (inr (inr l)) = elim (subst (Listed o) e l) [
  | inl same ↦ inr (inl (inl same))
  | inr more ↦ inr (inr more)
]

step-Inv : {messages : List ℤ} {c d : Consuming} → Step c d → Inv messages c → Inv messages d
step-Inv (begin c offset later idle next_one) i =
    let (above, ordered) = subst Ascending next_one i.ordered in
    let (here_on, rest) = subst (All (λ o. ltb_ℤ o (position c.stream) ≡ false)) next_one i.ahead in
    let low : ltb_ℤ offset c.stream.start ≡ false = position-from_start c.stream offset here_on in
    record {
      current = offset;
      consumer = refl;
      each = λ o l. each_begun o offset c.begun c.filtered c.coming later next_one (i.each o l);
      returned = λ o l. ground (arith, i.returned o);
      busy = λ o e. cc;
      ordered = ordered;
      ahead =
          subst (λ (p : ℤ). All (λ o. ltb_ℤ o p ≡ false) later)
            (sym (position_lem (record c.stream { consumer = some offset }) offset refl low))
            (All-map _ _ later (λ b h. ltb_ℤ-asym offset b h) above);
      at = inr low;
    }
step-Inv (finish c offset at_work) i = record {
  current = i.current;
  consumer = i.consumer;
  each = i.each;
  returned = λ o l. ground (arith, i.returned o);
  busy = λ o e. cc;
  ordered = i.ordered;
  ahead = i.ahead;
  at = i.at;
}
step-Inv (skip c offset later idle next_one) i = record {
  current = i.current;
  consumer = i.consumer;
  each = λ o l. each_filtered o offset c.begun c.filtered c.coming later next_one (i.each o l);
  returned = i.returned;
  busy = i.busy;
  ordered = (subst Ascending next_one i.ordered).1;
  ahead = (subst (All (λ o. ltb_ℤ o (position c.stream) ≡ false)) next_one i.ahead).1;
  at = i.at;
}

Reach-Inv : {messages : List ℤ} {c d : Consuming} → Reach c d → Inv messages c → Inv messages d
Reach-Inv here i = i
Reach-Inv (next r s) i = step-Inv s (Reach-Inv r i)

-- What has begun below the position is not what is being handled.
handled_of_below :
    {messages : List ℤ} (c : Consuming) (i : Inv messages c) (o : ℤ)
    → Listed o c.begun
    → ltb_ℤ o (position c.stream) ≡ true
    → Listed o c.handled
handled_of_below c i o l below = elim (i.returned o l) [
  | inr h ↦ h
  | inl work ↦ elim i.at [
    | inl none_yet ↦ absurd (subst (Listed o) none_yet l)
    | inr low ↦
        let same : o ≡ i.current = i.busy o work in
        let now : position c.stream ≡ i.current = position_lem c.stream i.current i.consumer low in
        absurd (cc (same, now, below, ltb_ℤ-irrefl i.current))
  ]
]

-- While a consumer runs that dispatches messages with increasing offsets from its start on, one at a
-- time, each of these messages below the position has been handled, that is the handler was called and has
-- returned, since the message was received from the channel, dropped, or the context was done; or it was
-- filtered out by the client. The offset of the consumer is at first not past its start.
pub position-handled :
    (c d : Consuming) (o : ℤ)
    → IsStarted c
    → Reach c d
    → Listed o c.coming
    → ltb_ℤ o (position d.stream) ≡ true
    → Listed o d.handled ⊎ Listed o d.filtered
position-handled c d o s r l below =
    let i : Inv c.coming d = Reach-Inv r (started-Inv c s) in
    elim (i.each o l) [
      | inl begun ↦ inl (handled_of_below d i o begun below)
      | inr (inl filtered) ↦ inr filtered
      | inr (inr later) ↦
          absurd
            (cc (below, All-at (λ a. ltb_ℤ a (position d.stream) ≡ false) d.coming i.ahead later))
    ]
