-- ===== src/Stream/Rabbit/Consuming.antt =====
-- The consumer of internal/stream/rabbitmq.go as a step relation for the callbacks of the client. The
-- consumer sets its offset before it calls the handler, the handler returns when the message was
-- received or dropped, and then the next message is dispatched, or filtered out by the client.
use etos_api.Prelude.{
  true, false, Option, none, some, List, [], ◌∷◌, ◌≡◌, ◌⊎◌, inl, inr, ℤ, ltb_ℤ, All,
}
use mathlib.Core.Path.{subst}
use etos_api.Stream.Rabbit.{RabbitMqStream}

-- `coming` has the offsets of the messages that the client has still to dispatch, `filtered` of those
-- that it dropped by its filter, without a call of the handler, `begun` and `handled` of those for
-- which the handler was called, and has returned.
pub record Consuming : Type 0 where
  pub stream : RabbitMqStream
  pub handling : Option ℤ
  pub coming : List ℤ
  pub filtered : List ℤ
  pub begun : List ℤ
  pub handled : List ℤ

pub data Step : Consuming → Consuming → Type 0 where
  begin :
      (c : Consuming) (offset : ℤ) (later : List ℤ)
      → c.handling ≡ none
      → c.coming ≡ offset ∷ later
      → Step c (record c {
        stream = record c.stream { consumer = some offset };
        handling = some offset;
        coming = later;
        begun = offset ∷ c.begun;
      })
  finish :
      (c : Consuming) (offset : ℤ)
      → c.handling ≡ some offset
      → Step c (record c { handling = none; handled = offset ∷ c.handled })
  skip :
      (c : Consuming) (offset : ℤ) (later : List ℤ)
      → c.handling ≡ none
      → c.coming ≡ offset ∷ later
      → Step c (record c { coming = later; filtered = offset ∷ c.filtered })

pub data Reach (c : Consuming) : Consuming → Type 0 where
  here : Reach c c
  next : {d e : Consuming} → Reach c d → Step d e → Reach c e

abbrev pub Ascending : List ℤ → Type 0
Ascending [] = Unit
Ascending (a ∷ bs) = All (λ b. ltb_ℤ a b ≡ true) bs × Ascending bs

-- A consumer that was just made: no callback yet, its own offset is not past the start, and the
-- messages that it is to dispatch have increasing offsets from the start on.
pub record IsStarted (c : Consuming) : Type 0 where
  pub consumer : (o : ℤ) × (c.stream.consumer ≡ some o) × (ltb_ℤ c.stream.start o ≡ false)
  pub handling : c.handling ≡ none
  pub begun : c.begun ≡ []
  pub ordered : Ascending c.coming
  pub from_start : All (λ o. ltb_ℤ o c.stream.start ≡ false) c.coming

abbrev pub Listed : ℤ → List ℤ → Type 0
Listed a [] = ⊥
Listed a (b ∷ bs) = (b ≡ a) ⊎ Listed a bs

pub All-at : (P : ℤ → Type 0) {a : ℤ} (bs : List ℤ) → All P bs → Listed a bs → P a
All-at P [] h l = elim l [ ]
All-at P (b ∷ bs) (p, h) (inl e) = subst P e p
All-at P (b ∷ bs) (p, h) (inr l) = All-at P bs h l
