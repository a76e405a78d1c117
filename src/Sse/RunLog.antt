-- ===== src/Sse/RunLog.antt =====
-- The log of the bus and the log of one run, as the streams of internal/stream/rabbitmq.go deliver it
-- to pkg/sse/v2alpha/sse.go.
use etos_api.Prelude.{
  ◌+◌, true, Option, none, some, List, [], ◌∷◌, ◌≡◌, ◌≢◌, refl, ap, ◌∙◌, arith, Text, codes, All, ℤ,
  pos, ltb_ℤ, false, inl, inr, Bool-cases, if◌then◌else◌,
}
use etos_api.Stream.{Message}
use etos_api.Stream.Rabbit.{
  AmqpMessage, RabbitMqStream, property, as_string, event_name, opened, new_stream,
}
use etos_api.Stream.Rabbit.Scoping.{
  Client, IsWanted, configure, consume, payload, consume-IsWanted, consume_of_IsWanted,
}
use etos_api.Sse.Log.{InOrder, InOrder-trans, from}

-- The log of the bus: the messages of all runs, with their offsets.
abbrev pub Bus : Type 0
Bus = List (ℤ × AmqpMessage)

unfoldable pub payloads : Bus → List Message
payloads [] = []
payloads ((offset, m) ∷ bus) = payload offset m ∷ payloads bus

abbrev onto : Option Message → List Message → List Message
onto none rest = rest
onto (some m) rest = m ∷ rest

-- What a stream sends on its channel when it is read to the end of the bus.
unfoldable pub delivered : Client → RabbitMqStream → Bus → List Message
unfolding consume
delivered client s [] = []
delivered client s ((offset, m) ∷ bus) =
    onto (consume client s true offset m) (delivered client s bus)

-- The log of one run, without a word of how a stream filters: the messages with data that belong to
-- it and that the filter names.
pub data RunLog (identifier : Text) (filter : List Text) : Bus → List Message → Type 0 where
  at_end : RunLog identifier filter [] []
  wanted :
      {bus : Bus} {log : List Message} (offset : ℤ) (m : AmqpMessage)
      → IsWanted identifier filter m
      → m.sections ≢ []
      → RunLog identifier filter bus log
      → RunLog identifier filter ((offset, m) ∷ bus) (payload offset m ∷ log)
  unwanted :
      {bus : Bus} {log : List Message} (offset : ℤ) (m : AmqpMessage)
      → (IsWanted identifier filter m → m.sections ≢ [] → ⊥)
      → RunLog identifier filter bus log
      → RunLog identifier filter ((offset, m) ∷ bus) log

-- Each message of the run was published with its qualified name as filter value.
abbrev pub IsPublished : Client → Text → Bus → Type 0
IsPublished client identifier bus =
    All
      (λ b.
        as_string (property (codes "identifier") b.1.application_properties) ≡ some identifier
        → client.filter_value b.1 ≡ event_name identifier b.1)
      bus

onto-none :
    (o : Option Message) (rest : List Message)
    → ((sent : Message) → o ≡ some sent → ⊥)
    → onto o rest ≡ rest
onto-none none rest h = refl
onto-none (some m) rest h = elim (h m refl) [ ]

module _ (client : Client) (identifier : Text) (filter : List Text) {s : RabbitMqStream}
    (fresh : new_stream (some true) identifier ≡ opened s) where
  pub delivered-RunLog :
      (start : ℤ) {bus : Bus} {log : List Message}
      → IsPublished client identifier bus
      → RunLog identifier filter bus log
      → delivered client (configure start filter s) bus ≡ log
  unfolding delivered
  delivered-RunLog start p at_end = refl
  delivered-RunLog start p (wanted {bus} {log} offset m w full rest) =
      ap (λ (o : Option Message). onto o (delivered client (configure start filter s) bus))
        (consume_of_IsWanted client identifier filter start s offset m fresh (p.0 w.own) w full)
      ∙ ap (λ (ms : List Message). payload offset m ∷ ms) (delivered-RunLog start p.1 rest)
  delivered-RunLog start p (unwanted {bus} {log} offset m not_wanted rest) =
      onto-none (consume client (configure start filter s) true offset m) _ (λ sent e.
        let (w, full, same) =
          consume-IsWanted client identifier filter start s true offset m sent fresh e in
        not_wanted w full)
      ∙ delivered-RunLog start p.1 rest

pub RunLog-InOrder :
    {identifier : Text} {filter : List Text} (low : ℤ) {bus : Bus} {log : List Message}
    → RunLog identifier filter bus log
    → InOrder low (payloads bus)
    → InOrder low log
unfolding payloads
RunLog-InOrder low at_end o = o
RunLog-InOrder low (wanted offset m w full rest) (n, e, fits, ge, o) =
    (n, e, fits, ge, RunLog-InOrder (pos (n + 1)) rest o)
RunLog-InOrder low (unwanted {bus} {log} offset m not_wanted rest) (n, e, fits, ge, o) =
    InOrder-trans low (pos (n + 1)) log (ground arith) (RunLog-InOrder (pos (n + 1)) rest o)

-- The messages of the bus from an offset on.
unfoldable pub bus_from : ℤ → Bus → Bus
bus_from low [] = []
bus_from low ((offset, m) ∷ bus) =
    let rest = bus_from low bus in if ltb_ℤ offset low then rest else (offset, m) ∷ rest

pub bus_from-from :
    (bus : Bus) (low high : ℤ)
    → ltb_ℤ high low ≡ false
    → bus_from high (bus_from low bus) ≡ bus_from high bus
unfolding bus_from
bus_from-from [] low high h = refl
bus_from-from ((offset, m) ∷ bus) low high h = ground (arith, bus_from-from bus low high h)

pub RunLog-from :
    {identifier : Text} {filter : List Text} (low : ℤ) {bus : Bus} {log : List Message}
    → RunLog identifier filter bus log
    → RunLog identifier filter (bus_from low bus) (from low log)
unfolding bus_from from
RunLog-from low at_end = at_end
RunLog-from low (wanted {bus} {log} offset m w full rest) = elim (Bool-cases (ltb_ℤ offset low)) [
  | inl early ↦ rw early (RunLog-from low rest)
  | inr late ↦ rw late (wanted offset m w full (RunLog-from low rest))
]
RunLog-from low (unwanted {bus} {log} offset m not_wanted rest) =
    elim (Bool-cases (ltb_ℤ offset low)) [
      | inl early ↦ rw early (RunLog-from low rest)
      | inr late ↦ rw late (unwanted offset m not_wanted (RunLog-from low rest))
    ]

pub IsPublished-from :
    (client : Client) (identifier : Text) (low : ℤ) (bus : Bus)
    → IsPublished client identifier bus
    → IsPublished client identifier (bus_from low bus)
unfolding bus_from
IsPublished-from client identifier low [] p = tt
IsPublished-from client identifier low ((offset, m) ∷ bus) (p, ps) =
    elim (Bool-cases (ltb_ℤ offset low)) [
      | inl early ↦ rw early (IsPublished-from client identifier low bus ps)
      | inr late ↦ rw late (p, IsPublished-from client identifier low bus ps)
    ]
