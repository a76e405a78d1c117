-- ===== src/Sse/Subscribe/Resuming.antt =====
-- A client that reconnects with the id of the last event that it has seen: what it receives over
-- all its connections to `subscribe` of pkg/sse/v2alpha/sse.go.
use mathlib.Core.Path.{subst}
use etos_api.Prelude.{
  ℕ, ◌≤◌, Bool, false, Option, none, some, List, [], ◌∷◌, ◌++◌, ◌≡◌, refl, sym, ap, ◌∙◌, arith,
  ltb_ℤ, Text, ℤ, pos, negsuc, if◌then◌else◌,
}
use etos_api.Stream.{Message}
use etos_api.Events.{Event, JsonCodec, is_zero}
use etos_api.Sse.Log.{
  InOrder, from, below, below_of_InOrder, from_of_InOrder, from-InOrder, below-from,
}
use etos_api.Sse.Subscribe.{Sent, forwarded, ping, failure, Choice, accept, Setup, subscribe}
use etos_api.Sse.Subscribe.Account.{
  id_of, last_seen, forwarded_of, onto, accepted, subscribe-Accounts,
}
use etos_api.Sse.Subscribe.Induction.{Follows}

pos_of_ge : (z : ℤ) (n : ℕ) → ltb_ℤ z (pos n) ≡ false → (k : ℕ) × (z ≡ pos k) × (n ≤ k)
pos_of_ge (pos k) n h = (k, refl, ground arith)
pos_of_ge (negsuc k) n h = cc

module _ (codec : JsonCodec) (validate : Text → Bool) where
  -- The connections of one client, each opened with the last id seen, and all that they send.
  unfoldable pub received : List (Setup × List Choice) → ℤ → List Sent
  received [] seen = []
  received ((setup, choices) ∷ connections) seen =
      let sent = subscribe codec validate setup choices seen in
      sent ++ received connections (last_seen seen sent)

  -- Each connection is served by a stream that delivers the log from the id on with which it opens.
  unfoldable pub AllFollow : List (Setup × List Choice) → ℤ → List Message → Type 0
  AllFollow [] seen log = Unit
  AllFollow ((setup, choices) ∷ connections) seen log =
      Follows choices (from seen log)
      × AllFollow connections (last_seen seen (subscribe codec validate setup choices seen)) log

  last_seen-append :
      (seen : ℤ) (s t : List Sent) → last_seen seen (s ++ t) ≡ last_seen (last_seen seen s) t
  unfolding last_seen
  last_seen-append seen [] t = refl
  last_seen-append seen (x ∷ s) t =
      last_seen-append (if is_zero (id_of x) then seen else id_of x) s t

  forwarded_of-append : (s t : List Sent) → forwarded_of (s ++ t) ≡ forwarded_of s ++ forwarded_of t
  unfolding forwarded_of
  forwarded_of-append [] t = refl
  forwarded_of-append (forwarded e ∷ s) t = ap (λ (r : List Event). e ∷ r) (forwarded_of-append s t)
  forwarded_of-append (ping id ∷ s) t = forwarded_of-append s t
  forwarded_of-append (failure retry reason ∷ s) t = forwarded_of-append s t

  onto-append :
      (o : Option Event) (s t : List Event)
      → onto codec validate o (s ++ t) ≡ onto codec validate o s ++ t
  onto-append none s t = refl
  onto-append (some e) s t = refl

  accepted-append :
      (ms ns : List Message)
      → accepted codec validate (ms ++ ns)
        ≡ accepted codec validate ms ++ accepted codec validate ns
  unfolding accepted
  accepted-append [] ns = refl
  accepted-append (m ∷ ms) ns =
      ap (onto codec validate (accept codec validate m)) (accepted-append ms ns)
      ∙ onto-append (accept codec validate m) (accepted codec validate ms)
          (accepted codec validate ns)

  -- All connections together, from the id with which the first one opens.
  record Received (log : List Message) (n : ℕ) (sent : List Sent) : Type 0 where
    last : ℕ
    seen : last_seen (pos n) sent ≡ pos last
    grows : n ≤ last
    complete : forwarded_of sent ≡ accepted codec validate (below (pos last) (from (pos n) log))

  one_more :
      (log : List Message) (n k : ℕ) (first_sent later : List Sent)
      → InOrder (pos 0) log
      → last_seen (pos n) first_sent ≡ pos k
      → n ≤ k
      → forwarded_of first_sent ≡ accepted codec validate (below (pos k) (from (pos n) log))
      → Received log k later
      → Received log n (first_sent ++ later)
  one_more log n k first_sent later o seen le all r = record {
    last = r.last;
    seen =
        last_seen-append (pos n) first_sent later ∙ ap (λ (i : ℤ). last_seen i later) seen ∙ r.seen;
    grows = omega (arith, r.grows);
    complete =
        forwarded_of-append first_sent later
        ∙ rw (all, r.complete)
            (sym (accepted-append _ _)
              ∙ ap (accepted codec validate) (below-from (pos 0) n k r.last log le r.grows o));
  }

  received-Received :
      (connections : List (Setup × List Choice)) (log : List Message) (n : ℕ)
      → InOrder (pos 0) log
      → AllFollow connections (pos n) log
      → Received log n (received connections (pos n))
  unfolding received AllFollow
  received-Received [] log n o f = record {
    last = n;
    seen = unfold last_seen in refl;
    grows = omega arith;
    complete =
        rw
          (below_of_InOrder (pos n) (pos n) (from (pos n) log) (ground arith)
            (from-InOrder (pos 0) n log o))
          (unfold forwarded_of accepted in refl);
  }
  received-Received ((setup, choices) ∷ connections) log n o (f, fs) =
      let sent = subscribe codec validate setup choices (pos n) in
      let a =
        subscribe-Accounts codec validate setup choices (from (pos n) log) n
          (from-InOrder (pos 0) n log o) f in
      let (k, seen, le) = pos_of_ge (last_seen (pos n) sent) n a.grows in
      subst (λ (z : ℤ). Received log n (sent ++ received connections z)) (sym seen)
        (one_more log n k sent (received connections (pos k)) o seen le
          (a.complete ∙ ap (λ (z : ℤ). accepted codec validate (below z (from (pos n) log))) seen)
          (received-Received connections log k o
            (subst (λ (z : ℤ). AllFollow connections z log) seen fs)))

-- A client that always reconnects with the last id that it has seen receives, over all its
-- connections, exactly the messages below that id that are not dropped, each once and in order,
-- with none missing in between. The choices of each connection follow a stream that delivers the
-- log from the id of the connection on, and the log has increasing offsets below the largest int64.
pub received_complete :
    (codec : JsonCodec) (validate : Text → Bool) (connections : List (Setup × List Choice))
    (log : List Message)
    → InOrder (pos 0) log
    → AllFollow codec validate connections (pos 0) log
    → forwarded_of (received codec validate connections (pos 0))
      ≡ accepted codec validate
          (below (last_seen (pos 0) (received codec validate connections (pos 0))) log)
received_complete codec validate connections log o f =
    let r = received-Received codec validate connections log 0 o f in
    r.complete
    ∙ ap (λ (ms : List Message). accepted codec validate (below (pos r.last) ms))
        (from_of_InOrder (pos 0) 0 log refl o)
    ∙ ap (λ (z : ℤ). accepted codec validate (below z log)) (sym r.seen)
