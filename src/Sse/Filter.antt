-- ===== src/Sse/Filter.antt =====
-- `cleanFilter` of pkg/sse/v2alpha/sse.go, with the filter of internal/stream/rabbitmq.go.
use etos_api.Prelude.{
  true, false, List, [], ◌∷◌, ◌++◌, ◌≡◌, ◌↔◌, ◌⊎◌, inl, inr, refl, ap, arith, Text, In, Lacks,
  length, split, ◌==◌, Bool-cases, if◌then◌else◌, ◌∙◌,
}
use etos_api.Prelude.Split.{split-append, split-Lacks}
use etos_api.Stream.Rabbit.{qualified}

abbrev pub dotted : Text → Text → Text
dotted a b = a ++ b'.' ∷ b

-- One filter: a name that has not three parts is taken as one of the run.
unfoldable pub qualify : Text → Text → Text
qualify identifier filter =
    if length (split b'.' filter) == 3 then filter else dotted identifier filter

unfoldable pub clean_filter : Text → List Text → List Text
unfolding qualify
clean_filter identifier [] = []
clean_filter identifier (filter ∷ filters) =
    qualify identifier filter ∷ clean_filter identifier filters

dotted-injective : (a b c : Text) → dotted a b ≡ dotted a c → b ≡ c
dotted-injective [] b c e = cc
dotted-injective (x ∷ a) b c e = dotted-injective a b c (ground arith)

three_parts :
    (a b c : Text)
    → Lacks b'.' a
    → Lacks b'.' b
    → Lacks b'.' c
    → split b'.' (qualified a b c) ≡ a ∷ b ∷ c ∷ []
three_parts a b c ha hb hc =
    split-append b'.' a (dotted b c) ha
    ∙ ap (λ (r : List Text). a ∷ r)
        (split-append b'.' b c hb ∙ ap (λ (r : List Text). b ∷ r) (split-Lacks b'.' c hc))

two_parts : (b c : Text) → Lacks b'.' b → Lacks b'.' c → split b'.' (dotted b c) ≡ b ∷ c ∷ []
two_parts b c hb hc =
    split-append b'.' b c hb ∙ ap (λ (r : List Text). b ∷ r) (split-Lacks b'.' c hc)

module _ (identifier event_type meta : Text) (hi : Lacks b'.' identifier)
    (ht : Lacks b'.' event_type) (hm : Lacks b'.' meta) where
  abbrev name : Text
  name = qualified identifier event_type meta

  name_has_three : (filter : Text) → filter ≡ name → (length (split b'.' filter) == 3) ≡ true
  name_has_three filter e =
      ap (λ (f : Text). length (split b'.' f) == 3) e
      ∙ ap (λ (parts : List Text). length parts == 3)
          (three_parts identifier event_type meta hi ht hm)

  short_has_two :
      (filter : Text) → filter ≡ dotted event_type meta → (length (split b'.' filter) == 3) ≡ false
  short_has_two filter e =
      ap (λ (f : Text). length (split b'.' f) == 3) e
      ∙ ap (λ (parts : List Text). length parts == 3) (two_parts event_type meta ht hm)

  -- A filter is cleaned to the event's name exactly if it is the name, or its last two parts.
  qualify_iff :
      (filter : Text)
      → (qualify identifier filter ≡ name) ↔ ((filter ≡ dotted event_type meta) ⊎ (filter ≡ name))
  unfolding qualify
  qualify_iff filter = elim (Bool-cases (length (split b'.' filter) == 3)) [
    | inl three ↦ (
      λ e. inr (rw three at e),
      elim [ inl e ↦ cc (three, short_has_two filter e) | inr e ↦ rw three e ],
    )
    | inr other ↦ (
      λ e. inl (dotted-injective identifier filter (dotted event_type meta) (rw other at e)),
      elim [
        | inl e ↦ rw other (ap (dotted identifier) e)
        | inr e ↦ cc (other, name_has_three filter e)
      ],
    )
  ]

  clean_filter_sound :
      (filters : List Text)
      → In name (clean_filter identifier filters)
      → In (dotted event_type meta) filters ⊎ In name filters
  unfolding clean_filter
  clean_filter_sound [] h = elim h [ ]
  clean_filter_sound (f ∷ fs) (inl e) = elim ((qualify_iff f).0 e) [
    | inl short ↦ inl (inl short)
    | inr full ↦ inr (inl full)
  ]
  clean_filter_sound (f ∷ fs) (inr h) = elim (clean_filter_sound fs h) [
    | inl short ↦ inl (inr short)
    | inr full ↦ inr (inr full)
  ]

  clean_filter_complete :
      (filters : List Text) (given : Text)
      → (given ≡ dotted event_type meta) ⊎ (given ≡ name)
      → In given filters
      → In name (clean_filter identifier filters)
  unfolding clean_filter
  clean_filter_complete [] given g h = elim h [ ]
  clean_filter_complete (f ∷ fs) given g (inl e) = inl ((qualify_iff f).1 (ground (arith, g, e)))
  clean_filter_complete (f ∷ fs) given g (inr h) = inr (clean_filter_complete fs given g h)

-- If the run's identifier, the type and the meta hold no dot, the cleaned filters name an event of the
-- run exactly if the query names it: by its type and meta, or by its full name.
pub clean_filter_iff :
    (identifier event_type meta : Text) (filters : List Text)
    → Lacks b'.' identifier
    → Lacks b'.' event_type
    → Lacks b'.' meta
    → In (qualified identifier event_type meta) (clean_filter identifier filters)
      ↔ (In (dotted event_type meta) filters ⊎ In (qualified identifier event_type meta) filters)
clean_filter_iff identifier event_type meta filters hi ht hm = (
  clean_filter_sound identifier event_type meta hi ht hm filters,
  elim [
    | inl h ↦ clean_filter_complete identifier event_type meta hi ht hm filters _ (inl refl) h
    | inr h ↦ clean_filter_complete identifier event_type meta hi ht hm filters _ (inr refl) h
  ],
)
