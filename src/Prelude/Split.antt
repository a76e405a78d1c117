-- ===== src/Prelude/Split.antt =====
-- The laws of `strings.Split` and `strings.Join` at a separator of one byte.
use Prim.Native.Nat.{ℕ}
use mathlib.Core.Path.{◌≡◌, refl, sym, ap, ◌∙◌}
use mathlib.Core.Logic.{◌≢◌, inl, inr}
use mathlib.Core.List.{List, [], ◌∷◌, ◌++◌}
use native.Mathlib.Omega.{arith}
use etos_api.Prelude.Tests.{◌==◌, ==_iff, Bool-cases}
use etos_api.Prelude.Lists.{All}
use etos_api.Prelude.Bytes.{Text, split, join, onto_first, Lacks}

join-onto_first :
    (sep c : ℕ) (parts : List Text) → join sep (onto_first c parts) ≡ c ∷ join sep parts
unfolding join
join-onto_first sep c [] = refl
join-onto_first sep c (part ∷ []) = refl
join-onto_first sep c (part ∷ next ∷ parts) = refl

pub split-ne-nil : (sep : ℕ) (s : Text) → split sep s ≢ []
unfolding split
split-ne-nil sep [] = cc
split-ne-nil sep (c ∷ s) = elim (Bool-cases (c == sep)) [
  | inl here ↦ rw here (cc)
  | inr other ↦ rw other (onto_first-ne-nil (split sep s))
]
  where
    onto_first-ne-nil : (parts : List Text) → onto_first c parts ≢ []
    onto_first-ne-nil [] = cc
    onto_first-ne-nil (part ∷ parts) = cc

join-cons :
    (sep : ℕ) (part : Text) (parts : List Text)
    → parts ≢ []
    → join sep (part ∷ parts) ≡ part ++ sep ∷ join sep parts
unfolding join
join-cons sep part [] h = absurd (h refl)
join-cons sep part (next ∷ parts) h = refl

-- Joining what was split gives the text back.
pub join-split : (sep : ℕ) (s : Text) → join sep (split sep s) ≡ s
unfolding split
join-split sep [] = unfold join in refl
join-split sep (c ∷ s) = elim (Bool-cases (c == sep)) [
  | inl here ↦ rw here (
      join-cons sep [] (split sep s) (split-ne-nil sep s)
      ∙ rw (join-split sep s) (ap (λ (d : ℕ). d ∷ s) (sym ((==_iff c sep).0 here))))
  | inr other ↦ rw other (join-onto_first sep c (split sep s) ∙ rw (join-split sep s))
]

pub split-Lacks : (sep : ℕ) (s : Text) → Lacks sep s → split sep s ≡ s ∷ []
unfolding split
split-Lacks sep [] h = refl
split-Lacks sep (c ∷ s) (p, h) = ground (arith, split-Lacks sep s h)

-- A text without the separator in front of one more separator is the first part.
pub split-append : (sep : ℕ) (s t : Text) → Lacks sep s → split sep (s ++ sep ∷ t) ≡ s ∷ split sep t
unfolding split
split-append sep [] t h = ground arith
split-append sep (c ∷ s) t (p, h) = ground (arith, split-append sep s t h)

-- Splitting what was joined gives the parts back, if there is one and none holds the separator.
pub split-join :
    (sep : ℕ) (part : Text) (parts : List Text)
    → Lacks sep part
    → All (Lacks sep) parts
    → split sep (join sep (part ∷ parts)) ≡ part ∷ parts
unfolding join
split-join sep part [] h k = split-Lacks sep part h
split-join sep part (next ∷ parts) h (p, k) =
    split-append sep part (join sep (next ∷ parts)) h
    ∙ ap (λ (r : List Text). part ∷ r) (split-join sep next parts p k)

onto_first-Lacks :
    (sep c : ℕ) (parts : List Text)
    → c ≢ sep
    → All (Lacks sep) parts
    → All (Lacks sep) (onto_first c parts)
onto_first-Lacks sep c [] h k = ((h, tt), tt)
onto_first-Lacks sep c (part ∷ parts) h (p, k) = ((h, p), k)

-- No part of a split text holds the separator.
pub split-All-Lacks : (sep : ℕ) (s : Text) → All (Lacks sep) (split sep s)
unfolding split
split-All-Lacks sep [] = (tt, tt)
split-All-Lacks sep (c ∷ s) = elim (Bool-cases (c == sep)) [
  | inl here ↦ rw here (tt, split-All-Lacks sep s)
  | inr other ↦
      rw other (onto_first-Lacks sep c (split sep s) (ground arith) (split-All-Lacks sep s))
]

pub Lacks-append : (sep : ℕ) (s t : Text) → Lacks sep s → Lacks sep t → Lacks sep (s ++ t)
Lacks-append sep [] t h k = k
Lacks-append sep (c ∷ s) t (p, h) k = (p, Lacks-append sep s t h k)
