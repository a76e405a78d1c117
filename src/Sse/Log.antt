-- ===== src/Sse/Log.antt =====
-- The log of a stream, as pkg/sse/v2alpha/sse.go relies on it: messages whose offsets increase, and
-- its parts from an offset on and below an offset.
use etos_api.Prelude.{
  ℕ, ◌+◌, ◌≤◌, ◌<◌, false, List, [], ◌∷◌, ◌++◌, ◌≡◌, refl, inl, inr, arith, ltb_ℤ, All, ℤ, pos,
  max_int64, Bool-cases, if◌then◌else◌,
}
use etos_api.Stream.{Message}

-- Offsets that increase, from `low` on, below the largest int64.
abbrev pub InOrder : ℤ → List Message → Type 0
InOrder low [] = Unit
InOrder low (m ∷ ms) =
    (n : ℕ) × (m.offset ≡ pos n)
    × (n < max_int64)
    × (ltb_ℤ (pos n) low ≡ false)
    × InOrder (pos (n + 1)) ms

-- The messages from an offset on, and those below it.
unfoldable pub from : ℤ → List Message → List Message
from low [] = []
from low (m ∷ ms) = let rest = from low ms in if ltb_ℤ m.offset low then rest else m ∷ rest

unfoldable pub below : ℤ → List Message → List Message
below high [] = []
below high (m ∷ ms) = let rest = below high ms in if ltb_ℤ m.offset high then m ∷ rest else rest

pub from-from :
    (ms : List Message) (low high : ℤ)
    → ltb_ℤ high low ≡ false
    → from high (from low ms) ≡ from high ms
unfolding from
from-from [] low high h = refl
from-from (m ∷ ms) low high h = ground (arith, from-from ms low high h)

pub InOrder-weaken :
    (low high : ℤ) (ms : List Message)
    → All (λ m. ltb_ℤ m.offset high ≡ false) ms
    → InOrder low ms
    → InOrder high ms
InOrder-weaken low high [] h o = tt
InOrder-weaken low high (m ∷ ms) (h, _) (n, e, fits, ge, o) = (n, e, fits, ground arith, o)

pub InOrder-trans :
    (low high : ℤ) (ms : List Message) → ltb_ℤ high low ≡ false → InOrder high ms → InOrder low ms
InOrder-trans low high [] h o = tt
InOrder-trans low high (m ∷ ms) h (n, e, fits, ge, o) = (n, e, fits, ground arith, o)

pub below_of_InOrder :
    (low high : ℤ) (ms : List Message)
    → ltb_ℤ low high ≡ false
    → InOrder low ms
    → below high ms ≡ []
unfolding below
below_of_InOrder low high [] h o = refl
below_of_InOrder low high (m ∷ ms) h (n, e, fits, ge, o) =
    ground (arith, below_of_InOrder (pos (n + 1)) high ms)

pub from_of_InOrder :
    (low : ℤ) (n : ℕ) (ms : List Message)
    → ltb_ℤ low (pos n) ≡ false
    → InOrder low ms
    → from (pos n) ms ≡ ms
unfolding from
from_of_InOrder low n [] h o = refl
from_of_InOrder low n (m ∷ ms) h (k, e, fits, ge, o) =
    ground (arith, from_of_InOrder (pos (k + 1)) n ms)

pub from_start :
    (low high : ℤ) (ms : List Message) → ltb_ℤ low high ≡ false → InOrder low ms → from high ms ≡ ms
unfolding from
from_start low high [] h o = refl
from_start low high (m ∷ ms) h (n, e, fits, ge, o) =
    ground (arith, from_start (pos (n + 1)) high ms)

pub from-InOrder :
    (low : ℤ) (n : ℕ) (ms : List Message) → InOrder low ms → InOrder (pos n) (from (pos n) ms)
unfolding from
from-InOrder low n [] o = tt
from-InOrder low n (m ∷ ms) (k, e, fits, ge, o) = elim (Bool-cases (ltb_ℤ m.offset (pos n))) [
  | inl early ↦ rw early (from-InOrder (pos (k + 1)) n ms o)
  | inr late ↦
      rw late (k, e, fits, ground arith, rw (from_of_InOrder (pos (k + 1)) n ms (ground arith) o) o)
]

-- What lies between two ids, in two pieces.
pub below-from :
    (low : ℤ) (n k h : ℕ) (ms : List Message)
    → n ≤ k
    → k ≤ h
    → InOrder low ms
    → below (pos k) (from (pos n) ms) ++ below (pos h) (from (pos k) ms)
      ≡ below (pos h) (from (pos n) ms)
unfolding from below
below-from low n k h [] p q o = refl
below-from low n k h (m ∷ ms) p q (x, e, fits, ge, o) = ground (
  arith,
  below-from (pos (x + 1)) n k h ms p q o,
  from_of_InOrder (pos (x + 1)) n ms,
  from_of_InOrder (pos (x + 1)) k ms,
  below_of_InOrder (pos (x + 1)) (pos k) ms,
)
