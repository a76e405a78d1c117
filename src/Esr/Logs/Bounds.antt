-- ===== src/Esr/Logs/Bounds.antt =====
-- The index of the slice in `Subscribe` of pkg/sse/v1alpha/sse.go.
use etos_api.Prelude.{
  ℕ, zero, suc, ◌≤◌, ◌≡◌, ◌≢◌, refl, sym, ap, ◌∙◌, ◌↔◌, inl, inr, true, false, List, [], ◌∷◌, arith,
  Text, leb, length, ℤ, pos, negsuc, dec64, max_int64, Bool-cases, ◌==◌, ==_iff, leb→le,
}
use mathlib.Core.Path.{subst}
use etos_api.Esr.{failed, body, scan}
use etos_api.Esr.Logs.{
  Choice, done, ping, tick, panicked, Slice, skipped, out_of_range, slice_from, send_slice,
  subscribe,
}
use etos_api.Esr.Logs.Delivery.{advance-drop, slice_from-reach, slice_from-short}

-- A counter at which `counter - 1` is negative: the smallest integer wraps.
abbrev pub IsBelow : ℤ → Type 0
IsBelow (pos zero) = Unit
IsBelow (pos (suc n)) = ⊥
IsBelow (negsuc n) = n ≢ max_int64

-- A response is read before the goroutine returns.
abbrev pub HasPoll : List Choice → Type 0
HasPoll [] = ⊥
HasPoll (done ∷ choices) = ⊥
HasPoll (ping ∷ choices) = HasPoll choices
HasPoll (tick (failed true) ∷ choices) = ⊥
HasPoll (tick (failed false) ∷ choices) = HasPoll choices
HasPoll (tick (body bytes) ∷ choices) = Unit

-- No body has as many lines as the largest id.
abbrev pub AllFit : List Choice → Type 0
AllFit [] = Unit
AllFit (tick (body bytes) ∷ choices) = (suc (length (scan bytes)) ≤ max_int64) × AllFit choices
AllFit (choice ∷ choices) = AllFit choices

-- A poll goes on with one of two counters.
poll-ne-panicked :
    (lines : List Text) (n : ℕ) (choices : List Choice)
    → suc (length lines) ≤ max_int64
    → (subscribe choices (pos (suc (length lines)))).1 ≢ panicked
    → (subscribe choices (pos (suc n))).1 ≢ panicked
    → (send_slice (subscribe choices) (pos (suc n)) (slice_from (dec64 (pos (suc n))) lines)).1
      ≢ panicked
poll-ne-panicked lines n choices bound longer same = elim (Bool-cases (leb n (length lines))) [
  | inl far ↦ rw (slice_from-reach n lines far, advance-drop n lines (ground arith) bound) longer
  | inr short ↦ rw (slice_from-short n lines short) same
]

-- From a counter above 0 no index is out of range.
counting-ne-panicked :
    (n : ℕ) (choices : List Choice)
    → AllFit choices
    → (subscribe choices (pos (suc n))).1 ≢ panicked
unfolding subscribe
counting-ne-panicked n [] fit = cc
counting-ne-panicked n (done ∷ choices) fit = cc
counting-ne-panicked n (ping ∷ choices) fit = counting-ne-panicked n choices fit
counting-ne-panicked n (tick (failed true) ∷ choices) fit = cc
counting-ne-panicked n (tick (failed false) ∷ choices) fit = counting-ne-panicked n choices fit
counting-ne-panicked n (tick (body bytes) ∷ choices) (p, fit) =
    poll-ne-panicked (scan bytes) n choices p
      (counting-ne-panicked (length (scan bytes)) choices fit) (counting-ne-panicked n choices fit)

slice_from_below :
    (c : ℤ) (lines : List Text) → IsBelow c → slice_from (dec64 c) lines ≡ out_of_range
unfolding slice_from dec64
slice_from_below (pos zero) lines h = refl
slice_from_below (pos (suc n)) lines h = elim h [ ]
slice_from_below (negsuc n) lines h = elim (Bool-cases (n == max_int64)) [
  | inl least ↦ absurd (h ((==_iff n max_int64).0 least))
  | inr other ↦ rw other refl
]

-- At such a counter the first response that is read ends in the panic.
below-panicked_iff :
    (c : ℤ) (choices : List Choice)
    → IsBelow c
    → ((subscribe choices c).1 ≡ panicked) ↔ HasPoll choices
unfolding subscribe
below-panicked_iff c [] h = (λ e. cc (e), λ p. elim p [ ])
below-panicked_iff c (done ∷ choices) h = (λ e. cc (e), λ p. elim p [ ])
below-panicked_iff c (ping ∷ choices) h = below-panicked_iff c choices h
below-panicked_iff c (tick (failed true) ∷ choices) h = (λ e. cc (e), λ p. elim p [ ])
below-panicked_iff c (tick (failed false) ∷ choices) h = below-panicked_iff c choices h
below-panicked_iff c (tick (body bytes) ∷ choices) h = (
  λ e. tt,
  λ p.
      ap (λ (s : Slice). (send_slice (subscribe choices) c s).1)
        (slice_from_below c (scan bytes) h),
)

slice_from_least :
    (lines : List Text)
    → suc (length lines) ≤ max_int64
    → slice_from (dec64 (negsuc max_int64)) lines ≡ skipped
unfolding slice_from dec64
slice_from_least lines h = elim (Bool-cases (leb max_int64 (length lines))) [
  | inl fits ↦ absurd (omega (arith, leb→le max_int64 (length lines) fits))
  | inr short ↦ rw short refl
]

-- The index of the smallest counter wraps to the largest, which no body reaches.
least-ne-panicked :
    (choices : List Choice) → AllFit choices → (subscribe choices (negsuc max_int64)).1 ≢ panicked
unfolding subscribe
least-ne-panicked [] fit = cc
least-ne-panicked (done ∷ choices) fit = cc
least-ne-panicked (ping ∷ choices) fit = least-ne-panicked choices fit
least-ne-panicked (tick (failed true) ∷ choices) fit = cc
least-ne-panicked (tick (failed false) ∷ choices) fit = least-ne-panicked choices fit
least-ne-panicked (tick (body bytes) ∷ choices) (p, fit) =
    subst (λ (s : Slice). (send_slice (subscribe choices) (negsuc max_int64) s).1 ≢ panicked)
      (sym (slice_from_least (scan bytes) p)) (least-ne-panicked choices fit)

-- The goroutine panics, by a slice that starts below 0, exactly if the counter that it was started
-- with is at most 0 and not the smallest integer, and a response is read before it returns. No body
-- has as many lines as the largest id.
pub subscribe-panicked_iff :
    (c : ℤ) (choices : List Choice)
    → AllFit choices
    → ((subscribe choices c).1 ≡ panicked) ↔ (IsBelow c × HasPoll choices)
subscribe-panicked_iff (pos zero) choices fit = (
  λ e. (tt, (below-panicked_iff (pos 0) choices tt).0 e),
  λ h. (below-panicked_iff (pos 0) choices tt).1 h.1,
)
subscribe-panicked_iff (pos (suc n)) choices fit =
    (λ e. absurd (counting-ne-panicked n choices fit e), λ h. elim (h.0) [ ])
subscribe-panicked_iff (negsuc n) choices fit = elim (Bool-cases (n == max_int64)) [
  | inl least ↦
      let e : n ≡ max_int64 = (==_iff n max_int64).0 least in
      (
        λ p. absurd (
            least-ne-panicked choices fit
              (ap (λ (m : ℕ). (subscribe choices (negsuc m)).1) (sym e) ∙ p)),
        λ h. absurd (h.0 e),
      )
  | inr other ↦
      let below : n ≢ max_int64 = ground arith in
      (
        λ e. (below, (below-panicked_iff (negsuc n) choices below).0 e),
        λ h. (below-panicked_iff (negsuc n) choices below).1 h.1,
      )
]
