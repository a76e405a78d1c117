-- ===== src/Service/Waiting/Ended.antt =====
-- Which checkouts the stop of cmd/executionspace waits for.
use etos_api.Prelude.{ℕ, zero, suc, ◌≡◌, ◌↔◌, Option, none, some, List, [], ◌∷◌, arith}
use mathlib.Core.Path.{subst}
use etos_api.Service.Waiting.{
  Checkout, launched, running, ended, Phase, serving, shutting_down, closed, waited, exited,
  crashed, Main, checkout_at, IsAlive, Step, arrives, launches, calls, passes, call_ends, answers,
  begins, finishes, panics, signalled, drained, expires, waits, returns, Reach, here, next, started,
}
use etos_api.Service.Waiting.Counter.{
  Counts, running_in, Moves-at, launched-at, Step-Counts, Reach-Counts, IsOpen,
}
use etos_api.Service.Waiting.Left.{IsLeft, exit_without}

-- A checkout that has begun, and one that has ended.
abbrev pub HasBegun : Option Checkout → Type 0
HasBegun none = ⊥
HasBegun (some launched) = ⊥
HasBegun (some running) = Unit
HasBegun (some ended) = Unit

abbrev pub HasEnded : Option Checkout → Type 0
HasEnded none = ⊥
HasEnded (some launched) = ⊥
HasEnded (some running) = ⊥
HasEnded (some ended) = Unit

-- What holds of a checkout that had begun before `Wait` returned.
abbrev Stays : Phase → Option Checkout → Type 0
Stays serving = HasBegun
Stays shutting_down = HasBegun
Stays (closed b) = HasBegun
Stays waited = HasEnded
Stays exited = HasEnded
Stays crashed = λ c. Unit

Stays-none : (p : Phase) → IsAlive p → Stays p none → ⊥
Stays-none serving alive h = h
Stays-none shutting_down alive h = h
Stays-none (closed b) alive h = h
Stays-none waited alive h = h
Stays-none exited alive h = h
Stays-none crashed alive h = alive

Stays-begins : (p : Phase) → Stays p (some launched) → Stays p (some running)
Stays-begins serving h = tt
Stays-begins shutting_down h = tt
Stays-begins (closed b) h = tt
Stays-begins waited h = h
Stays-begins exited h = h
Stays-begins crashed h = tt

Stays-finishes : (p : Phase) → Stays p (some running) → Stays p (some ended)
Stays-finishes serving h = tt
Stays-finishes shutting_down h = tt
Stays-finishes (closed b) h = tt
Stays-finishes waited h = tt
Stays-finishes exited h = tt
Stays-finishes crashed h = tt

none_runs-HasEnded :
    (i : ℕ) (cs : List Checkout)
    → running_in cs ≡ 0
    → HasBegun (checkout_at i cs)
    → HasEnded (checkout_at i cs)
unfolding running_in checkout_at
none_runs-HasEnded i [] e h = elim h [ ]
none_runs-HasEnded zero (launched ∷ cs) e h = elim h [ ]
none_runs-HasEnded zero (running ∷ cs) e h = absurd (omega arith)
none_runs-HasEnded zero (ended ∷ cs) e h = tt
none_runs-HasEnded (suc i) (c ∷ cs) e h = none_runs-HasEnded i cs (omega arith) h

abbrev Kept : ℕ → Main → Type 0
Kept i m = Stays m.phase (checkout_at i m.checkouts)

at_phase :
    (i : ℕ) (p : Phase) (m : Main) → m.phase ≡ p → Kept i m → Stays p (checkout_at i m.checkouts)
at_phase i p m e h = subst (λ (q : Phase). Stays q (checkout_at i m.checkouts)) e h

Step-Kept : (i : ℕ) {m n : Main} → Step m n → Counts m → Kept i m → Kept i n
Step-Kept i (arrives m e) c h = h
Step-Kept i (launches n m alive e) c h =
    launched-at (Stays m.phase) m.checkouts i (Stays-none m.phase alive) h
Step-Kept i (calls n m alive e) c h = h
Step-Kept i (passes n m alive e) c h = h
Step-Kept i (call_ends n m alive e) c h = h
Step-Kept i (answers n m alive e) c h = h
Step-Kept i (begins m alive move) c h = Moves-at (Stays m.phase) (Stays-begins m.phase) move i h
Step-Kept i (finishes m alive move) c h = Moves-at (Stays m.phase) (Stays-finishes m.phase) move i h
Step-Kept i (panics n m alive e) c h = tt
Step-Kept i (signalled m e) c h = at_phase i serving m e h
Step-Kept i (drained m e x y z) c h = at_phase i shutting_down m e h
Step-Kept i (expires m e) c h = at_phase i shutting_down m e h
Step-Kept i (waits b m e none_active) c h =
    none_runs-HasEnded i m.checkouts (omega arith) (at_phase i (closed b) m e h)
Step-Kept i (returns m e) c h = at_phase i waited m e h

Reach-Kept : (i : ℕ) {m n : Main} → Reach m n → Counts m → Kept i m → Counts n × Kept i n
Reach-Kept i here c h = (c, h)
Reach-Kept i (next r s) c h =
    let (d, k) = Reach-Kept i r c h in (Step-Counts s d, Step-Kept i s d k)

IsOpen-Stays : (p : Phase) (c : Option Checkout) → IsOpen p → HasBegun c → Stays p c
IsOpen-Stays serving c may_wait h = h
IsOpen-Stays shutting_down c may_wait h = h
IsOpen-Stays (closed b) c may_wait h = h
IsOpen-Stays waited c may_wait h = elim may_wait [ ]
IsOpen-Stays exited c may_wait h = elim may_wait [ ]
IsOpen-Stays crashed c may_wait h = tt

-- A checkout that has not begun is left, and one that is left has not ended.
begun_of : (c : Option Checkout) → (IsLeft c → ⊥) → HasBegun c
begun_of none h = h tt
begun_of (some launched) h = h tt
begun_of (some running) h = tt
begun_of (some ended) h = tt

IsLeft-unended : (c : Option Checkout) → IsLeft c → HasEnded c → ⊥
IsLeft-unended none l h = h
IsLeft-unended (some launched) l h = h
IsLeft-unended (some running) l h = h
IsLeft-unended (some ended) l h = l

-- As long as the stop of the execution space service still waits for its calls, a checkout is certain
-- to have ended when the process exits, unless it crashes, exactly if its goroutine has already begun: a
-- checkout that `Start` has launched, and answered with 200, may be left behind.
pub ended_iff :
    (i : ℕ) (m : Main)
    → Reach started m
    → IsOpen m.phase
    → ((t : Main) → Reach m t → t.phase ≡ exited → HasEnded (checkout_at i t.checkouts))
      ↔ HasBegun (checkout_at i m.checkouts)
ended_iff i m from may_wait =
    let c = Reach-Counts from in
    (
      λ all. begun_of (checkout_at i m.checkouts) (λ left.
          let (t, r, e, l) = exit_without i m may_wait c left in
          IsLeft-unended (checkout_at i t.checkouts) l (all t r e)),
      λ begun t r e.
          at_phase i exited t e
            (Reach-Kept i r c (IsOpen-Stays m.phase (checkout_at i m.checkouts) may_wait begun)).1,
    )
