-- ===== src/Service/Waiting/Counter.antt =====
-- The counter of the wait group of the provider, on every way of cmd/executionspace.
use etos_api.Prelude.{
  ℕ, zero, suc, ◌+◌, ◌≡◌, refl, sym, ap, ◌∙◌, Option, none, some, List, [], ◌∷◌, ◌++◌, arith,
}
use etos_api.Service.Waiting.{
  Checkout, launched, running, ended, Phase, serving, shutting_down, closed, waited, exited,
  crashed, Main, Moves, first, later, checkout_at, Step, arrives, launches, calls, passes,
  call_ends, answers, begins, finishes, panics, signalled, drained, expires, waits, returns, Reach,
  here, next, started,
}

-- How many checkouts the wait group counts.
abbrev weight : Checkout → ℕ
weight launched = 0
weight running = 1
weight ended = 0

unfoldable pub running_in : List Checkout → ℕ
running_in [] = 0
running_in (c ∷ cs) = weight c + running_in cs

-- The counter of the wait group is the number of the calls and of the checkouts that run.
abbrev pub Counts : Main → Type 0
Counts m = m.active ≡ m.calling + running_in m.checkouts

-- `Wait` has not yet returned.
abbrev pub IsOpen : Phase → Type 0
IsOpen serving = Unit
IsOpen shutting_down = Unit
IsOpen (closed b) = Unit
IsOpen waited = ⊥
IsOpen exited = ⊥
IsOpen crashed = ⊥

pub Moves-running_in :
    {a b : Checkout} {n : ℕ} {cs ds : List Checkout}
    → Moves a b n cs ds
    → running_in ds + weight a ≡ running_in cs + weight b
unfolding running_in
Moves-running_in (first cs) = omega arith
Moves-running_in (later c m) = let rest = Moves-running_in m in omega arith

pub Moves-at :
    {a b : Checkout} {n : ℕ} {cs ds : List Checkout} (P : Option Checkout → Type 0)
    → (P (some a) → P (some b))
    → Moves a b n cs ds
    → (i : ℕ) → P (checkout_at i cs)
    → P (checkout_at i ds)
unfolding checkout_at
Moves-at P f (first cs) zero h = f h
Moves-at P f (first cs) (suc i) h = h
Moves-at P f (later c m) zero h = h
Moves-at P f (later c m) (suc i) h = Moves-at P f m i h

pub launched-at :
    (P : Option Checkout → Type 0) (cs : List Checkout) (i : ℕ)
    → (P none → ⊥)
    → P (checkout_at i cs)
    → P (checkout_at i (cs ++ (launched ∷ [])))
unfolding checkout_at
launched-at P [] i none_is h = elim (none_is h) [ ]
launched-at P (c ∷ cs) zero none_is h = h
launched-at P (c ∷ cs) (suc i) none_is h = launched-at P cs i none_is h

launched-running_in : (cs : List Checkout) → running_in (cs ++ (launched ∷ [])) ≡ running_in cs
unfolding running_in
launched-running_in [] = refl
launched-running_in (c ∷ cs) = ap (λ k. weight c + k) (launched-running_in cs)

pub Step-Counts : {m n : Main} → Step m n → Counts m → Counts n
Step-Counts (arrives m e) h = h
Step-Counts (launches n m alive e) h =
    h ∙ ap (λ k. m.calling + k) (sym (launched-running_in m.checkouts))
Step-Counts (calls n m alive e) h = omega arith
Step-Counts (passes n m alive e) h = h
Step-Counts (call_ends n m alive e) h = omega arith
Step-Counts (answers n m alive e) h = h
Step-Counts (begins m alive move) h = let k = Moves-running_in move in omega arith
Step-Counts (finishes m alive move) h = let k = Moves-running_in move in omega arith
Step-Counts (panics n m alive e) h = h
Step-Counts (signalled m e) h = h
Step-Counts (drained m e a b c) h = h
Step-Counts (expires m e) h = h
Step-Counts (waits b m e none_active) h = h
Step-Counts (returns m e) h = h

pub Reach-Counts : {m : Main} → Reach started m → Counts m
unfolding running_in
Reach-Counts here = refl
Reach-Counts (next r s) = Step-Counts s (Reach-Counts r)
