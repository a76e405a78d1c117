-- ===== src/Service/Waiting.antt =====
-- How cmd/executionspace/main.go stops: the signal, `Shutdown` of internal/server/server.go with its
-- deadline, and the deferred `Close` of pkg/executionspace/v1alpha/provider.go, which waits for the
-- wait group of internal/executionspace/provider/provider.go. `Start` leaves its checkout to a
-- goroutine, which adds itself to the wait group once it runs.
pub mod Counter
pub mod Left
pub mod Ended
use etos_api.Prelude.{
  ℕ, zero, suc, ◌+◌, ◌-◌, ◌≡◌, Bool, true, false, Option, none, some, List, [], ◌∷◌, ◌++◌,
}

-- The goroutine of a checkout: behind the `go` statement, behind its `Add`, and behind its `Done`.
pub data Checkout : Type 0 where
  launched : Checkout
  running : Checkout
  ended : Checkout

-- `closed` is behind `srv.Close`, `waited` behind `Done` of the provider, `exited` behind `main`;
-- `crashed` is the end of the process by a panic in a goroutine.
pub data Phase : Type 0 where
  serving : Phase
  shutting_down : Phase
  closed : (in_time : Bool) → Phase
  waited : Phase
  exited : Phase
  crashed : Phase

-- The requests whose handler has just begun, is in a call that the wait group counts, or has only its
-- answer left; the counter of the wait group; and the checkouts, the oldest first.
pub record Main : Type 0 where
  pub phase : Phase
  pub beginning : ℕ
  pub calling : ℕ
  pub answering : ℕ
  pub active : ℕ
  pub checkouts : List Checkout

-- Checkout `n` of a list goes over from one point to another.
pub data Moves (a b : Checkout) : ℕ → List Checkout → List Checkout → Type 0 where
  first : (cs : List Checkout) → Moves a b 0 (a ∷ cs) (b ∷ cs)
  later :
      {n : ℕ} {cs ds : List Checkout} (c : Checkout)
      → Moves a b n cs ds
      → Moves a b (suc n) (c ∷ cs) (c ∷ ds)

unfoldable pub checkout_at : ℕ → List Checkout → Option Checkout
checkout_at n [] = none
checkout_at zero (c ∷ cs) = some c
checkout_at (suc n) (c ∷ cs) = checkout_at n cs

abbrev pub IsAlive : Phase → Type 0
IsAlive serving = Unit
IsAlive shutting_down = Unit
IsAlive (closed b) = Unit
IsAlive waited = Unit
IsAlive exited = ⊥
IsAlive crashed = ⊥

-- `Start` behind its checks: the checkout is launched, and only the answer is left.
abbrev pub launch : ℕ → Main → Main
launch n m = record m {
  beginning = n;
  answering = suc m.answering;
  checkouts = m.checkouts ++ (launched ∷ []);
}

-- `Status` and `Checkin` of the provider are called by the handler itself: `Add`, and `Done`.
abbrev pub call : ℕ → Main → Main
call n m = record m { beginning = n; calling = suc m.calling; active = suc m.active }

abbrev pub call_done : ℕ → Main → Main
call_done n m = record m { calling = n; answering = suc m.answering; active = m.active - 1 }

-- `Checkout` of the provider: `Add`, and the deferred `Done`.
abbrev pub begin : List Checkout → Main → Main
begin cs m = record m { active = suc m.active; checkouts = cs }

abbrev pub finish : List Checkout → Main → Main
finish cs m = record m { active = m.active - 1; checkouts = cs }

-- `Done` of the provider returns: `Wait` at 0.
abbrev pub IsDone : Main → Type 0
IsDone m = m.active ≡ 0

-- One step of the process. A request arrives while the service listens; its handler launches a
-- checkout, makes a call, or neither; a checkout begins, ends, or panics; a signal arrives, `Shutdown`
-- returns with no request left or at its deadline, the deferred
-- `Close` returns, and `main` returns.
pub data Step : Main → Main → Type 0 where
  arrives : (m : Main) → m.phase ≡ serving → Step m (record m { beginning = suc m.beginning })
  launches : (n : ℕ) (m : Main) → IsAlive m.phase → m.beginning ≡ suc n → Step m (launch n m)
  calls : (n : ℕ) (m : Main) → IsAlive m.phase → m.beginning ≡ suc n → Step m (call n m)
  passes :
      (n : ℕ) (m : Main)
      → IsAlive m.phase
      → m.beginning ≡ suc n
      → Step m (record m { beginning = n; answering = suc m.answering })
  call_ends : (n : ℕ) (m : Main) → IsAlive m.phase → m.calling ≡ suc n → Step m (call_done n m)
  answers :
      (n : ℕ) (m : Main)
      → IsAlive m.phase
      → m.answering ≡ suc n
      → Step m (record m { answering = n })
  begins :
      {n : ℕ} {cs : List Checkout} (m : Main)
      → IsAlive m.phase
      → Moves launched running n m.checkouts cs
      → Step m (begin cs m)
  finishes :
      {n : ℕ} {cs : List Checkout} (m : Main)
      → IsAlive m.phase
      → Moves running ended n m.checkouts cs
      → Step m (finish cs m)
  panics :
      (n : ℕ) (m : Main)
      → IsAlive m.phase
      → checkout_at n m.checkouts ≡ some running
      → Step m (record m { phase = crashed })
  signalled : (m : Main) → m.phase ≡ serving → Step m (record m { phase = shutting_down })
  drained :
      (m : Main)
      → m.phase ≡ shutting_down
      → m.beginning ≡ 0
      → m.calling ≡ 0
      → m.answering ≡ 0
      → Step m (record m { phase = closed true })
  expires : (m : Main) → m.phase ≡ shutting_down → Step m (record m { phase = closed false })
  waits :
      (b : Bool) (m : Main) → m.phase ≡ closed b → IsDone m → Step m (record m { phase = waited })
  returns : (m : Main) → m.phase ≡ waited → Step m (record m { phase = exited })

pub data Reach (m : Main) : Main → Type 0 where
  here : Reach m m
  next : {n o : Main} → Reach m n → Step n o → Reach m o

-- The process behind its start.
abbrev pub started : Main
started = record {
  phase = serving;
  beginning = 0;
  calling = 0;
  answering = 0;
  active = 0;
  checkouts = [];
}
