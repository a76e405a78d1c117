-- ===== src/Service/Waiting/Left.antt =====
-- A way to the end of cmd/executionspace on which a checkout that has not begun is left behind.
use etos_api.Prelude.{
  ℕ, zero, suc, ◌≡◌, refl, sym, Bool, false, Option, none, some, List, [], ◌∷◌, arith,
}
use mathlib.Core.Path.{subst}
use etos_api.Service.Waiting.{
  Checkout, launched, running, ended, Phase, serving, shutting_down, closed, waited, exited,
  crashed, Main, Moves, first, later, checkout_at, call_done, finish, IsAlive, Step, call_ends,
  finishes, signalled, expires, waits, returns, Reach, here, next,
}
use etos_api.Service.Waiting.Counter.{
  Counts, running_in, Moves-running_in, Moves-at, Step-Counts, IsOpen,
}

abbrev pub IsLeft : Option Checkout → Type 0
IsLeft none = Unit
IsLeft (some launched) = Unit
IsLeft (some running) = ⊥
IsLeft (some ended) = ⊥

-- A point behind `srv.Close`, with the checkout left.
record Leaving (i : ℕ) (m t : Main) : Type 0 where
  reached : Reach m t
  in_time : Bool
  is_closed : t.phase ≡ closed in_time
  counts : Counts t
  is_left : IsLeft (checkout_at i t.checkouts)

closing :
    (i : ℕ) (p : Phase) (m : Main)
    → m.phase ≡ p
    → IsOpen p
    → Counts m
    → IsLeft (checkout_at i m.checkouts)
    → (t : Main) × Leaving i m t
closing i serving m e may_wait c left = (
  record m { phase = closed false },
  record {
    reached = next (next here (signalled m e)) (expires (record m { phase = shutting_down }) refl);
    in_time = false;
    is_closed = refl;
    counts = c;
    is_left = left;
  },
)
closing i shutting_down m e may_wait c left = (
  record m { phase = closed false },
  record {
    reached = next here (expires m e);
    in_time = false;
    is_closed = refl;
    counts = c;
    is_left = left;
  },
)
closing i (closed b) m e may_wait c left =
    (m, record { reached = here; in_time = b; is_closed = e; counts = c; is_left = left })
closing i waited m e may_wait c left = elim may_wait [ ]
closing i exited m e may_wait c left = elim may_wait [ ]
closing i crashed m e may_wait c left = elim may_wait [ ]

alive : {p : Phase} {b : Bool} → p ≡ closed b → IsAlive p
alive e = subst IsAlive (sym e) tt

calls_end :
    (i n : ℕ) {m : Main} (t : Main)
    → t.calling ≡ n
    → Leaving i m t
    → (u : Main) × Leaving i m u × (u.calling ≡ 0)
calls_end i zero t e l = (t, l, e)
calls_end i (suc n) t e l =
    let step : Step t (call_done n t) = call_ends n t (alive l.is_closed) e in
    calls_end i n (call_done n t) refl (record {
      reached = next l.reached step;
      in_time = l.in_time;
      is_closed = l.is_closed;
      counts = Step-Counts step l.counts;
      is_left = l.is_left;
    })

find_running :
    (n : ℕ) (cs : List Checkout)
    → running_in cs ≡ suc n
    → (j : ℕ) × (ds : List Checkout) × Moves running ended j cs ds
unfolding running_in
find_running n [] e = absurd (omega arith)
find_running n (launched ∷ cs) e =
    let (j, ds, move) = find_running n cs (omega arith) in
    (suc j, launched ∷ ds, later launched move)
find_running n (running ∷ cs) e = (0, ended ∷ cs, first cs)
find_running n (ended ∷ cs) e =
    let (j, ds, move) = find_running n cs (omega arith) in (suc j, ended ∷ ds, later ended move)

IsLeft-ends : IsLeft (some running) → IsLeft (some ended)
IsLeft-ends h = h

checkouts_end :
    (i n : ℕ) {m : Main} (t : Main)
    → running_in t.checkouts ≡ n
    → t.calling ≡ 0
    → Leaving i m t
    → (u : Main) × Leaving i m u × (u.calling ≡ 0) × (running_in u.checkouts ≡ 0)
checkouts_end i zero t e none_calls l = (t, l, none_calls, e)
checkouts_end i (suc n) t e none_calls l =
    let (j, ds, move) = find_running n t.checkouts e in
    let step : Step t (finish ds t) = finishes t (alive l.is_closed) move in
    let k = Moves-running_in move in
    checkouts_end i n (finish ds t) (omega arith) none_calls (record {
      reached = next l.reached step;
      in_time = l.in_time;
      is_closed = l.is_closed;
      counts = Step-Counts step l.counts;
      is_left = Moves-at IsLeft IsLeft-ends move i l.is_left;
    })

-- The way: past the deadline, to the end of every call and of every checkout that runs, and out.
pub exit_without :
    (i : ℕ) (m : Main)
    → IsOpen m.phase
    → Counts m
    → IsLeft (checkout_at i m.checkouts)
    → (t : Main) × Reach m t × (t.phase ≡ exited) × IsLeft (checkout_at i t.checkouts)
exit_without i m may_wait c left =
    let (t, l) = closing i m.phase m refl may_wait c left in
    let (u, k, none_calls) = calls_end i t.calling t refl l in
    let (v, last, no_call, none_runs) =
      checkouts_end i (running_in u.checkouts) u refl none_calls k in
    let count = last.counts in
    (
      record v { phase = exited },
      next (next last.reached (waits last.in_time v last.is_closed (omega arith)))
          (returns (record v { phase = waited }) refl),
      refl,
      last.is_left,
    )
