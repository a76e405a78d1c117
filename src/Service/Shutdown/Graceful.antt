-- ===== src/Service/Shutdown/Graceful.antt =====
-- Which streams a graceful stop of cmd/sse waits for.
use etos_api.Prelude.{ℕ, zero, suc, ◌≡◌, ◌↔◌, refl, sym, ◌∙◌, true, false}
use mathlib.Core.Path.{subst}
use etos_api.Service.Shutdown.{
  Protocol, v1, v1alpha, v2alpha, Phase, serving, shutting_down, closed, exited, Streams, Main,
  streams, with_streams, cancel, by_server, by_client, from_behind, MayEnd, Step, connects,
  signalled, stops_streams, ends, drained, expires, returns, IsServerStep, Reach, here, next,
  ByServer, started,
}

-- The older protocols while `Shutdown` waits: their contexts are not cancelled, and their streams are
-- those of the beginning.
record Waiting (m t : Main) : Type 0 where
  old_runs : t.old.cancelled ≡ false
  older_runs : t.older.cancelled ≡ false
  old_same : t.old.open_streams ≡ m.old.open_streams
  older_same : t.older.open_streams ≡ m.older.open_streams

abbrev Kept : Phase → Main → Main → Type 0
Kept serving m t = ⊥
Kept shutting_down m t = Waiting m t
Kept (closed true) m t = (m.old.open_streams ≡ 0) × (m.older.open_streams ≡ 0)
Kept (closed false) m t = Unit
Kept exited m t = Unit

ends-Kept :
    (p : Protocol) (n : ℕ) (phase : Phase) (m t : Main)
    → MayEnd by_server p (streams p t)
    → Kept phase m t
    → Kept phase m
        (with_streams p (record { cancelled = (streams p t).cancelled; open_streams = n }) t)
ends-Kept p n serving m t may h = h
ends-Kept v1 n shutting_down m t may h = absurd (cc (may, h.old_runs))
ends-Kept v1alpha n shutting_down m t may h = absurd (cc (may, h.older_runs))
ends-Kept v2alpha n shutting_down m t may h = record {
  old_runs = h.old_runs;
  older_runs = h.older_runs;
  old_same = h.old_same;
  older_same = h.older_same;
}
ends-Kept p n (closed true) m t may h = h
ends-Kept p n (closed false) m t may h = tt
ends-Kept p n exited m t may h = tt

same_phase : (p : Protocol) (s : Streams) (t : Main) → (with_streams p s t).phase ≡ t.phase
same_phase v1 s t = refl
same_phase v1alpha s t = refl
same_phase v2alpha s t = refl

-- What `Shutdown` still waits for, on a state of the phase in which it waits.
Kept-Waiting : (m t : Main) → t.phase ≡ shutting_down → Kept t.phase m t → Waiting m t
Kept-Waiting m t e h = subst (λ (p : Phase). Kept p m t) e h

Step-Kept :
    (m : Main) {t u : Main} (s : Step t u) → IsServerStep s → Kept t.phase m t → Kept u.phase m u
Step-Kept m (connects p t e) alone h = elim alone [ ]
Step-Kept m (signalled t e) alone h = elim (subst (λ (p : Phase). Kept p m t) e h) [ ]
Step-Kept m (stops_streams t e) alone h =
    let w = Kept-Waiting m t e h in
    subst (λ (p : Phase). Kept p m (record t { new = cancel t.new })) (sym e)
      (record {
        old_runs = w.old_runs;
        older_runs = w.older_runs;
        old_same = w.old_same;
        older_same = w.older_same;
      })
Step-Kept m (ends by_server p n t e may) alone h =
    subst
      (λ (q : Phase).
        Kept q m
          (with_streams p (record { cancelled = (streams p t).cancelled; open_streams = n }) t))
      (sym (same_phase p _ t)) (ends-Kept p n t.phase m t may h)
Step-Kept m (ends by_client p n t e may) alone h = elim alone [ ]
Step-Kept m (ends from_behind p n t e may) alone h = elim alone [ ]
Step-Kept m (drained t e none_open) alone h =
    let w = Kept-Waiting m t e h in (sym w.old_same ∙ none_open.0, sym w.older_same ∙ none_open.1)
Step-Kept m (expires t e) alone h = tt
Step-Kept m (returns b t e) alone h = tt

Reach-Kept :
    (m : Main) {t : Main} (r : Reach m t) → ByServer r → Kept m.phase m m → Kept t.phase m t
Reach-Kept m here alone h = h
Reach-Kept m (next r s) (before, alone) h = Step-Kept m s alone (Reach-Kept m r before h)

Reach-trans : {m t u : Main} → Reach m t → Reach t u → Reach m u
Reach-trans r here = r
Reach-trans r (next q s) = next (Reach-trans r q) s

ByServer-trans :
    {m t u : Main} (r : Reach m t) (q : Reach t u)
    → ByServer r
    → ByServer q
    → ByServer (Reach-trans r q)
unfolding Reach-trans
ByServer-trans r here a b = a
ByServer-trans r (next q s) a (b, c) = (ByServer-trans r q a b, c)

-- The streams of v2alpha, cancelled, with `n` of them open.
abbrev left_with : ℕ → Main → Main
left_with n m = record m { new = record { cancelled = true; open_streams = n } }

abbrev Alone : Main → Main → Type 0
Alone m t = (r : Reach m t) × ByServer r

Alone-trans : {m t u : Main} → Alone m t → Alone t u → Alone m u
Alone-trans (r, a) (q, b) = (Reach-trans r q, ByServer-trans r q a b)

drains : (n : ℕ) (m : Main) → Alone (left_with n m) (left_with 0 m)
drains zero m = (here, tt)
drains (suc n) m =
    let first : Alone (left_with (suc n) m) (left_with n m) =
      (next here (ends by_server v2alpha n (left_with (suc n) m) refl refl), (tt, tt)) in
    Alone-trans first (drains n m)

stops :
    (m : Main)
    → m.phase ≡ shutting_down
    → m.old.open_streams ≡ 0
    → m.older.open_streams ≡ 0
    → Alone m (record (left_with 0 m) { phase = closed true })
stops m e old older =
    let first : Alone m (left_with m.new.open_streams m) =
      (next here (stops_streams m e), (tt, tt)) in
    let last : Alone (left_with 0 m) (record (left_with 0 m) { phase = closed true }) =
      (next here (drained (left_with 0 m) e (old, older, refl)), (tt, tt)) in
    Alone-trans first (Alone-trans (drains m.new.open_streams m) last)

-- Until the deferred calls the contexts of the older protocols are not cancelled.
abbrev Late : Phase → Main → Type 0
Late exited m = Unit
Late serving m = (m.old.cancelled ≡ false) × (m.older.cancelled ≡ false)
Late shutting_down m = (m.old.cancelled ≡ false) × (m.older.cancelled ≡ false)
Late (closed b) m = (m.old.cancelled ≡ false) × (m.older.cancelled ≡ false)

streams-Late :
    (p : Protocol) (n : ℕ) (phase : Phase) (t : Main)
    → Late phase t
    → Late phase
        (with_streams p (record { cancelled = (streams p t).cancelled; open_streams = n }) t)
streams-Late p n exited t h = tt
streams-Late v1 n serving t h = h
streams-Late v1alpha n serving t h = h
streams-Late v2alpha n serving t h = h
streams-Late v1 n shutting_down t h = h
streams-Late v1alpha n shutting_down t h = h
streams-Late v2alpha n shutting_down t h = h
streams-Late v1 n (closed b) t h = h
streams-Late v1alpha n (closed b) t h = h
streams-Late v2alpha n (closed b) t h = h

changed-Late :
    (p : Protocol) (n : ℕ) (t : Main)
    → Late t.phase t
    → Late
        (with_streams p (record { cancelled = (streams p t).cancelled; open_streams = n }) t).phase
        (with_streams p (record { cancelled = (streams p t).cancelled; open_streams = n }) t)
changed-Late p n t h =
    let u : Main =
      with_streams p (record { cancelled = (streams p t).cancelled; open_streams = n }) t in
    subst (λ (q : Phase). Late q u) (sym (same_phase p _ t)) (streams-Late p n t.phase t h)

Step-Late : {t u : Main} → Step t u → Late t.phase t → Late u.phase u
Step-Late (connects p t e) h = changed-Late p (suc (streams p t).open_streams) t h
Step-Late (signalled t e) h = subst (λ (q : Phase). Late q t) e h
Step-Late (stops_streams t e) h =
    subst (λ (q : Phase). Late q (record t { new = cancel t.new })) (sym e)
      (subst (λ (q : Phase). Late q t) e h)
Step-Late (ends c p n t e may) h = changed-Late p n t h
Step-Late (drained t e none_open) h = subst (λ (q : Phase). Late q t) e h
Step-Late (expires t e) h = subst (λ (q : Phase). Late q t) e h
Step-Late (returns b t e) h = tt

Reach-Late : {t : Main} → Reach started t → Late t.phase t
Reach-Late here = (refl, refl)
Reach-Late (next r s) = Step-Late s (Reach-Late r)

-- Once a signal has arrived, the service can stop in time by itself, with no client leaving and nothing
-- behind its streams ending, exactly if no stream of v1 and v1alpha is open: those of v2alpha are ended
-- by it, and the contexts of the others are cancelled only behind `Shutdown`.
pub graceful_iff :
    (m : Main)
    → Reach started m
    → m.phase ≡ shutting_down
    → ((t : Main) × ((r : Reach m t) × ByServer r) × (t.phase ≡ closed true))
      ↔ ((m.old.open_streams ≡ 0) × (m.older.open_streams ≡ 0))
graceful_iff m from e =
    let late = subst (λ (q : Phase). Late q m) e (Reach-Late from) in
    let kept : Kept m.phase m m =
      subst (λ (q : Phase). Kept q m m) (sym e)
        (record { old_runs = late.0; older_runs = late.1; old_same = refl; older_same = refl }) in
    (
      λ stop. subst (λ (q : Phase). Kept q m stop.0) stop.2 (Reach-Kept m stop.1.0 stop.1.1 kept),
      λ none_open.
          (record (left_with 0 m) { phase = closed true }, stops m e none_open.0 none_open.1, refl),
    )
