-- ===== src/Service/Shutdown.antt =====
-- How cmd/sse/main.go stops: the signal, `Shutdown` of internal/server/server.go with the function that
-- `OnShutdown` registers, the deadline of a minute, and the deferred calls of `main`. The streams that
-- are open are counted for each protocol.
pub mod Graceful
use etos_api.Prelude.{ℕ, zero, suc, ◌+◌, ◌≡◌, Bool, true, false}

pub data Protocol : Type 0 where
  v1 : Protocol
  v1alpha : Protocol
  v2alpha : Protocol

-- `closed` is behind `srv.Close`, and `exited` behind the deferred calls.
pub data Phase : Type 0 where
  serving : Phase
  shutting_down : Phase
  closed : (in_time : Bool) → Phase
  exited : Phase

-- The context of a protocol's application, and its open streams.
pub record Streams : Type 0 where
  pub cancelled : Bool
  pub open_streams : ℕ

pub record Main : Type 0 where
  pub phase : Phase
  pub old : Streams
  pub older : Streams
  pub new : Streams

abbrev pub streams : Protocol → Main → Streams
streams v1 m = m.old
streams v1alpha m = m.older
streams v2alpha m = m.new

abbrev pub with_streams : Protocol → Streams → Main → Main
with_streams v1 s m = record m { old = s }
with_streams v1alpha s m = record m { older = s }
with_streams v2alpha s m = record m { new = s }

abbrev pub one_more : Streams → Streams
one_more s = record s { open_streams = suc s.open_streams }

abbrev pub AllClosed : Main → Type 0
AllClosed m = (m.old.open_streams ≡ 0) × (m.older.open_streams ≡ 0) × (m.new.open_streams ≡ 0)

abbrev pub cancel : Streams → Streams
cancel s = record s { cancelled = true }

-- The deferred calls of `main`: the contexts of all applications are cancelled.
abbrev pub deferred : Main → Main
deferred m = record {
  phase = exited;
  old = cancel m.old;
  older = cancel m.older;
  new = cancel m.new;
}

-- A stream whose context is cancelled ends by itself. Another one ends when its client leaves, or from
-- behind: for v1alpha when the test run has ended, for v2alpha when the event stream is closed.
pub data Cause : Type 0 where
  by_server : Cause
  by_client : Cause
  from_behind : Cause

abbrev pub MayEnd : Cause → Protocol → Streams → Type 0
MayEnd by_server p s = s.cancelled ≡ true
MayEnd by_client p s = Unit
MayEnd from_behind v1 s = ⊥
MayEnd from_behind v1alpha s = Unit
MayEnd from_behind v2alpha s = Unit

-- One step of the process: a client connects while the service listens, a signal arrives, the
-- registered function runs, a stream ends, `Shutdown` returns with no stream left or at its deadline,
-- and the deferred calls run.
pub data Step : Main → Main → Type 0 where
  connects :
      (p : Protocol) (m : Main)
      → m.phase ≡ serving
      → Step m (with_streams p (one_more (streams p m)) m)
  signalled : (m : Main) → m.phase ≡ serving → Step m (record m { phase = shutting_down })
  stops_streams : (m : Main) → m.phase ≡ shutting_down → Step m (record m { new = cancel m.new })
  ends :
      (c : Cause) (p : Protocol) (n : ℕ) (m : Main)
      → (streams p m).open_streams ≡ suc n
      → MayEnd c p (streams p m)
      → Step m (with_streams p (record { cancelled = (streams p m).cancelled; open_streams = n }) m)
  drained :
      (m : Main) → m.phase ≡ shutting_down → AllClosed m → Step m (record m { phase = closed true })
  expires : (m : Main) → m.phase ≡ shutting_down → Step m (record m { phase = closed false })
  returns : (b : Bool) (m : Main) → m.phase ≡ closed b → Step m (deferred m)

-- Steps that need neither a client nor what is behind the streams.
abbrev pub IsServerStep : {m n : Main} → Step m n → Type 0
IsServerStep (connects p m h) = ⊥
IsServerStep (signalled m h) = Unit
IsServerStep (stops_streams m h) = Unit
IsServerStep (ends by_server p n m h k) = Unit
IsServerStep (ends by_client p n m h k) = ⊥
IsServerStep (ends from_behind p n m h k) = ⊥
IsServerStep (drained m h k) = Unit
IsServerStep (expires m h) = Unit
IsServerStep (returns b m h) = Unit

pub data Reach (m : Main) : Main → Type 0 where
  here : Reach m m
  next : {n o : Main} → Reach m n → Step n o → Reach m o

abbrev pub ByServer : {m n : Main} → Reach m n → Type 0
ByServer here = Unit
ByServer (next r s) = ByServer r × IsServerStep s

-- The process behind its start.
abbrev pub started : Main
started = record {
  phase = serving;
  old = record { cancelled = false; open_streams = 0 };
  older = record { cancelled = false; open_streams = 0 };
  new = record { cancelled = false; open_streams = 0 };
}
