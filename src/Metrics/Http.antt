-- ===== src/Metrics/Http.antt =====
-- internal/metrics/metrics.go: the recorder that `Wrap` puts round a handler's response writer, and
-- the class and outcome of a request. The handler is the list of its calls of the writer.
use etos_api.Prelude.{
  ℕ, ◌/◌, ◌≤◌, ◌<◌, ◌==◌, Bool, true, false, not, List, [], ◌∷◌, ◌++◌, ◌≡◌, refl, sym, ap, arith,
  leb, Text, codes, ◌↔◌, if◌then◌else◌,
}
use mathlib.Core.Path.{subst}
use etos_api.Prelude.Decimal.{decimal}

-- A call of a `ResponseWriter`: on the recorder, and on the writer below it.
pub data Call : Type 0 where
  write_header : ℕ → Call
  write : Text → Call
  flush : Call

pub record ResponseRecorder : Type 0 where
  pub status : ℕ
  pub wrote_header : Bool
  -- the calls of the writer below, the first one first
  pub passed_on : List Call

unfoldable pub new_recorder : ResponseRecorder
new_recorder = record { status = 200; wrote_header = false; passed_on = [] }

abbrev pass : Call → ResponseRecorder → ResponseRecorder
pass call r = record r { passed_on = r.passed_on ++ call ∷ [] }

unfoldable pub on_write_header : ℕ → ResponseRecorder → ResponseRecorder
on_write_header status r = if r.wrote_header then r else record {
  status = status;
  wrote_header = true;
  passed_on = r.passed_on ++ write_header status ∷ [];
}

unfoldable pub on_write : Text → ResponseRecorder → ResponseRecorder
unfolding on_write_header
on_write bytes r = pass (write bytes) (if r.wrote_header then r else on_write_header 200 r)

-- The writer below is a `Flusher`, as that of a server is.
unfoldable pub on_flush : ResponseRecorder → ResponseRecorder
unfolding on_write_header
on_flush r = pass flush (if r.wrote_header then r else on_write_header 200 r)

unfoldable pub call_on : Call → ResponseRecorder → ResponseRecorder
unfolding on_write on_flush
call_on (write_header status) r = on_write_header status r
call_on (write bytes) r = on_write bytes r
call_on flush r = on_flush r

unfoldable pub record_calls : List Call → ResponseRecorder → ResponseRecorder
unfolding call_on
record_calls [] r = r
record_calls (call ∷ calls) r = record_calls calls (call_on call r)

unfoldable pub status_class : ℕ → Text
status_class status = decimal (status / 100) ++ codes "xx"

pub data RequestOutcome : Type 0 where
  success client_error server_error : RequestOutcome

unfoldable pub outcome : ℕ → RequestOutcome
outcome status =
    if leb 500 status then server_error else if leb 400 status then client_error else success

-- A status below 200 is sent on as informational, and a final one may follow, but for 101.
unfoldable pub informational : ℕ → Bool
informational status = if status == 101 then false else not (leb 200 status)

-- What a client of `net/http` gets: the first final status that is written, and 200 if the body or
-- the end of the response comes before one.
unfoldable pub client_status : List Call → ℕ
unfolding informational
client_status [] = 200
client_status (write_header status ∷ calls) =
    let rest = client_status calls in if informational status then rest else status
client_status (write bytes ∷ calls) = 200
client_status (flush ∷ calls) = 200

-- A status that the first call writes is final.
abbrev pub BeginsFinal : List Call → Type 0
BeginsFinal [] = Unit
BeginsFinal (write_header status ∷ calls) = informational status ≡ false
BeginsFinal (write bytes ∷ calls) = Unit
BeginsFinal (flush ∷ calls) = Unit

-- No status is written in these calls.
abbrev pub NoHeader : List Call → Type 0
NoHeader [] = Unit
NoHeader (write_header status ∷ calls) = ⊥
NoHeader (write bytes ∷ calls) = NoHeader calls
NoHeader (flush ∷ calls) = NoHeader calls

NoHeader-append : (cs ds : List Call) → NoHeader cs → NoHeader ds → NoHeader (cs ++ ds)
NoHeader-append [] ds h k = k
NoHeader-append (write_header status ∷ cs) ds h k = elim h [ ]
NoHeader-append (write bytes ∷ cs) ds h k = NoHeader-append cs ds h k
NoHeader-append (flush ∷ cs) ds h k = NoHeader-append cs ds h k

-- The writer below has got one status, first of all.
record HasWritten (status : ℕ) (r : ResponseRecorder) : Type 0 where
  wrote : r.wrote_header ≡ true
  same : r.status ≡ status
  body : List Call
  shape : r.passed_on ≡ write_header status ∷ body
  clean : NoHeader body

pass-HasWritten :
    (status : ℕ) (call : Call) (r : ResponseRecorder)
    → NoHeader (call ∷ [])
    → HasWritten status r
    → HasWritten status (pass call r)
pass-HasWritten status call r plain h = record {
  wrote = h.wrote;
  same = h.same;
  body = h.body ++ call ∷ [];
  shape = ap (λ (cs : List Call). cs ++ call ∷ []) h.shape;
  clean = NoHeader-append h.body _ h.clean plain;
}

-- A choice that the written header decides.
if_written :
    (status : ℕ) (r other : ResponseRecorder) (b : Bool)
    → b ≡ true
    → HasWritten status r
    → HasWritten status (if b then r else other)
if_written status r other true e h = h
if_written status r other false e h = cc

-- Once a status is written, no call of the handler changes it or writes another.
call_on-HasWritten :
    (status : ℕ) (call : Call) (r : ResponseRecorder)
    → HasWritten status r
    → HasWritten status (call_on call r)
unfolding call_on
call_on-HasWritten status (write_header other) r h = if_written status r _ r.wrote_header h.wrote h
call_on-HasWritten status (write bytes) r h =
    pass-HasWritten status (write bytes) _ tt (if_written status r _ r.wrote_header h.wrote h)
call_on-HasWritten status flush r h =
    pass-HasWritten status flush _ tt (if_written status r _ r.wrote_header h.wrote h)

record_calls-HasWritten :
    (status : ℕ) (calls : List Call) (r : ResponseRecorder)
    → HasWritten status r
    → HasWritten status (record_calls calls r)
unfolding record_calls
record_calls-HasWritten status [] r h = h
record_calls-HasWritten status (call ∷ calls) r h =
    record_calls-HasWritten status calls (call_on call r) (call_on-HasWritten status call r h)

-- The first call writes the status that the client gets.
first_call :
    (call : Call) (calls : List Call)
    → BeginsFinal (call ∷ calls)
    → HasWritten (client_status (call ∷ calls)) (call_on call new_recorder)
unfolding call_on client_status new_recorder
first_call (write_header status) calls final =
    rw final (record { wrote = refl; same = refl; body = []; shape = refl; clean = tt })
first_call (write bytes) calls final = record {
  wrote = refl;
  same = refl;
  body = write bytes ∷ [];
  shape = refl;
  clean = tt;
}
first_call flush calls final = record {
  wrote = refl;
  same = refl;
  body = flush ∷ [];
  shape = refl;
  clean = tt;
}

-- What the writer below gets: nothing, or the client's status, and behind it no other status.
abbrev pub OneStatus : ℕ → List Call → Type 0
OneStatus status [] = Unit
OneStatus status (write_header sent ∷ body) = (sent ≡ status) × NoHeader body
OneStatus status (write bytes ∷ body) = ⊥
OneStatus status (flush ∷ body) = ⊥

OneStatus-of_HasWritten :
    (status : ℕ) (r : ResponseRecorder) → HasWritten status r → OneStatus status r.passed_on
OneStatus-of_HasWritten status r h = subst (OneStatus status) (sym h.shape) (refl, h.clean)

-- If a status that the handler writes in its first call is final (101, or 200 and above), then whatever
-- calls it makes, the recorder has in the end the status that the client gets, and the writer below has
-- got at most one status, that one, before all body data.
pub record_calls_lem :
    (calls : List Call)
    → BeginsFinal calls
    → ((record_calls calls new_recorder).status ≡ client_status calls)
      × OneStatus (client_status calls) (record_calls calls new_recorder).passed_on
record_calls_lem [] final = unfold record_calls new_recorder client_status in (refl, tt)
record_calls_lem (call ∷ calls) final =
    let h =
      record_calls-HasWritten (client_status (call ∷ calls)) calls (call_on call new_recorder)
        (first_call call calls final) in
    unfold record_calls in (h.same, OneStatus-of_HasWritten _ _ h)

-- The outcome of a request is an error of the server exactly for a status from 500 on, and one of
-- the client exactly for a status from 400 to 499.
pub outcome_iff :
    (status : ℕ)
    → ((outcome status ≡ server_error) ↔ (500 ≤ status))
      × ((outcome status ≡ client_error) ↔ ((400 ≤ status) × (status < 500)))
unfolding outcome
outcome_iff status = (ground arith, ground arith)
