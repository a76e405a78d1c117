-- ===== src/Space/Stopping.antt =====
-- `Stop` of pkg/executionspace/v1alpha/provider.go: it stops the jobs of the executors in the request
-- and checks the executors in.
pub mod Stopped
pub mod CheckedIn
pub mod Lifecycle
use etos_api.Prelude.{
  ℕ, ◌≡◌, Bool, true, false, Option, none, some, List, [], ◌∷◌, Text, codes, is_empty,
  if◌then◌else◌,
}
use etos_api.Database.{Error, eof, message, error_text, joined, Uuids, Kv, Etcd, World}
use etos_api.Space.{ExecutorSpec, ExecutionSpace, Decoded, value, undecoded, Codec}
use etos_api.Space.Provider.{job, checkin}

-- `errors.Join(err, other)`.
abbrev pub join_errors : Option Error → Error → Option Error
join_errors none other = some (message (error_text other))
join_errors (some e) other = some (joined e other)

abbrev pub after_stop : Option Error → Option Error → Option Error
after_stop none error = error
after_stop (some e) error = join_errors error e

-- The errors of the loop, the builds that `Stop` of the executor was called for, and the database.
pub record Stops {ℓ} (W : Type ℓ) : Type ℓ where
  pub error : Option Error
  pub builds : List Text
  pub world : W

abbrev pub onto_builds {ℓ} : {W : Type ℓ} → Text → Stops W → Stops W
onto_builds build s = record s { builds = build ∷ s.builds }

module _ (kv : Kv) (uuids : Uuids) (specs : Codec ExecutorSpec) (spaces : Codec ExecutionSpace)
    (db : Etcd) (stop : Text → Option Error) where
  -- One executor, whose job `Job` gave: `next` is the rest of the loop.
  abbrev pub stop_one :
      (Option Error → World kv → Stops (World kv))
      → Option Error
      → Decoded Text × World kv
      → Stops (World kv)
  stop_one next error (undecoded eof, w) = next error w
  stop_one next error (undecoded (message t), w) = next (join_errors error (message t)) w
  stop_one next error (value [], w) = next error w
  stop_one next error (value (b ∷ build), w) =
      onto_builds (b ∷ build) (next (after_stop (stop (b ∷ build)) error) w)

  -- The loop of `Stop`.
  unfoldable pub stop_all : List ExecutorSpec → Option Error → World kv → Stops (World kv)
  stop_all [] error w = record { error = error; builds = []; world = w }
  stop_all (e ∷ es) error w = stop_one (stop_all es) error (job kv uuids specs spaces db e.id w)

  -- The response: its status, with the builds that were stopped and the database.
  abbrev pub checked_in : List Text → Option Error × World kv → ℕ × List Text × World kv
  checked_in builds (none, w) = (204, builds, w)
  checked_in builds (some e, w) = (500, builds, w)

  abbrev pub after_stops :
      List ExecutorSpec → Stops (World kv) → Option Error → ℕ × List Text × World kv
  after_stops es s (some e) = (500, s.builds, s.world)
  after_stops es s none = checked_in s.builds (checkin kv uuids specs spaces db es s.world)

  -- The handler `Stop`; `none` is a body that cannot be decoded.
  unfoldable pub stop_executors : Option (List ExecutorSpec) → World kv → ℕ × List Text × World kv
  stop_executors none w = (400, [], w)
  stop_executors (some es) w = let s = stop_all es none w in after_stops es s s.error
