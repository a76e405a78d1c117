-- ===== src/Iut.antt =====
-- pkg/iut/v1alpha1/v1alpha1.go: the handlers `Start`, `Status` and `Stop` with `panicRecovery`.
-- `packageurl` and the decoding of a body are parameters.
pub mod Cycle
pub mod Tests
use etos_api.Prelude.{
  ℕ, zero, suc, ◌≡◌, Bool, true, false, Option, none, some, List, [], ◌∷◌, Text, codes, ℤ, pos,
  negsuc,
}
use etos_api.Database.{
  Error, message, eof, Answer, applied, lost, unheard, first_answer, Uuids, Kv, Etcd, open_id,
  World, moved_on, key, write, delete,
}
use etos_api.Space.{Decoded, value, undecoded, Codec}

-- The X-Etos-Id header: what `uuid.Parse` returns, and whether it succeeds.
pub record Identifier : Type 0 where
  pub id : ℕ
  pub parsed : Bool

pub record StartRequest : Type 0 where
  pub minimum_amount : ℤ
  pub artifact_identity : Text

-- The values of `purls`; `none` is the panic of `make` for a negative length.
unfoldable pub copies {ℓ} : {A : Type ℓ} → ℕ → A → List A
copies zero a = []
copies (suc n) a = a ∷ copies n a

abbrev pub purls_of {ℓ} : {A : Type ℓ} → ℤ → A → Option (List A)
purls_of (pos n) a = some (copies n a)
purls_of (negsuc n) a = none

-- The status that the client gets when a handler answers `code` and goes on from an error: the first
-- status that is written counts.
abbrev pub first_status : Bool → ℕ → ℕ
first_status true code = code
first_status false code = 500

-- `panicRecovery`: the status of a handler that answered with one, and of one that panicked before.
abbrev pub panic_recovery : Option ℕ → ℕ
panic_recovery none = 500
panic_recovery (some status) = status

module _ (kv : Kv) (uuids : Uuids) (db : Etcd) where
  abbrev pub written : Option Error × World kv → ℕ × World kv
  written (none, w) = (200, w)
  written (some e, w) = (500, w)

  module _ (Purl : Type 0) (from_string : Text → Option Purl) (codec : Codec (List Purl)) where
    abbrev pub save_purls : Identifier → Option (List Purl) → World kv → ℕ × World kv
    save_purls i none w = (panic_recovery none, w)
    save_purls i (some purls) w = written (write kv uuids (open_id db i.id) (codec.encode purls) w)

    abbrev pub with_purl : Identifier → ℤ → Option Purl → World kv → ℕ × World kv
    with_purl i amount none w = (400, w)
    with_purl i amount (some purl) w = save_purls i (purls_of amount purl) w

    abbrev pub start_by : Bool → Identifier → Option StartRequest → World kv → ℕ × World kv
    start_by false i body w = (500, w)
    start_by true i none w = (400, w)
    start_by true i (some r) w = with_purl i r.minimum_amount (from_string r.artifact_identity) w

    -- `Start`: the status, and the database.
    unfoldable pub start : Identifier → Option StartRequest → World kv → ℕ × World kv
    start i body w = start_by i.parsed i body w

    -- `io.ReadAll` of the client, which ends at `io.EOF`: the bytes, or an error.
    abbrev pub bytes_of : Option Text → Text
    bytes_of none = []
    bytes_of (some v) = v

    abbrev pub read_by : Answer → Etcd → World kv → Decoded Text
    read_by applied client w = value (bytes_of (kv.get (key kv uuids client) w.store))
    read_by (lost t) client w = undecoded (message t)
    read_by (unheard t) client w = undecoded (message t)

    -- A client without an id refuses to read.
    abbrev pub read_named : ℕ → Etcd → World kv → Decoded Text
    read_named zero client w =
        undecoded (message (codes "please create a new etcd client using NewWithID"))
    read_named (suc n) client w = read_by (first_answer w.answers) client w

    abbrev pub decoded_status : Bool → Decoded (List Purl) → ℕ × Option (List Purl)
    decoded_status parsed (undecoded e) = (500, none)
    decoded_status parsed (value purls) = (first_status parsed 200, some purls)

    abbrev pub status_by : Bool → Decoded Text → ℕ × Option (List Purl)
    status_by parsed (undecoded e) = (500, none)
    status_by parsed (value bytes) = decoded_status parsed (codec.decode bytes)

    -- `Status`: the status, and the IUTs in a body that says "DONE". The id in the query is only
    -- copied into the body.
    unfoldable pub status : Identifier → World kv → ℕ × Option (List Purl)
    status i w = status_by i.parsed (read_named i.id (open_id db i.id) w)

  abbrev pub deleted : Bool → Option Error × World kv → ℕ × World kv
  deleted parsed (none, w) = (first_status parsed 204, w)
  deleted parsed (some e, w) = (500, w)

  -- `Stop`: the client supports `Delete`.
  unfoldable pub stop : Identifier → World kv → ℕ × World kv
  stop i w = deleted i.parsed (delete kv uuids (open_id db i.id) w)
