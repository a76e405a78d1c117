-- ===== src/Database/Reading.antt =====
-- `Read` of internal/database/etcd/etcd.go: what its calls hand out, whatever buffers the reader has.
use etos_api.Prelude.{
  ℕ, ◌-◌, ◌<◌, ◌≤◌, ◌≡◌, ◌≢◌, refl, ap, ◌∙◌, true, false, some, List, [], ◌∷◌, ◌++◌, arith, Text,
  length, is_empty, All,
}
use etos_api.Database.{
  eof, Uuids, Kv, Etcd, open_id, fitting, leftover, World, key, ReadResult, bytes, failed, hand_out,
  read, collect, read_all, first_answer, applied, moved_on,
}

fitting-append-leftover : (size : ℕ) (v : Text) → fitting size v ++ leftover size v ≡ v
unfolding fitting leftover
fitting-append-leftover size [] = refl
fitting-append-leftover size (b ∷ v) = ground (arith, fitting-append-leftover (size - 1) v)

length-leftover : (size : ℕ) (v : Text) → length (leftover size v) ≤ length v
unfolding leftover
length-leftover size [] = omega arith
length-leftover size (b ∷ v) = ground (arith, length-leftover (size - 1) v)

leftover_shrinks :
    (size : ℕ) (b : ℕ) (v : Text) → size ≢ 0 → length (leftover size (b ∷ v)) ≤ length v
unfolding leftover
leftover_shrinks size b v h = ground (arith, length-leftover (size - 1) v)

fitting_some : (size b : ℕ) (v : Text) → size ≢ 0 → is_empty (fitting size (b ∷ v)) ≡ false
unfolding fitting
fitting_some size b v h = ground arith

abbrev pub Positive : ℕ → Type 0
Positive n = n ≢ 0

-- A client that has fetched a value and still has these bytes of it.
abbrev pub holding : ℕ → Text → Text → Etcd
holding id tree_prefix v = record {
  id = id;
  tree_prefix = tree_prefix;
  data_bytes = v;
  has_read = true;
}

-- A client that has not fetched its value.
abbrev pub unread : ℕ → Text → Etcd
unread id tree_prefix = record {
  id = id;
  tree_prefix = tree_prefix;
  data_bytes = [];
  has_read = false;
}

module _ (kv : Kv) (uuids : Uuids) where
  read-empty :
      (size id : ℕ) (t : Text) (w : World kv)
      → id ≢ 0
      → read kv uuids size (holding id t []) w ≡ (failed eof, holding id t [], w)
  unfolding read hand_out
  read-empty size id t w named = ground arith

  read-more :
      (size id b : ℕ) (t v : Text) (w : World kv)
      → id ≢ 0
      → size ≢ 0
      → read kv uuids size (holding id t (b ∷ v)) w
        ≡ (bytes (fitting size (b ∷ v)), holding id t (leftover size (b ∷ v)), w)
  unfolding read hand_out
  read-more size id b t v w named h = ground (arith, fitting_some size b v h)

  read_all_step :
      (size : ℕ) (sizes : List ℕ) (etcd e : Etcd) (w later : World kv) (r : ReadResult)
      → read kv uuids size etcd w ≡ (r, e, later)
      → read_all kv uuids (size ∷ sizes) etcd w
        ≡ collect kv uuids r (read_all kv uuids sizes e later)
  unfolding read_all
  read_all_step size sizes etcd e w later r h =
      ap (λ x. collect kv uuids x.0 (read_all kv uuids sizes x.1 x.2)) h

  -- Calls that begin alike are alike.
  read_all_again :
      (size : ℕ) (sizes : List ℕ) (id : ℕ) (v : Text) (w : World kv)
      → read kv uuids size (unread id []) w ≡ read kv uuids size (holding id [] v) (moved_on kv w)
      → read_all kv uuids (size ∷ sizes) (unread id []) w
        ≡ read_all kv uuids (size ∷ sizes) (holding id [] v) (moved_on kv w)
  unfolding read_all
  read_all_again size sizes id v w h =
      ap (λ x. collect kv uuids x.0 (read_all kv uuids sizes x.1 x.2)) h

  read_all_rest :
      (sizes : List ℕ) (id : ℕ) (t v : Text) (w : World kv)
      → id ≢ 0
      → All Positive sizes
      → length v < length sizes
      → read_all kv uuids sizes (holding id t v) w ≡ (v, some eof)
  read_all_rest [] id t v w named p enough = absurd (omega (arith, enough))
  read_all_rest (size ∷ sizes) id t [] w named p enough =
      read_all_step size sizes _ _ w w _ (read-empty size id t w named)
  read_all_rest (size ∷ sizes) id t (b ∷ v) w named (pos, p) enough =
      read_all_step size sizes _ _ w w _ (read-more size id b t v w named pos)
      ∙ ap (collect kv uuids (bytes (fitting size (b ∷ v)))) (
          read_all_rest sizes id t (leftover size (b ∷ v)) w named p
            (omega (arith, enough, leftover_shrinks size b v pos)))
      ∙ ap (λ x. (x, some eof)) (fitting-append-leftover size (b ∷ v))

  -- The first call fetches the value and then does what a call does that has it.
  read-fetched :
      (size id : ℕ) (t v : Text) (w : World kv)
      → id ≢ 0
      → first_answer w.answers ≡ applied
      → kv.get (key kv uuids (unread id t)) w.store ≡ some v
      → read kv uuids size (unread id t) w ≡ read kv uuids size (holding id t v) (moved_on kv w)
  unfolding read
  read-fetched size id t v w named answered stored = ground (arith, stored, answered)

  -- A reader of a stored value that calls `Read` often enough gets the bytes of the value, in order
  -- and once, and then the end of the file: whatever the sizes of its buffers are, if none is empty
  -- and the request is answered.
  pub read_all_lem :
      (etcd : Etcd) (id : ℕ) (sizes : List ℕ) (v : Text) (w : World kv)
      → id ≢ 0
      → first_answer w.answers ≡ applied
      → kv.get (key kv uuids (open_id etcd id)) w.store ≡ some v
      → All Positive sizes
      → length v < length sizes
      → read_all kv uuids sizes (open_id etcd id) w ≡ (v, some eof)
  unfolding open_id
  read_all_lem etcd id [] v w named answered stored p enough = absurd (omega (arith, enough))
  read_all_lem etcd id (size ∷ sizes) v w named answered stored p enough =
      read_all_again size sizes id v w (read-fetched size id [] v w named answered stored)
      ∙ read_all_rest (size ∷ sizes) id [] v (moved_on kv w) named p enough
