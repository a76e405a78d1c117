-- ===== src/Space/Saves.antt =====
-- The writes of pkg/executionspace/executionspace and internal/executionspace/provider: what a write
-- that may fail does to the store.
use etos_api.Prelude.{◌≡◌, ◌≢◌, ◌⊎◌, inl, inr, refl, arith, Option, none, some, ℕ, [], Text, codes}
use etos_api.Database.{
  Error, Answer, applied, lost, unheard, first_answer, Uuids, Kv, Etcd, open_id, World, key, write,
  request, change_by, moved_on,
}
use etos_api.Space.{ExecutorSpec, ExecutionSpace, Codec, save_spec, save_space, joined_to}
use etos_api.Space.Provider.{save_executor}

-- What the request of a write does to the store.
abbrev pub Saved : (kv : Kv) → Text → Text → World kv → Option Error × World kv → Type 0
Saved kv k v w (r, later) =
    (later.store ≡ kv.put k v w.store) ⊎ ((later.store ≡ w.store) × (r ≢ none))

change_by-Saved :
    (kv : Kv) (k v : Text) (w : World kv) (a : Answer)
    → Saved kv k v w (change_by kv a (kv.put k v) (moved_on kv w))
change_by-Saved kv k v w applied = inl refl
change_by-Saved kv k v w (lost t) = inr (refl, λ e. cc)
change_by-Saved kv k v w (unheard t) = inl refl

request-Saved : (kv : Kv) (k v : Text) (w : World kv) → Saved kv k v w (request kv (kv.put k v) w)
unfolding request
request-Saved kv k v w = change_by-Saved kv k v w (first_answer w.answers)

pub write-Saved :
    (kv : Kv) (uuids : Uuids) (client : Etcd) (v : Text) (w : World kv)
    → Saved kv (key kv uuids client) v w (write kv uuids client v w)
unfolding write
write-Saved kv uuids client v w = ground (arith, request-Saved kv (key kv uuids client) v w)

joined-Saved :
    (kv : Kv) (k v : Text) (w : World kv) (t : Text) (p : Option Error × World kv)
    → Saved kv k v w p
    → Saved kv k v w (joined_to t p.0, p.1)
joined-Saved kv k v w t (none, later) h = h
joined-Saved kv k v w t (some e, later) (inl h) = inl h
joined-Saved kv k v w t (some e, later) (inr (h, bad)) = inr (h, λ e. cc)

module _ (kv : Kv) (uuids : Uuids) (specs : Codec ExecutorSpec) (spaces : Codec ExecutionSpace)
    (db : Etcd) where
  abbrev pub key_of : ℕ → Text
  key_of id = key kv uuids (open_id db id)

  pub save_executor-Saved :
      (e : ExecutorSpec) (w : World kv)
      → Saved kv (key_of e.id) (specs.encode e) w (save_executor kv uuids specs spaces db e w)
  unfolding save_executor save_spec
  save_executor-Saved e w =
      joined-Saved kv _ _ w (codes "failed to write executor to database")
        (write kv uuids (open_id db e.id) (specs.encode e) w)
        (write-Saved kv uuids (open_id db e.id) (specs.encode e) w)

  pub save_space-Saved :
      (s : ExecutionSpace) (w : World kv)
      → Saved kv
          (key_of s.id)
          (spaces.encode (record s { executors = [] }))
          w
          (save_space kv uuids spaces (open_id db s.id) s w)
  unfolding save_space
  save_space-Saved s w =
      joined-Saved kv _ _ w (codes "failed to write execution space to database")
        (write kv uuids (open_id db s.id) (spaces.encode (record s { executors = [] })) w)
        (write-Saved kv uuids (open_id db s.id) (spaces.encode (record s { executors = [] })) w)
