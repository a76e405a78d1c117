-- ===== src/Space/Provider/Answering.antt =====
-- `Checkout` and `Status` of internal/executionspace/provider/provider.go when the database answers
-- every request: what each call does.
use etos_api.Prelude.{
  ℕ, suc, zero, ◌+◌, ◌≡◌, ◌≢◌, refl, sym, ap, ◌∙◌, none, some, List, [], ◌∷◌, arith, Text, codes,
}
use mathlib.Core.Path.{subst}
use etos_api.Database.{Uuids, Kv, Etcd, open_id, World, key, write, request}
use etos_api.Space.{
  Map, ExecutorSpec, ExecutionSpace, done, Codec, Common, new_executor_spec, new, add, save_spec,
  save_space, value, joined_to,
}
use etos_api.Space.Provider.{
  FreshIds, ExecutorConfig, Ended, returned, save_executor, checkout_loop, checkout, finish,
  checked_out, after_save, executor_spec, collect_executors, with_executor, decoded_from,
  referred_by, loaded_by, start_by, finish_by,
}

module _ (kv : Kv) (uuids : Uuids) (specs : Codec ExecutorSpec) (spaces : Codec ExecutionSpace)
    (db : Etcd) where
  -- A database that answers every request.
  abbrev pub answering : kv.State → World kv
  answering store = record { store = store; answers = [] }

  write-answering :
      (client : Etcd) (v : Text) (store : kv.State)
      → client.id ≢ 0
      → write kv uuids client v (answering store)
        ≡ (none, answering (kv.put (key kv uuids client) v store))
  unfolding write request
  write-answering client v store named = ground arith

  save_executor-answering :
      (e : ExecutorSpec) (store : kv.State)
      → e.id ≢ 0
      → save_executor kv uuids specs spaces db e (answering store)
        ≡ (none, answering (kv.put (key kv uuids (open_id db e.id)) (specs.encode e) store))
  unfolding save_executor save_spec open_id
  save_executor-answering e store named =
      ap (λ p. (joined_to (codes "failed to write executor to database") p.0, p.1))
        (write-answering (open_id db e.id) (specs.encode e) store named)

  save_space-answering :
      (s : ExecutionSpace) (store : kv.State)
      → s.id ≢ 0
      → save_space kv uuids spaces (open_id db s.id) s (answering store) ≡ (
        none,
        answering (
            kv.put
              (key kv uuids (open_id db s.id))
              (spaces.encode (record s { executors = [] }))
              store),
      )
  unfolding save_space open_id
  save_space-answering s store named =
      ap (λ p. (joined_to (codes "failed to write execution space to database") p.0, p.1))
        (write-answering (open_id db s.id) (spaces.encode (record s { executors = [] })) store
          named)

  pub executor_spec-answering :
      (id : ℕ) (e : ExecutorSpec) (store : kv.State)
      → kv.get (key kv uuids (open_id db id)) store ≡ some (specs.encode e)
      → executor_spec kv uuids specs spaces db id (answering store) ≡ (value e, answering store)
  unfolding executor_spec
  executor_spec-answering id e store stored =
      ap (λ o. (decoded_from kv uuids specs spaces db specs o, answering store)) stored
      ∙ ap (λ d. (d, answering store)) (specs.decode_encode e)

  pub collect_step :
      (bad : Text → Text) (r : Text) (rs : List Text) (s : ExecutionSpace) (id : ℕ)
      (e : ExecutorSpec) (w : World kv)
      → uuids.parse r ≡ some id
      → executor_spec kv uuids specs spaces db id w ≡ (value e, w)
      → collect_executors kv uuids specs spaces db bad (r ∷ rs) s w
        ≡ collect_executors kv uuids specs spaces db bad rs
            (with_executor kv uuids specs spaces db e s)
            w
  unfolding collect_executors
  collect_step bad r rs s id e w parsed loaded =
      ap
        (referred_by kv uuids specs spaces db (collect_executors kv uuids specs spaces db bad rs)
          (bad r) s w)
        parsed
      ∙ ap
          (loaded_by kv uuids specs spaces db (collect_executors kv uuids specs spaces db bad rs) id
            s)
          loaded

  finish-answering :
      (s : ExecutionSpace) (store : kv.State)
      → s.id ≢ 0
      → finish kv uuids specs spaces db s (answering store) ≡ (
        returned,
        answering (
            kv.put
              (key kv uuids (open_id db s.id))
              (spaces.encode (record (checked_out kv uuids specs spaces db s) { executors = [] }))
              store),
      )
  unfolding finish
  finish-answering s store named =
      ap (finish_by kv uuids specs spaces db (checked_out kv uuids specs spaces db s))
        (save_space-answering (checked_out kv uuids specs spaces db s) store named)

  -- The store after a checkout that ended without a panic, and the space in it.
  pub record Finished (id : ℕ) (p : Ended × World kv) : Type 0 where
    pub store : kv.State
    pub space : ExecutionSpace
    pub ended : p ≡ (returned, answering store)
    pub stored : kv.get (key kv uuids (open_id db id)) store ≡ some (spaces.encode space)
    pub is_done : space.status ≡ done
    pub bare : space.executors ≡ []

  finish-Finished :
      (s : ExecutionSpace) (store : kv.State)
      → s.id ≢ 0
      → Finished s.id (finish kv uuids specs spaces db s (answering store))
  finish-Finished s store named = record {
    store = _;
    space = record (checked_out kv uuids specs spaces db s) { executors = [] };
    ended = finish-answering s store named;
    stored = kv.get_put _ _ store;
    is_done = refl;
    bare = refl;
  }

  checkout_loop-Finished :
      (c : Common) (ids : FreshIds) (n i : ℕ) (m : Map) (s : ExecutionSpace) (store : kv.State)
      → s.id ≢ 0
      → ((j : ℕ) → (ids j).0 ≢ 0)
      → Finished s.id
          (checkout_loop kv uuids specs spaces db c ids n i (some m) s (answering store))
  unfolding checkout_loop new_executor_spec add
  checkout_loop-Finished c ids zero i m s store named all_named = finish-Finished s store named
  checkout_loop-Finished c ids (suc n) i m s store named all_named =
      let e = new_executor_spec uuids c (ids i).0 (ids i).1 m in
      subst
        (λ p. Finished s.id (
          after_save kv uuids specs spaces db
            (checkout_loop kv uuids specs spaces db c ids n (i + 1)
              (some e.instructions.environment) (add uuids e s))
            (add uuids e s) p))
        (sym (save_executor-answering e store (all_named i)))
        (checkout_loop-Finished c ids n (i + 1) e.instructions.environment (add uuids e s) _ named
          all_named)

  pub checkout-Finished :
      (cfg : ExecutorConfig) (ids : FreshIds) (m : Map) (store : kv.State)
      → cfg.environment ≡ some m
      → cfg.checkout_id ≢ 0
      → ((j : ℕ) → (ids j).0 ≢ 0)
      → Finished cfg.checkout_id (checkout kv uuids specs spaces db cfg ids (answering store))
  unfolding checkout new
  checkout-Finished cfg ids m store env named all_named =
      let looped = λ (st : kv.State).
        subst
          (λ o. Finished cfg.checkout_id (
            checkout_loop kv uuids specs spaces db cfg.common ids cfg.amount 0 o
              (new cfg.checkout_id) (answering st)))
          (sym env)
          (checkout_loop-Finished cfg.common ids cfg.amount 0 m (new cfg.checkout_id) st named
            all_named) in
      subst (λ p. Finished cfg.checkout_id (start_by kv uuids specs spaces db cfg ids p))
        (sym (save_space-answering (new cfg.checkout_id) store named)) (looped _)
