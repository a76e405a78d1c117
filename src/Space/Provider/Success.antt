-- ===== src/Space/Provider/Success.antt =====
-- `Checkout` and `Status` of internal/executionspace/provider/provider.go when the database answers
-- every request.
use etos_api.Prelude.{
  ℕ, suc, ◌≡◌, ◌≢◌, refl, sym, ap, ◌∙◌, Option, none, some, List, [], length, ◌∷◌, ◌++◌, map, Text,
  codes, length, All, append-nil, append_assoc,
}
use mathlib.Core.Path.{subst}
use etos_api.Database.{Error, Uuids, Kv, Etcd, open_id, World, key}
use etos_api.Space.{Map, Common, ExecutorSpec, ExecutionSpace, done, Codec, value}
use etos_api.Space.Provider.{
  FreshIds, ExecutorConfig, Ended, returned, checkout, execution_space, collect_executors,
  status_of, with_executor, decoded_from, status_by,
}
use etos_api.Space.Provider.Outcome.{AreFresh, Made}
use etos_api.Space.Provider.Checkout.{checkout-Made}
use etos_api.Space.Provider.Answering.{
  answering, executor_spec-answering, collect_step, Finished, checkout-Finished,
}

module _ (kv : Kv) (uuids : Uuids) (specs : Codec ExecutorSpec) (spaces : Codec ExecutionSpace)
    (db : Etcd) where
  -- An executor is requested by a POST to the URL.
  abbrev pub IsRequestedAt : Text → ExecutorSpec → Type 0
  IsRequestedAt url e = (e.request.url ≡ url) × (e.request.method ≡ codes "POST")

  -- What `Status` collects: one executor for each reference, in order, all at the URL.
  pub record Collected (url : Text) (refs : List Text) (s : ExecutionSpace)
      (p : ExecutionSpace × Option Error) : Type 0 where
    pub executors : List ExecutorSpec
    pub named : map (λ e. uuids.show e.id) executors ≡ refs
    pub result : p ≡ (record s { executors = s.executors ++ executors }, none)
    pub requested : All (IsRequestedAt url) executors

  collect_executors-Collected :
      (bad : Text → Text) (ids : FreshIds) (own : ℕ) (c : Common) (n : ℕ) (refs : List Text)
      (s : ExecutionSpace) (store : kv.State)
      → All (Made kv uuids specs spaces db ids own c n store) refs
      → Collected c.url refs s (
          collect_executors kv uuids specs spaces db bad refs s
            (answering kv uuids specs spaces db store))
  unfolding collect_executors
  collect_executors-Collected bad ids own c n [] s store made = record {
    executors = [];
    named = refl;
    result = ap (λ es. (record s { executors = es }, none)) (sym (append-nil s.executors));
    requested = tt;
  }
  collect_executors-Collected bad ids own c n (r ∷ refs) s store (m, made) =
      let more =
        collect_executors-Collected bad ids own c n refs
          (with_executor kv uuids specs spaces db m.spec s) store made in
      record {
        executors = m.spec ∷ more.executors;
        named = cc (ap uuids.show m.own_id, m.named, more.named);
        result =
            collect_step kv uuids specs spaces db bad r refs s (ids m.index).0 m.spec
              (answering kv uuids specs spaces db store)
              (ap uuids.parse m.named ∙ uuids.parse_show (ids m.index).0)
              (executor_spec-answering kv uuids specs spaces db (ids m.index).0 m.spec store
                m.stored)
            ∙ more.result
            ∙ ap (λ es. (record s { executors = es }, none))
                (append_assoc s.executors (m.spec ∷ []) more.executors);
        requested = (m.requested, more.requested);
      }

  execution_space-answering :
      (id : ℕ) (s : ExecutionSpace) (store : kv.State)
      → kv.get (key kv uuids (open_id db id)) store ≡ some (spaces.encode s)
      → execution_space kv uuids specs spaces db id (answering kv uuids specs spaces db store)
        ≡ (value s, answering kv uuids specs spaces db store)
  unfolding execution_space
  execution_space-answering id s store stored =
      ap
        (λ o. (
          decoded_from kv uuids specs spaces db spaces o,
          answering kv uuids specs spaces db store,
        ))
        stored
      ∙ ap (λ d. (d, answering kv uuids specs spaces db store)) (spaces.decode_encode s)

  -- The checkout `cfg` ended without a panic, and `Status` then answers with a space that is done and
  -- holds the stored executors, one for each that was asked for, to be requested at the provider's URL.
  pub record CheckedOut (bad : Text → Text) (cfg : ExecutorConfig) (p : Ended × World kv)
      : Type 0 where
    pub store : kv.State
    pub space : ExecutionSpace
    pub ended : p ≡ (returned, answering kv uuids specs spaces db store)
    pub status :
        status_of kv uuids specs spaces db bad cfg.checkout_id
          (answering kv uuids specs spaces db store)
        ≡ (space, none)
    pub is_done : space.status ≡ done
    pub count : length space.executors ≡ cfg.amount
    pub named : map (λ e. uuids.show e.id) space.executors ≡ space.references
    pub requested : All (IsRequestedAt cfg.common.url) space.executors

  length-map_show : (es : List ExecutorSpec) → length (map (λ e. uuids.show e.id) es) ≡ length es
  length-map_show [] = refl
  length-map_show (e ∷ es) = ap suc (length-map_show es)

  Finished-CheckedOut :
      (bad : Text → Text) (cfg : ExecutorConfig) (ids : FreshIds) (p : Ended × World kv)
      (f : Finished kv uuids specs spaces db cfg.checkout_id p)
      → (length f.space.references ≡ cfg.amount)
        × All
            (Made kv uuids specs spaces db ids cfg.checkout_id cfg.common cfg.amount f.store)
            f.space.references
      → CheckedOut bad cfg p
  unfolding status_of
  Finished-CheckedOut bad cfg ids p f (count, made) =
      let c =
        collect_executors-Collected bad ids cfg.checkout_id cfg.common cfg.amount f.space.references
          f.space f.store made in
      let listed : f.space.executors ++ c.executors ≡ c.executors =
        ap (λ es. es ++ c.executors) f.bare in
      record {
        store = f.store;
        space = record f.space { executors = f.space.executors ++ c.executors };
        ended = f.ended;
        status =
            ap (status_by kv uuids specs spaces db bad cfg.checkout_id)
              (execution_space-answering cfg.checkout_id f.space f.store f.stored)
            ∙ c.result;
        is_done = f.is_done;
        count = ap length listed ∙ sym (length-map_show c.executors) ∙ ap length c.named ∙ count;
        named = ap (map (λ e. uuids.show e.id)) listed ∙ c.named;
        requested = subst (All (IsRequestedAt cfg.common.url)) (sym listed) c.requested;
      }

  -- If the database answers every request, the request has an environment, the UUIDs are used once
  -- and none is nil, then a checkout ends without a panic, and `Status` answers it with a space that
  -- is done and whose executors are as many as were asked for, those that its references name, all to be
  -- requested by a POST to the provider's URL.
  pub checkout-CheckedOut :
      (bad : Text → Text) (cfg : ExecutorConfig) (ids : FreshIds) (m : Map) (store : kv.State)
      → cfg.environment ≡ some m
      → cfg.checkout_id ≢ 0
      → ((j : ℕ) → (ids j).0 ≢ 0)
      → AreFresh ids cfg.checkout_id
      → kv.get (key kv uuids (open_id db cfg.checkout_id)) store ≡ none
      → CheckedOut bad cfg
          (checkout kv uuids specs spaces db cfg ids (answering kv uuids specs spaces db store))
  checkout-CheckedOut bad cfg ids m store env named all_named fresh absent =
      let f = checkout-Finished kv uuids specs spaces db cfg ids m store env named all_named in
      Finished-CheckedOut bad cfg ids _ f (
        subst
          (λ p.
            (length f.space.references ≡ cfg.amount)
            × All
                (Made kv uuids specs spaces db ids cfg.checkout_id cfg.common cfg.amount p.1.store)
                f.space.references)
          f.ended
          (checkout-Made kv uuids specs spaces db ids cfg (answering kv uuids specs spaces db store)
            (spaces.encode f.space) f.space fresh absent
            (ap (λ p. kv.get (key kv uuids (open_id db cfg.checkout_id)) p.1.store) f.ended
              ∙ f.stored)
            (spaces.decode_encode f.space) f.is_done))
