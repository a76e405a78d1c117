-- ===== src/Space/Provider/Checkout.antt =====
-- `Checkout` of internal/executionspace/provider/provider.go: a checkout that is done is complete.
use etos_api.Prelude.{
  ℕ, suc, zero, ◌+◌, ◌≡◌, ◌⊎◌, inl, inr, refl, sym, ap, ◌∙◌, Option, none, some, List, [], ◌∷◌,
  ◌++◌, arith, Text, length, All, All-append, length-append,
}
use mathlib.Core.Path.{subst}
use etos_api.Database.{Error, Uuids, Kv, Etcd, open_id, World, key}
use etos_api.Space.{
  Map, ExecutorSpec, ExecutionSpace, done, Codec, Common, new_executor_spec, new, add, save_space,
  value,
}
use etos_api.Space.Environment.{environment_id}
use etos_api.Space.Saves.{Saved, save_executor-Saved, save_space-Saved}
use etos_api.Space.Provider.{
  FreshIds, ExecutorConfig, save_executor, checkout_loop, checkout, start_by,
}
use etos_api.Space.Provider.Outcome.{
  AreFresh, key_of-injective, at, Made, Outcome, Inv, Made-kept, Outcome-waiting, finish-Outcome,
  after_save-Outcome, waiting-saved,
}

module _ (kv : Kv) (uuids : Uuids) (specs : Codec ExecutorSpec) (spaces : Codec ExecutionSpace)
    (db : Etcd) (ids : FreshIds) (own : ℕ) (c : Common) where
  -- The executor of the round that wrote it.
  abbrev made_in : ℕ → Map → ExecutorSpec
  made_in i m = new_executor_spec uuids c (ids i).0 (ids i).1 m

  Made-new :
      (i : ℕ) (m : Map) (store : kv.State)
      → Made kv uuids specs spaces db ids own c
          (i + 1)
          (kv.put
            (at kv uuids specs spaces db ids own c (ids i).0)
            (specs.encode (made_in i m))
            store)
          (uuids.show (ids i).0)
  unfolding new_executor_spec
  Made-new i m store = record {
    index = i;
    below = omega arith;
    named = refl;
    spec = made_in i m;
    stored = kv.get_put _ _ store;
    own_id = refl;
    told = environment_id uuids c.environ (ids i).0 m;
    requested = (refl, refl);
  }

  module _ (fresh : AreFresh ids own) where
    put-Made :
        (i : ℕ) (m : Map) (refs : List Text) (store : kv.State)
        → All (Made kv uuids specs spaces db ids own c i store) refs
        → All
            (Made kv uuids specs spaces db ids own c (i + 1) (
              kv.put
                (at kv uuids specs spaces db ids own c (ids i).0)
                (specs.encode (made_in i m))
                store))
            (refs ++ uuids.show (ids i).0 ∷ [])
    put-Made i m refs store made =
        All-append _ refs (uuids.show (ids i).0 ∷ [])
          (Made-kept kv uuids specs spaces db ids own c i (i + 1) store _ refs (omega arith)
            (λ j below.
              kv.get_put_other _ (at kv uuids specs spaces db ids own c (ids j).0) _ store (λ e.
                omega (
                  arith,
                  below,
                  fresh.distinct j i (key_of-injective kv uuids db (ids j).0 (ids i).0 e),
                )))
            made)
          (Made-new i m store, tt)

    save_executor-Inv :
        (i : ℕ) (m : Map) (space : ExecutionSpace) (w : World kv)
        → Inv kv uuids specs spaces db ids own c i space w.store
        → (save_executor kv uuids specs spaces db (made_in i m) w).0 ≡ none
        → Inv kv uuids specs spaces db ids own c
            (i + 1)
            (add uuids (made_in i m) space)
            (save_executor kv uuids specs spaces db (made_in i m) w).1.store
    unfolding add new_executor_spec
    save_executor-Inv i m space w v ok = record {
      own_space = v.own_space;
      waiting =
          waiting-saved kv uuids specs spaces db ids own c fresh i (made_in i m) w refl v.waiting;
      count = length-append space.references _ ∙ ap (λ n. n + 1) v.count;
      made = elim (save_executor-Saved kv uuids specs spaces db (made_in i m) w) [
        | inl put ↦
            subst
              (λ s.
                All (Made kv uuids specs spaces db ids own c (i + 1) s)
                  (space.references ++ uuids.show (ids i).0 ∷ []))
              (sym put) (put-Made i m space.references w.store v.made)
        | inr (same, bad) ↦ absurd (bad ok)
      ];
    }

    pub checkout_loop-Outcome :
        (n i total : ℕ) (m : Option Map) (space : ExecutionSpace) (w : World kv)
        → i + n ≡ total
        → Inv kv uuids specs spaces db ids own c i space w.store
        → Outcome kv uuids specs spaces db ids own c total
            (checkout_loop kv uuids specs spaces db c ids n i m space w).1.store
    unfolding checkout_loop
    checkout_loop-Outcome zero i total m space w e v =
        finish-Outcome kv uuids specs spaces db ids own c fresh total space w
          (subst (λ k. Inv kv uuids specs spaces db ids own c k space w.store) (omega (arith, e)) v)
    checkout_loop-Outcome (suc n) i total none space w e v =
        Outcome-waiting kv uuids specs spaces db ids own c total w.store v.waiting
    checkout_loop-Outcome (suc n) i total (some m) space w e v =
        after_save-Outcome kv uuids specs spaces db ids own c fresh total
          (checkout_loop kv uuids specs spaces db c ids n (i + 1)
            (some (made_in i m).instructions.environment) (add uuids (made_in i m) space))
          (add uuids (made_in i m) space) (save_executor kv uuids specs spaces db (made_in i m) w)
          (unfold add in v.own_space)
          (Outcome-waiting kv uuids specs spaces db ids own c total _ (
            waiting-saved kv uuids specs spaces db ids own c fresh i (made_in i m) w
              (unfold new_executor_spec in refl) v.waiting))
          (λ ok.
            checkout_loop-Outcome n (i + 1) total (some (made_in i m).instructions.environment)
              (add uuids (made_in i m) space) _ (omega (arith, e))
              (save_executor-Inv i m space w v ok))

module _ (kv : Kv) (uuids : Uuids) (specs : Codec ExecutorSpec) (spaces : Codec ExecutionSpace)
    (db : Etcd) (ids : FreshIds) (own : ℕ) (fresh : AreFresh ids own) where
  start_by-Outcome :
      (cfg : ExecutorConfig) (w : World kv) (p : Option Error × World kv)
      → kv.get (key kv uuids (open_id db own)) w.store ≡ none
      → Saved kv (key kv uuids (open_id db own)) (spaces.encode (new own)) w p
      → cfg.checkout_id ≡ own
      → (kv.get
            (key kv uuids (open_id db own))
            (start_by kv uuids specs spaces db cfg ids p).1.store
          ≡ none)
        ⊎ Outcome kv uuids specs spaces db ids own cfg.common cfg.amount
            (start_by kv uuids specs spaces db cfg ids p).1.store
  start_by-Outcome cfg w (some e, later) absent (inl put) named = inr (
      Outcome-waiting kv uuids specs spaces db ids own cfg.common cfg.amount later.store
        (ap (kv.get (key kv uuids (open_id db own))) put ∙ kv.get_put _ _ w.store))
  start_by-Outcome cfg w (some e, later) absent (inr (same, bad)) named =
      inl (ap (kv.get (key kv uuids (open_id db own))) same ∙ absent)
  start_by-Outcome cfg w (none, later) absent (inr (same, bad)) named = absurd (bad refl)
  start_by-Outcome cfg w (none, later) absent (inl put) named = inr (
      checkout_loop-Outcome kv uuids specs spaces db ids own cfg.common fresh cfg.amount 0
        cfg.amount cfg.environment (new cfg.checkout_id) later (omega arith)
        (record {
          own_space = unfold new in named;
          waiting = ap (kv.get (key kv uuids (open_id db own))) put ∙ kv.get_put _ _ w.store;
          count = unfold new in refl;
          made = unfold new in tt;
        }))

module _ (kv : Kv) (uuids : Uuids) (specs : Codec ExecutorSpec) (spaces : Codec ExecutionSpace)
    (db : Etcd) where
  -- What the store says, for the space that is decoded from it.
  Outcome-decoded :
      (ids : FreshIds) (own : ℕ) (c : Common) (n : ℕ) (store : kv.State) (v : Text)
      (space : ExecutionSpace)
      → Outcome kv uuids specs spaces db ids own c n store
      → kv.get (key kv uuids (open_id db own)) store ≡ some v
      → spaces.decode v ≡ value space
      → space.status ≡ done
      → (length space.references ≡ n)
        × All (Made kv uuids specs spaces db ids own c n store) space.references
  Outcome-decoded ids own c n store v space o stored decoded is_done =
      let same_value : v ≡ spaces.encode o.space = cc (stored, o.stored) in
      let same : o.space ≡ space =
        cc (ap spaces.decode same_value, spaces.decode_encode o.space, decoded) in
      subst
        (λ s.
          (s.status ≡ done)
          → (length s.references ≡ n)
            × All (Made kv uuids specs spaces db ids own c n store) s.references)
        same o.full is_done

  save_new-Saved :
      (own : ℕ) (w : World kv)
      → Saved kv
          (key kv uuids (open_id db own))
          (spaces.encode (new own))
          w
          (save_space kv uuids spaces (open_id db own) (new own) w)
  unfolding new
  save_new-Saved own w = save_space-Saved kv uuids specs spaces db (new own) w

  Outcome-read :
      (ids : FreshIds) (own : ℕ) (c : Common) (n : ℕ) (store : kv.State) (v : Text)
      (space : ExecutionSpace)
      → (kv.get (key kv uuids (open_id db own)) store ≡ none)
        ⊎ Outcome kv uuids specs spaces db ids own c n store
      → kv.get (key kv uuids (open_id db own)) store ≡ some v
      → spaces.decode v ≡ value space
      → space.status ≡ done
      → (length space.references ≡ n)
        × All (Made kv uuids specs spaces db ids own c n store) space.references
  Outcome-read ids own c n store v space (inl gone) stored decoded is_done =
      absurd (cc (gone, stored))
  Outcome-read ids own c n store v space (inr o) stored decoded is_done =
      Outcome-decoded ids own c n store v space o stored decoded is_done

  -- A checkout whose space is read back as done is complete, whatever requests failed: it has as many
  -- references as executors were asked for, and each names an executor that is stored under its id,
  -- whose environment holds that id, and that is requested by a POST to the URL of the provider. The UUIDs are used once, and the checkout's is unused before.
  pub checkout-Made :
      (ids : FreshIds) (cfg : ExecutorConfig) (w : World kv) (v : Text) (space : ExecutionSpace)
      → AreFresh ids cfg.checkout_id
      → kv.get (key kv uuids (open_id db cfg.checkout_id)) w.store ≡ none
      → kv.get
          (key kv uuids (open_id db cfg.checkout_id))
          (checkout kv uuids specs spaces db cfg ids w).1.store
        ≡ some v
      → spaces.decode v ≡ value space
      → space.status ≡ done
      → (length space.references ≡ cfg.amount)
        × All
            (Made kv uuids specs spaces db ids cfg.checkout_id cfg.common cfg.amount
              (checkout kv uuids specs spaces db cfg ids w).1.store)
            space.references
  unfolding checkout
  checkout-Made ids cfg w v space fresh absent stored decoded is_done =
      Outcome-read ids cfg.checkout_id cfg.common cfg.amount _ v space
        (start_by-Outcome kv uuids specs spaces db ids cfg.checkout_id fresh cfg w
          (save_space kv uuids spaces (open_id db cfg.checkout_id) (new cfg.checkout_id) w) absent
          (save_new-Saved cfg.checkout_id w) refl)
        stored decoded is_done
