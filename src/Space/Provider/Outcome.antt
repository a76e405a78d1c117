-- ===== src/Space/Provider/Outcome.antt =====
-- `Checkout` of internal/executionspace/provider/provider.go: what the store may say about a checkout
-- and its executors, and that each write keeps to it.
use etos_api.Prelude.{
  ℕ, ◌<◌, ◌≤◌, ◌≡◌, ◌≢◌, inl, inr, refl, sym, ap, ◌∙◌, Option, none, some, List, [], ◌∷◌, arith,
  Text, codes, length, All,
}
use mathlib.Core.Path.{subst}
use etos_api.Database.{Error, Uuids, Kv, Etcd, open_id, World, key}
use etos_api.Space.{
  lookup, Common, ExecutorSpec, ExecutionSpace, done, Codec, new, save_space, fail_space,
}
use etos_api.Space.Saves.{Saved, save_executor-Saved, save_space-Saved}
use etos_api.Space.Provider.{
  FreshIds, Ended, save_executor, finish, finish_by, checked_out, after_save,
}

-- UUIDs that are used once, for the executors of the checkout `own`.
pub record AreFresh (ids : FreshIds) (own : ℕ) : Type 0 where
  pub others : (i : ℕ) → (ids i).0 ≢ own
  pub distinct : (i j : ℕ) → (ids i).0 ≡ (ids j).0 → i ≡ j

pub Saved-other :
    (kv : Kv) (k l v : Text) (w : World kv) (p : Option Error × World kv)
    → Saved kv k v w p
    → l ≢ k
    → kv.get l p.1.store ≡ kv.get l w.store
Saved-other kv k l v w p (inl h) other = ap (kv.get l) h ∙ kv.get_put_other k l v w.store other
Saved-other kv k l v w p (inr (h, bad)) other = ap (kv.get l) h

module _ (kv : Kv) (uuids : Uuids) (db : Etcd) where
  pub key_of-injective :
      (a b : ℕ) → key kv uuids (open_id db a) ≡ key kv uuids (open_id db b) → a ≡ b
  unfolding key open_id
  key_of-injective a b e =
      let same : uuids.show a ≡ uuids.show b = cc in
      cc (uuids.parse_show a, uuids.parse_show b, ap uuids.parse same)

module _ (kv : Kv) (uuids : Uuids) (specs : Codec ExecutorSpec) (spaces : Codec ExecutionSpace)
    (db : Etcd) (ids : FreshIds) (own : ℕ) (c : Common) where
  abbrev pub at : ℕ → Text
  at id = key kv uuids (open_id db id)

  -- The reference names one of the first `n` executors, which is stored under its id, is told that id by
  -- its environment, and is requested by a POST to the URL of the provider.
  pub record Made (n : ℕ) (store : kv.State) (reference : Text) : Type 0 where
    pub index : ℕ
    pub below : index < n
    pub named : reference ≡ uuids.show (ids index).0
    pub spec : ExecutorSpec
    pub stored : kv.get (key kv uuids (open_id db (ids index).0)) store ≡ some (specs.encode spec)
    pub own_id : spec.id ≡ (ids index).0
    pub told : lookup (codes "ENVIRONMENT_ID") spec.instructions.environment ≡ some reference
    pub requested : (spec.request.url ≡ c.url) × (spec.request.method ≡ codes "POST")

  -- What the store says about the checkout: if it is done, its references are those of all
  -- executors.
  pub record Outcome (n : ℕ) (store : kv.State) : Type 0 where
    pub space : ExecutionSpace
    pub stored : kv.get (key kv uuids (open_id db own)) store ≡ some (spaces.encode space)
    pub full :
        space.status ≡ done → (length space.references ≡ n) × All (Made n store) space.references

  -- Before a round: the stored space is pending.
  pub record Inv (i : ℕ) (space : ExecutionSpace) (store : kv.State) : Type 0 where
    pub own_space : space.id ≡ own
    pub waiting : kv.get (at own) store ≡ some (spaces.encode (new own))
    pub count : length space.references ≡ i
    pub made : All (Made i store) space.references

  pub Made-kept :
      (i n : ℕ) (s t : kv.State) (refs : List Text)
      → i ≤ n
      → ((j : ℕ) → j < i → kv.get (at (ids j).0) t ≡ kv.get (at (ids j).0) s)
      → All (Made i s) refs
      → All (Made n t) refs
  Made-kept i n s t [] le same h = tt
  Made-kept i n s t (r ∷ refs) le same (m, h) = (
    record {
      index = m.index;
      below = omega (arith, le, m.below);
      named = m.named;
      spec = m.spec;
      stored = same m.index m.below ∙ m.stored;
      own_id = m.own_id;
      told = m.told;
      requested = m.requested;
    },
    Made-kept i n s t refs le same h,
  )

  pub Outcome-waiting :
      (n : ℕ) (store : kv.State)
      → kv.get (at own) store ≡ some (spaces.encode (new own))
      → Outcome n store
  unfolding new
  Outcome-waiting n store h = record { space = new own; stored = h; full = λ e. cc }

  module _ (fresh : AreFresh ids own) where
    put-Outcome :
        (n : ℕ) (s : ExecutionSpace) (store : kv.State)
        → s.id ≡ own
        → (s.status ≡ done → (length s.references ≡ n) × All (Made n store) s.references)
        → Outcome n (kv.put (at s.id) (spaces.encode (record s { executors = [] })) store)
    put-Outcome n s store o full = record {
      space = record s { executors = [] };
      stored =
          ap
            (λ x.
              kv.get (at own) (kv.put (at x) (spaces.encode (record s { executors = [] })) store))
            o
          ∙ kv.get_put (at own) (spaces.encode (record s { executors = [] })) store;
      full = λ d.
          let (count, made) = full d in
          (
            count,
            Made-kept n n store
                (kv.put (at s.id) (spaces.encode (record s { executors = [] })) store) s.references
                (omega arith)
                (λ j below.
                  kv.get_put_other (at s.id) (at (ids j).0) _ store
                    (λ e. fresh.others j (key_of-injective kv uuids db (ids j).0 s.id e ∙ o)))
                made,
          );
    }

    save-Outcome :
        (n : ℕ) (s : ExecutionSpace) (w : World kv)
        → s.id ≡ own
        → (s.status ≡ done → (length s.references ≡ n) × All (Made n w.store) s.references)
        → Outcome n w.store
        → Outcome n (save_space kv uuids spaces (open_id db s.id) s w).1.store
    save-Outcome n s w o full h = elim (save_space-Saved kv uuids specs spaces db s w) [
      | inl put ↦ subst (Outcome n) (sym put) (put-Outcome n s w.store o full)
      | inr (same, bad) ↦ subst (Outcome n) (sym same) h
    ]

    -- `Fail` never makes a checkout look done.
    fail-Outcome :
        (n : ℕ) (space : ExecutionSpace) (e : Error) (w : World kv)
        → space.id ≡ own
        → Outcome n w.store
        → Outcome n (fail_space kv uuids spaces (open_id db space.id) space e w).1.store
    unfolding fail_space
    fail-Outcome n space e w o h = save-Outcome n _ w o (λ d. cc) h

    finish_by-Outcome :
        (n : ℕ) (space : ExecutionSpace) (p : Option Error × World kv)
        → space.id ≡ own
        → Outcome n p.1.store
        → Outcome n (finish_by kv uuids specs spaces db space p).1.store
    finish_by-Outcome n space (none, w) o h = h
    finish_by-Outcome n space (some e, w) o h = fail-Outcome n space e w o h

    pub finish-Outcome :
        (n : ℕ) (space : ExecutionSpace) (w : World kv)
        → Inv n space w.store
        → Outcome n (finish kv uuids specs spaces db space w).1.store
    unfolding finish
    finish-Outcome n space w i =
        finish_by-Outcome n (checked_out kv uuids specs spaces db space)
          (save_space kv uuids spaces (open_id db space.id)
            (checked_out kv uuids specs spaces db space) w)
          i.own_space
          (save-Outcome n (checked_out kv uuids specs spaces db space) w i.own_space
            (λ d. (i.count, i.made)) (Outcome-waiting n w.store i.waiting))

    pub after_save-Outcome :
        (n : ℕ) (next : World kv → Ended × World kv) (added : ExecutionSpace)
        (p : Option Error × World kv)
        → added.id ≡ own
        → Outcome n p.1.store
        → (p.0 ≡ none → Outcome n (next p.1).1.store)
        → Outcome n (after_save kv uuids specs spaces db next added p).1.store
    after_save-Outcome n next added (none, w) o h k = k refl
    after_save-Outcome n next added (some e, w) o h k = fail-Outcome n added e w o h

    -- A write of an executor leaves the pending space alone.
    pub waiting-saved :
        (i : ℕ) (e : ExecutorSpec) (w : World kv)
        → e.id ≡ (ids i).0
        → kv.get (at own) w.store ≡ some (spaces.encode (new own))
        → kv.get (at own) (save_executor kv uuids specs spaces db e w).1.store
          ≡ some (spaces.encode (new own))
    waiting-saved i e w named h =
        Saved-other kv (at e.id) (at own) (specs.encode e) w
          (save_executor kv uuids specs spaces db e w)
          (save_executor-Saved kv uuids specs spaces db e w)
          (λ k. fresh.others i (sym named ∙ sym (key_of-injective kv uuids db own e.id k)))
        ∙ h
