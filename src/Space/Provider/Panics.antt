-- ===== src/Space/Provider/Panics.antt =====
-- `Checkout` of internal/executionspace/provider/provider.go: the panics of its goroutine.
use etos_api.Prelude.{
  ℕ, suc, ◌≡◌, ◌≢◌, ◌↔◌, refl, sym, ap, ◌∙◌, arith, Option, none, some, [], Text, codes,
}
use mathlib.Core.Path.{subst}
use etos_api.Database.{
  Error, Answer, applied, lost, unheard, first_answer, later_answers, Uuids, Kv, Etcd, open_id,
  World, key, write, request, change_by, moved_on,
}
use etos_api.Space.{ExecutorSpec, ExecutionSpace, Codec, new, save_space, fail_space, joined_to}
use etos_api.Space.Provider.{
  FreshIds, ExecutorConfig, panics, checkout, checkout_loop, start_by, finish, finish_by,
  after_fail, checked_out,
}

module _ (kv : Kv) (uuids : Uuids) (specs : Codec ExecutorSpec) (spaces : Codec ExecutionSpace)
    (db : Etcd) where
  -- Whether a write fails, and the answers that are left.
  abbrev Answers : World kv → Option Error × World kv → Type 0
  Answers w p =
      ((p.0 ≡ none) ↔ (first_answer w.answers ≡ applied)) × (p.1.answers ≡ later_answers w.answers)

  change_by-Answers :
      (a : Answer) (f : kv.State → kv.State) (t : Text) (w : World kv)
      → ((joined_to t (change_by kv a f w).0 ≡ none) ↔ (a ≡ applied))
        × ((change_by kv a f w).1.answers ≡ w.answers)
  change_by-Answers applied f t w = ground arith
  change_by-Answers (lost e) f t w = ground arith
  change_by-Answers (unheard e) f t w = ground arith

  write-request :
      (client : Etcd) (v : Text) (w : World kv)
      → client.id ≢ 0
      → write kv uuids client v w ≡ request kv (kv.put (key kv uuids client) v) w
  unfolding write
  write-request client v w named = ground arith

  save_space-Answers :
      (id : ℕ) (s : ExecutionSpace) (w : World kv)
      → id ≢ 0
      → Answers w (save_space kv uuids spaces (open_id db id) s w)
  unfolding save_space open_id request
  save_space-Answers id s w named =
      subst
        (λ p. Answers w (joined_to (codes "failed to write execution space to database") p.0, p.1))
        (sym (write-request (open_id db id) (spaces.encode (record s { executors = [] })) w named))
        (change_by-Answers (first_answer w.answers) _
          (codes "failed to write execution space to database") (moved_on kv w))

  after_fail_iff :
      (error : Option Error) → (after_fail kv uuids specs spaces db error ≡ panics) ↔ (error ≡ none)
  after_fail_iff none = ground arith
  after_fail_iff (some e) = ground arith

  finish_by_iff :
      (s : ExecutionSpace) (w : World kv) (p : Option Error × World kv)
      → s.id ≢ 0
      → Answers w p
      → ((finish_by kv uuids specs spaces db s p).0 ≡ panics)
        ↔ ((first_answer w.answers ≢ applied) × (first_answer (later_answers w.answers) ≡ applied))
  unfolding fail_space
  finish_by_iff s w (none, later) named (ok, left) = ((λ h. cc (h)), λ x. absurd (x.0 (ok.0 refl)))
  finish_by_iff s w (some e, later) named (ok, left) =
      let (failing, rest) = save_space-Answers s.id _ later named in
      let (to, from) = after_fail_iff (fail_space kv uuids spaces (open_id db s.id) s e later).0 in
      (
        (λ h. ((λ a. cc (ok.1 a)), ap first_answer (sym left) ∙ failing.0 (to h))),
        λ x. from (failing.1 (ap first_answer left ∙ x.1)),
      )

  -- The end of a checkout panics exactly if the write of the finished space fails and the write of
  -- the failure then succeeds.
  pub finish-panics_iff :
      (s : ExecutionSpace) (w : World kv)
      → s.id ≢ 0
      → ((finish kv uuids specs spaces db s w).0 ≡ panics)
        ↔ ((first_answer w.answers ≢ applied) × (first_answer (later_answers w.answers) ≡ applied))
  unfolding finish
  finish-panics_iff s w named =
      finish_by_iff (checked_out kv uuids specs spaces db s) w _ named
        (save_space-Answers s.id (checked_out kv uuids specs spaces db s) w named)

  start_by-panics :
      (cfg : ExecutorConfig) (ids : FreshIds) (p : Option Error × World kv) (n : ℕ)
      → cfg.environment ≡ none
      → cfg.amount ≡ suc n
      → p.0 ≡ none
      → (start_by kv uuids specs spaces db cfg ids p).0 ≡ panics
  unfolding checkout_loop
  start_by-panics cfg ids (some e, w) n env some_left h = absurd (cc (h))
  start_by-panics cfg ids (none, w) n env some_left h =
      ap
        (λ k.
          (checkout_loop kv uuids specs spaces db cfg.common ids k 0 cfg.environment
            (new cfg.checkout_id) w).0)
        some_left
      ∙ ap
          (λ m.
            (checkout_loop kv uuids specs spaces db cfg.common ids (suc n) 0 m (new cfg.checkout_id)
              w).0)
          env

  -- A checkout of at least one executor whose request has no environment panics, once the pending
  -- space was written.
  pub checkout-panics :
      (cfg : ExecutorConfig) (ids : FreshIds) (w : World kv) (n : ℕ)
      → cfg.environment ≡ none
      → cfg.amount ≡ suc n
      → cfg.checkout_id ≢ 0
      → first_answer w.answers ≡ applied
      → (checkout kv uuids specs spaces db cfg ids w).0 ≡ panics
  unfolding checkout
  checkout-panics cfg ids w n env some_left named answered =
      start_by-panics cfg ids _ n env some_left
        ((save_space-Answers cfg.checkout_id (new cfg.checkout_id) w named).0.1 answered)
