-- ===== src/Space/Starting/Launch.antt =====
-- `Start` of pkg/executionspace/v1alpha/provider.go together with the checkout that it starts.
use etos_api.Prelude.{
  ℕ, suc, ◌≡◌, ◌≢◌, refl, ap, ◌∙◌, Bool, true, false, Option, none, some, Text, codes, [],
}
use etos_api.Database.{applied, first_answer, Uuids, Kv, Etcd, open_id, World, key}
use etos_api.Space.{Map, set, ExecutorSpec, ExecutionSpace, Codec, Decoded, value, undecoded}
use etos_api.Space.Provider.{FreshIds, ExecutorConfig, panics, checkout}
use etos_api.Space.Provider.Outcome.{AreFresh}
use etos_api.Space.Provider.Answering.{answering}
use etos_api.Space.Provider.Success.{CheckedOut, checkout-CheckedOut}
use etos_api.Space.Provider.Panics.{checkout-panics}
use etos_api.Space.Starting.{
  Dataset, StartRequest, verify_start_input, rounds_of, maximum_of, send_error, with_purl,
  assign_if, and_then, not_empty, assigned, with_dataset, Started, Provider, launched, started_by,
  start,
}

-- The body is refused: it cannot be decoded, or its artifact identity is no package URL.
abbrev pub Refused : (Text → Option Text) → Decoded StartRequest → Type 0
Refused purl (undecoded e) = Unit
Refused purl (value r) = purl r.artifact_identity ≢ none

module _ (p : Provider) (identifier : Text) (checkout_id : ℕ) (purl : Text → Option Text) where
  with_purl-refused :
      (r : StartRequest) (error : Option Text)
      → error ≢ none
      → ((started_by p identifier checkout_id (with_purl r error)).status ≡ 500)
        × ((started_by p identifier checkout_id (with_purl r error)).checkout ≡ none)
  unfolding send_error
  with_purl-refused r none h = absurd (h refl)
  with_purl-refused r (some t) h = (refl, refl)

  -- A request whose body is refused is answered with 500, although the check of the input calls it a
  -- bad request, and starts no checkout.
  pub start-Refused :
      (body : Decoded StartRequest)
      → Refused purl body
      → ((start p identifier checkout_id purl body).status ≡ 500)
        × ((start p identifier checkout_id purl body).checkout ≡ none)
  unfolding start verify_start_input send_error
  start-Refused (undecoded e) h = (refl, refl)
  start-Refused (value r) h = with_purl-refused r (purl r.artifact_identity) h

  assign_if-some :
      (b : Bool) (k v : Text) (m : Map)
      → (m2 : Map) × (assign_if b k v (some m) ≡ assigned (some m2))
  assign_if-some true k v m = (set k v m, refl)
  assign_if-some false k v m = (m, refl)

  with_dataset-some :
      (d : Dataset) (m : Map) → (m2 : Map) × (with_dataset d (some m) ≡ assigned (some m2))
  unfolding with_dataset
  with_dataset-some d m =
      let last = λ (x : Option Map). assign_if d.dev (codes "DEV") (codes "true") x in
      let middle = λ (x : Option Map).
        and_then (assign_if (not_empty d.etr_repo) (codes "ETR_REPOSITORY") d.etr_repo x) last in
      let (m1, e1) = assign_if-some (not_empty d.etr_branch) (codes "ETR_BRANCH") d.etr_branch m in
      let (m2, e2) = assign_if-some (not_empty d.etr_repo) (codes "ETR_REPOSITORY") d.etr_repo m1 in
      let (m3, e3) = assign_if-some d.dev (codes "DEV") (codes "true") m2 in
      (m3, ap (λ a. and_then a middle) e1 ∙ ap (λ a. and_then a last) e2 ∙ e3)

  with_dataset-none :
      (d : Dataset)
      → d.etr_branch ≡ []
      → d.etr_repo ≡ []
      → d.dev ≡ false
      → with_dataset d none ≡ assigned none
  unfolding with_dataset
  with_dataset-none d a b c = rw (a, b, c)

  -- A valid request whose environment map can be assigned to.
  start-launched :
      (body : Decoded StartRequest) (r : StartRequest) (m : Option Map)
      → body ≡ value r
      → purl r.artifact_identity ≡ none
      → with_dataset r.dataset r.environment ≡ assigned m
      → start p identifier checkout_id purl body ≡ launched p identifier checkout_id r (assigned m)
  unfolding start verify_start_input
  start-launched body r m decoded ok assignable =
      ap (λ b. started_by p identifier checkout_id (verify_start_input b purl)) decoded
      ∙ ap (λ o. started_by p identifier checkout_id (with_purl r o)) ok
      ∙ ap (launched p identifier checkout_id r) assignable

  module _ (kv : Kv) (uuids : Uuids) (specs : Codec ExecutorSpec) (spaces : Codec ExecutionSpace)
      (db : Etcd) where
    -- A start: it answered 200, and its checkout ended as said.
    pub record IsLaunched (r : StartRequest) (s : Started) (Ends : ExecutorConfig → Type 0)
        : Type 0 where
      pub ok : s.status ≡ 200
      pub config : ExecutorConfig
      pub launched_as : s.checkout ≡ some config
      pub amount : config.amount ≡ rounds_of (maximum_of r)
      pub id : config.checkout_id ≡ checkout_id
      pub url : config.common.url ≡ p.url
      pub ends : Ends config

    -- A valid request with an environment is answered with 200, and if the database answers every
    -- request and the UUIDs are used once and not nil, its checkout ends without a panic and `Status`
    -- then answers with as many executors as the request asks for: its maximum, or its minimum if
    -- the maximum is 0.
    pub start-CheckedOut :
        (bad : Text → Text) (ids : FreshIds) (r : StartRequest) (m : Map) (store : kv.State)
        → purl r.artifact_identity ≡ none
        → r.environment ≡ some m
        → checkout_id ≢ 0
        → ((j : ℕ) → (ids j).0 ≢ 0)
        → AreFresh ids checkout_id
        → kv.get (key kv uuids (open_id db checkout_id)) store ≡ none
        → IsLaunched r (start p identifier checkout_id purl (value r)) (λ cfg.
          CheckedOut kv uuids specs spaces db bad cfg
            (checkout kv uuids specs spaces db cfg ids (answering kv uuids specs spaces db store)))
    start-CheckedOut bad ids r m store ok env named all_named fresh absent =
        let (m2, assignable) = with_dataset-some r.dataset m in
        let e =
          start-launched (value r) r (some m2) refl ok
            (ap (with_dataset r.dataset) env ∙ assignable) in
        record {
          ok = ap (λ s. s.status) e;
          config = _;
          launched_as = ap (λ s. s.checkout) e;
          amount = refl;
          id = refl;
          url = refl;
          ends =
              checkout-CheckedOut kv uuids specs spaces db bad _ ids m2 store refl named all_named
                fresh absent;
        }

    -- A valid request without an environment and with an empty dataset is answered with 200 too, but
    -- if it asks for an executor its checkout panics, once the pending space was written.
    pub start-panics :
        (ids : FreshIds) (r : StartRequest) (n : ℕ) (w : World kv)
        → purl r.artifact_identity ≡ none
        → r.environment ≡ none
        → r.dataset.etr_branch ≡ []
        → r.dataset.etr_repo ≡ []
        → r.dataset.dev ≡ false
        → rounds_of (maximum_of r) ≡ suc n
        → checkout_id ≢ 0
        → first_answer w.answers ≡ applied
        → IsLaunched r
            (start p identifier checkout_id purl (value r))
            (λ cfg. (checkout kv uuids specs spaces db cfg ids w).0 ≡ panics)
    start-panics ids r n w ok env branch repo dev some_left named answered =
        let e =
          start-launched (value r) r none refl ok
            (ap (with_dataset r.dataset) env ∙ with_dataset-none r.dataset branch repo dev) in
        record {
          ok = ap (λ s. s.status) e;
          config = _;
          launched_as = ap (λ s. s.checkout) e;
          amount = refl;
          id = refl;
          url = refl;
          ends = checkout-panics kv uuids specs spaces db _ ids w n refl some_left named answered;
        }
