-- ===== src/Space/Stopping/Stopped.antt =====
-- `Stop` of pkg/executionspace/v1alpha/provider.go: the jobs that the loop over the executors has stopped.
use etos_api.Prelude.{
  ℕ, ◌≡◌, ◌≢◌, ◌⊎◌, inl, inr, refl, ◌∙◌, Option, none, some, List, [], ◌∷◌, Text, All,
}
use mathlib.Core.Path.{subst}
use etos_api.Database.{
  Error, eof, message, Answer, applied, lost, unheard, first_answer, Uuids, Kv, Etcd, open_id,
  World, key,
}
use etos_api.Space.{ExecutorSpec, ExecutionSpace, Decoded, value, undecoded, Codec}
use etos_api.Space.Provider.{job, decoded_from, load_by, build_of, executor_spec}
use etos_api.Space.Stopping.{join_errors, after_stop, Stops, stop_one, stop_all}

join_errors-some : (e : Option Error) (f : Error) → join_errors e f ≢ none
join_errors-some none f h = cc
join_errors-some (some e) f h = cc

after_stop-some : (r e : Option Error) → e ≢ none → after_stop r e ≢ none
after_stop-some none e h = h
after_stop-some (some f) e h = join_errors-some e f

module _ (kv : Kv) (uuids : Uuids) (specs : Codec ExecutorSpec) (spaces : Codec ExecutionSpace)
    (db : Etcd) where
  -- The build of an executor in the store.
  abbrev pub build_at : kv.State → ℕ → Decoded Text
  build_at store id =
      build_of kv uuids specs spaces db
        (decoded_from kv uuids specs spaces db specs (kv.get (key kv uuids (open_id db id)) store))

  abbrev pub Known : kv.State → ℕ → Decoded Text → Type 0
  Known store id d = (d ≡ build_at store id) ⊎ ((t : Text) × (d ≡ undecoded (message t)))

  load-Known :
      (a : Answer) (id : ℕ) (w : World kv)
      → Known w.store id
          (build_of kv uuids specs spaces db (load_by kv uuids specs spaces db specs a id w))
  load-Known applied id w = inl refl
  load-Known (lost t) id w = inr (t, refl)
  load-Known (unheard t) id w = inr (t, refl)

  pub job-Known : (id : ℕ) (w : World kv) → Known w.store id (job kv uuids specs spaces db id w).0
  unfolding job executor_spec
  job-Known id w = load-Known (first_answer w.answers) id w

  pub job-store : (id : ℕ) (w : World kv) → (job kv uuids specs spaces db id w).1.store ≡ w.store
  unfolding job executor_spec
  job-store id w = refl

  module _ (stop : Text → Option Error) where
    -- The executor was checked in before, or it has no build, or its build was stopped.
    abbrev pub IsStopped : Decoded Text → Type 0
    IsStopped d =
        (d ≡ undecoded eof)
        ⊎ (d ≡ value [])
        ⊎ ((build : Text) × (d ≡ value build) × (stop build ≡ none))

    abbrev Fails : (Option Error → World kv → Stops (World kv)) → Type 0
    Fails next = (e : Option Error) (w : World kv) → e ≢ none → (next e w).error ≢ none

    stop_one-Fails :
        (next : Option Error → World kv → Stops (World kv)) (p : Decoded Text × World kv)
        (e : Option Error)
        → Fails next
        → e ≢ none
        → (stop_one kv uuids specs spaces db stop next e p).error ≢ none
    stop_one-Fails next (undecoded eof, w) e f h = f e w h
    stop_one-Fails next (undecoded (message t), w) e f h =
        f (join_errors e (message t)) w (join_errors-some e (message t))
    stop_one-Fails next (value [], w) e f h = f e w h
    stop_one-Fails next (value (b ∷ build), w) e f h =
        f (after_stop (stop (b ∷ build)) e) w (after_stop-some (stop (b ∷ build)) e h)

    stop_all-Fails : (es : List ExecutorSpec) → Fails (stop_all kv uuids specs spaces db stop es)
    unfolding stop_all
    stop_all-Fails [] e w h = h
    stop_all-Fails (spec ∷ es) e w h =
        stop_one-Fails (stop_all kv uuids specs spaces db stop es)
          (job kv uuids specs spaces db spec.id w) e (stop_all-Fails es) h

    after_stop-ok :
        (r : Option Error) (next : Option Error → World kv → Stops (World kv)) (w : World kv)
        → Fails next
        → (next (after_stop r none) w).error ≡ none
        → (r ≡ none) × ((next none w).error ≡ none)
    after_stop-ok none next w f h = (refl, h)
    after_stop-ok (some e) next w f h =
        absurd (f (join_errors none e) w (join_errors-some none e) h)

    stop_one-IsStopped :
        (next : Option Error → World kv → Stops (World kv)) (p : Decoded Text × World kv)
        → Fails next
        → (stop_one kv uuids specs spaces db stop next none p).error ≡ none
        → IsStopped p.0 × ((next none p.1).error ≡ none)
    stop_one-IsStopped next (undecoded eof, w) f h = (inl refl, h)
    stop_one-IsStopped next (undecoded (message t), w) f h =
        absurd (f (join_errors none (message t)) w (join_errors-some none (message t)) h)
    stop_one-IsStopped next (value [], w) f h = (inr (inl refl), h)
    stop_one-IsStopped next (value (b ∷ build), w) f h =
        let (ok, rest) = after_stop-ok (stop (b ∷ build)) next w f h in
        (inr (inr (b ∷ build, refl, ok)), rest)

    stored-IsStopped :
        (store : kv.State) (id : ℕ) (d : Decoded Text)
        → Known store id d
        → IsStopped d
        → IsStopped (build_at store id)
    stored-IsStopped store id d (inl same) h = subst IsStopped same h
    stored-IsStopped store id d (inr (t, lost_read)) (inl h) = absurd (cc (lost_read, h))
    stored-IsStopped store id d (inr (t, lost_read)) (inr (inl h)) = absurd (cc (lost_read, h))
    stored-IsStopped store id d (inr (t, lost_read)) (inr (inr (b, h, ok))) =
        absurd (cc (lost_read, h))

    pub stop_all-IsStopped :
        (es : List ExecutorSpec) (w : World kv) (store : kv.State)
        → w.store ≡ store
        → (stop_all kv uuids specs spaces db stop es none w).error ≡ none
        → All (λ e. IsStopped (build_at store e.id)) es
    unfolding stop_all
    stop_all-IsStopped [] w store same h = tt
    stop_all-IsStopped (e ∷ es) w store same h =
        let (here, rest) =
          stop_one-IsStopped (stop_all kv uuids specs spaces db stop es)
            (job kv uuids specs spaces db e.id w) (stop_all-Fails es) h in
        (
          stored-IsStopped store e.id (job kv uuids specs spaces db e.id w).0
              (subst (λ s. Known s e.id (job kv uuids specs spaces db e.id w).0) same
                (job-Known e.id w))
              here,
          stop_all-IsStopped es (job kv uuids specs spaces db e.id w).1 store
              (job-store e.id w ∙ same) rest,
        )

    stop_one-store :
        (next : Option Error → World kv → Stops (World kv)) (error : Option Error)
        (p : Decoded Text × World kv) (store : kv.State)
        → ((e : Option Error) (w : World kv) → (next e w).world.store ≡ w.store)
        → p.1.store ≡ store
        → (stop_one kv uuids specs spaces db stop next error p).world.store ≡ store
    stop_one-store next error (undecoded eof, w) store h same = h error w ∙ same
    stop_one-store next error (undecoded (message t), w) store h same =
        h (join_errors error (message t)) w ∙ same
    stop_one-store next error (value [], w) store h same = h error w ∙ same
    stop_one-store next error (value (b ∷ build), w) store h same =
        h (after_stop (stop (b ∷ build)) error) w ∙ same

    pub stop_all-store :
        (es : List ExecutorSpec) (error : Option Error) (w : World kv)
        → (stop_all kv uuids specs spaces db stop es error w).world.store ≡ w.store
    unfolding stop_all
    stop_all-store [] error w = refl
    stop_all-store (e ∷ es) error w =
        stop_one-store (stop_all kv uuids specs spaces db stop es) error
          (job kv uuids specs spaces db e.id w) w.store (stop_all-store es) (job-store e.id w)

    -- A read of an executor that was checked in stops nothing.
    stop_one-nothing :
        (next : Option Error → World kv → Stops (World kv)) (error : Option Error)
        (p : Decoded Text × World kv) (store : kv.State) (id : ℕ)
        → ((e : Option Error) (w : World kv) → w.store ≡ store → (next e w).builds ≡ [])
        → p.1.store ≡ store
        → Known store id p.0
        → build_at store id ≡ undecoded eof
        → (stop_one kv uuids specs spaces db stop next error p).builds ≡ []
    stop_one-nothing next error (undecoded eof, w) store id h same known gone = h error w same
    stop_one-nothing next error (undecoded (message t), w) store id h same known gone =
        h (join_errors error (message t)) w same
    stop_one-nothing next error (value build, w) store id h same (inl known) gone =
        absurd (cc (known, gone))
    stop_one-nothing next error (value build, w) store id h same (inr (t, known)) gone =
        absurd (cc (known))

    pub stop_all-nothing :
        (es : List ExecutorSpec) (error : Option Error) (w : World kv) (store : kv.State)
        → w.store ≡ store
        → All (λ e. build_at store e.id ≡ undecoded eof) es
        → (stop_all kv uuids specs spaces db stop es error w).builds ≡ []
    unfolding stop_all
    stop_all-nothing [] error w store same h = refl
    stop_all-nothing (e ∷ es) error w store same (gone, h) =
        stop_one-nothing (stop_all kv uuids specs spaces db stop es) error
          (job kv uuids specs spaces db e.id w) store e.id
          (λ error2 w2 same2. stop_all-nothing es error2 w2 store same2 h) (job-store e.id w ∙ same)
          (subst (λ s. Known s e.id (job kv uuids specs spaces db e.id w).0) same
            (job-Known e.id w))
          gone
