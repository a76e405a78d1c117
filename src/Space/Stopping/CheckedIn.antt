-- ===== src/Space/Stopping/CheckedIn.antt =====
-- `Stop` of pkg/executionspace/v1alpha/provider.go: what a request that succeeds, or fails, has done.
use etos_api.Prelude.{
  ℕ, ◌≡◌, ◌≢◌, inl, inr, refl, ap, ◌∙◌, arith, Option, none, some, List, [], ◌∷◌, Text, All,
  Bool-cases, text_eq, text_eq_iff,
}
use etos_api.Database.{Error, eof, Uuids, Kv, Etcd, open_id, World, key}
use etos_api.Space.{ExecutorSpec, ExecutionSpace, undecoded, Codec, delete_spec}
use etos_api.Space.Saves.{Saved, write-Saved}
use etos_api.Space.Provider.{checkin, after_delete, decoded_from, build_of}
use etos_api.Space.Stopping.{Stops, stop_all, checked_in, after_stops, stop_executors}
use etos_api.Space.Stopping.Stopped.{
  build_at, IsStopped, stop_all-IsStopped, stop_all-store, stop_all-nothing,
}

module _ (kv : Kv) (uuids : Uuids) (specs : Codec ExecutorSpec) (spaces : Codec ExecutionSpace)
    (db : Etcd) where
  -- An executor that was checked in: the value under its id is empty.
  abbrev pub Emptied : kv.State → ExecutorSpec → Type 0
  Emptied store e = kv.get (key kv uuids (open_id db e.id)) store ≡ some []

  Saved-Emptied :
      (k l : Text) (w : World kv) (p : Option Error × World kv)
      → Saved kv k [] w p
      → kv.get l w.store ≡ some []
      → kv.get l p.1.store ≡ some []
  Saved-Emptied k l w p (inr (same, bad)) h = ap (kv.get l) same ∙ h
  Saved-Emptied k l w p (inl put) h = elim (Bool-cases (text_eq l k)) [
    | inl e ↦
        ap (kv.get l) put
        ∙ ap (λ x. kv.get x (kv.put k [] w.store)) ((text_eq_iff l k).0 e)
        ∙ kv.get_put k [] w.store
    | inr e ↦
        ap (kv.get l) put
        ∙ kv.get_put_other k l [] w.store (λ same. cc (e, (text_eq_iff l k).1 same))
        ∙ h
  ]

  delete_spec-Saved :
      (id : ℕ) (w : World kv)
      → Saved kv (key kv uuids (open_id db id)) [] w (delete_spec kv uuids (open_id db id) w)
  unfolding delete_spec
  delete_spec-Saved id w = write-Saved kv uuids (open_id db id) [] w

  abbrev Keeps : (World kv → Option Error × World kv) → Type 0
  Keeps f =
      (l : Text) (w : World kv) → kv.get l w.store ≡ some [] → kv.get l (f w).1.store ≡ some []

  after_delete-Keeps :
      (next : World kv → Option Error × World kv) (l : Text) (p : Option Error × World kv)
      → Keeps next
      → kv.get l p.1.store ≡ some []
      → kv.get l (after_delete kv uuids specs spaces db next p).1.store ≡ some []
  after_delete-Keeps next l (none, w) k h = k l w h
  after_delete-Keeps next l (some e, w) k h = h

  checkin-Keeps : (es : List ExecutorSpec) → Keeps (checkin kv uuids specs spaces db es)
  unfolding checkin
  checkin-Keeps [] l w h = h
  checkin-Keeps (e ∷ es) l w h =
      after_delete-Keeps (checkin kv uuids specs spaces db es) l
        (delete_spec kv uuids (open_id db e.id) w) (checkin-Keeps es)
        (Saved-Emptied _ l w (delete_spec kv uuids (open_id db e.id) w) (delete_spec-Saved e.id w)
          h)

  after_delete-Emptied :
      (es : List ExecutorSpec) (next : World kv → Option Error × World kv) (k : Text) (w : World kv)
      (p : Option Error × World kv)
      → Saved kv k [] w p
      → Keeps next
      → ((w : World kv) → (next w).0 ≡ none → All (Emptied (next w).1.store) es)
      → (after_delete kv uuids specs spaces db next p).0 ≡ none
      → (kv.get k (after_delete kv uuids specs spaces db next p).1.store ≡ some [])
        × All (Emptied (after_delete kv uuids specs spaces db next p).1.store) es
  after_delete-Emptied es next k w (some e, later) s keeps more h = absurd (cc (h))
  after_delete-Emptied es next k w (none, later) (inr (same, bad)) keeps more h = absurd (bad refl)
  after_delete-Emptied es next k w (none, later) (inl put) keeps more h =
      (keeps k later (ap (kv.get k) put ∙ kv.get_put k [] w.store), more later h)

  checkin-Emptied :
      (es : List ExecutorSpec) (w : World kv)
      → (checkin kv uuids specs spaces db es w).0 ≡ none
      → All (Emptied (checkin kv uuids specs spaces db es w).1.store) es
  unfolding checkin
  checkin-Emptied [] w h = tt
  checkin-Emptied (e ∷ es) w h =
      after_delete-Emptied es (checkin kv uuids specs spaces db es) _ w
        (delete_spec kv uuids (open_id db e.id) w) (delete_spec-Saved e.id w) (checkin-Keeps es)
        (λ later ok. checkin-Emptied es later ok) h

  Emptied-gone :
      (store : kv.State) (es : List ExecutorSpec)
      → All (Emptied store) es
      → All (λ e. build_at kv uuids specs spaces db store e.id ≡ undecoded eof) es
  Emptied-gone store [] h = tt
  Emptied-gone store (e ∷ es) (gone, h) = (
    ap (λ o. build_of kv uuids specs spaces db (decoded_from kv uuids specs spaces db specs o)) gone
        ∙ ap (build_of kv uuids specs spaces db) specs.decode_empty,
    Emptied-gone store es h,
  )

  module _ (stop : Text → Option Error) where
    abbrev AllStopped : List ExecutorSpec → World kv → Type 0
    AllStopped es w =
        All
          (λ e.
            IsStopped kv uuids specs spaces db stop
              (build_at kv uuids specs spaces db w.store e.id))
          es

    checked_in-Emptied :
        (es : List ExecutorSpec) (builds : List Text) (p : Option Error × World kv)
        → (p.0 ≡ none → All (Emptied p.1.store) es)
        → (checked_in kv uuids specs spaces db stop builds p).0 ≡ 204
        → All (Emptied (checked_in kv uuids specs spaces db stop builds p).2.store) es
    checked_in-Emptied es builds (none, w) emptied h = emptied refl
    checked_in-Emptied es builds (some e, w) emptied h = absurd (omega (arith, h))

    checked_in-builds :
        (builds : List Text) (p : Option Error × World kv)
        → (checked_in kv uuids specs spaces db stop builds p).1 ≡ builds
    checked_in-builds builds (none, w) = refl
    checked_in-builds builds (some e, w) = refl

    after_stops-CheckedIn :
        (es : List ExecutorSpec) (w : World kv) (s : Stops (World kv)) (error : Option Error)
        → (error ≡ none → AllStopped es w)
        → (after_stops kv uuids specs spaces db stop es s error).0 ≡ 204
        → AllStopped es w
          × All (Emptied (after_stops kv uuids specs spaces db stop es s error).2.store) es
    after_stops-CheckedIn es w s (some e) stopped h = absurd (omega (arith, h))
    after_stops-CheckedIn es w s none stopped h = (
      stopped refl,
      checked_in-Emptied es s.builds (checkin kv uuids specs spaces db es s.world)
          (checkin-Emptied es s.world) h,
    )

    after_stops-failed :
        (es : List ExecutorSpec) (s : Stops (World kv)) (error : Option Error)
        → error ≢ none
        → ((after_stops kv uuids specs spaces db stop es s error).0 ≡ 500)
          × ((after_stops kv uuids specs spaces db stop es s error).2.store ≡ s.world.store)
    after_stops-failed es s none h = absurd (h refl)
    after_stops-failed es s (some e) h = (refl, refl)

    -- A stop that answers 204 has stopped the job of every executor in the request that the database
    -- had with a build, and every executor is checked in afterwards. The reads and the writes of the
    -- database may fail.
    pub stop_executors-CheckedIn :
        (es : List ExecutorSpec) (w : World kv)
        → (stop_executors kv uuids specs spaces db stop (some es) w).0 ≡ 204
        → All
            (λ e.
              IsStopped kv uuids specs spaces db stop
                (build_at kv uuids specs spaces db w.store e.id))
            es
          × All (Emptied (stop_executors kv uuids specs spaces db stop (some es) w).2.store) es
    unfolding stop_executors
    stop_executors-CheckedIn es w h =
        after_stops-CheckedIn es w (stop_all kv uuids specs spaces db stop es none w) _
          (stop_all-IsStopped kv uuids specs spaces db stop es w w.store refl) h

    -- If the job of some executor in the request could not be stopped, the answer is 500 and nothing
    -- is checked in: the store is as before.
    pub stop_executors-unchanged :
        (es : List ExecutorSpec) (w : World kv)
        → ¬ All
            (λ e.
              IsStopped kv uuids specs spaces db stop
                (build_at kv uuids specs spaces db w.store e.id))
            es
        → ((stop_executors kv uuids specs spaces db stop (some es) w).0 ≡ 500)
          × ((stop_executors kv uuids specs spaces db stop (some es) w).2.store ≡ w.store)
    unfolding stop_executors
    stop_executors-unchanged es w some_left =
        let (status, same) =
          after_stops-failed es (stop_all kv uuids specs spaces db stop es none w) _ (λ h.
            some_left (stop_all-IsStopped kv uuids specs spaces db stop es w w.store refl h)) in
        (status, same ∙ stop_all-store kv uuids specs spaces db stop es none w)

    after_stops-builds :
        (es : List ExecutorSpec) (s : Stops (World kv)) (error : Option Error)
        → (after_stops kv uuids specs spaces db stop es s error).1 ≡ s.builds
    after_stops-builds es s (some e) = refl
    after_stops-builds es s none = checked_in-builds s.builds _

    -- After a stop that answers 204, the same request stops no job again, whatever the database
    -- answers then.
    pub stop_executors-once :
        (es : List ExecutorSpec) (w again : World kv)
        → (stop_executors kv uuids specs spaces db stop (some es) w).0 ≡ 204
        → again.store ≡ (stop_executors kv uuids specs spaces db stop (some es) w).2.store
        → (stop_executors kv uuids specs spaces db stop (some es) again).1 ≡ []
    unfolding stop_executors
    stop_executors-once es w again h same =
        after_stops-builds es (stop_all kv uuids specs spaces db stop es none again) _
        ∙ stop_all-nothing kv uuids specs spaces db stop es none again _ same
            (Emptied-gone _ es (stop_executors-CheckedIn es w h).1)
