-- ===== src/Space/Executor/Waiting.antt =====
-- `waitStart` of pkg/executionspace/v1alpha/executor.go: what a wait that succeeds has seen.
use etos_api.Prelude.{
  ◌≡◌, ◌⊎◌, inl, inr, refl, Bool, true, false, Option, none, some, List, [], ◌∷◌, Text, All,
}
use mathlib.Core.Path.{subst}
use etos_api.Database.{Error}
use etos_api.Space.{Decoded, value, undecoded}
use etos_api.Repository.{
  EiffelEvent, Repository, environment_defined, main_suite_started, test_suite_started,
}
use etos_api.Space.Executor.{
  SubSuiteState, fresh_state, Round, get_sub_suite, with_main, with_environment, after_sub_suite,
  in_round, wait_start,
}

abbrev pub Any {ℓ} : {A : Type ℓ} → (A → Type 0) → List A → Type 0
Any P [] = ⊥
Any P (x ∷ xs) = P x ⊎ Any P xs

-- Every element that has a property is a place where the list has it.
All-Any {ℓ κ} :
    {A : Type ℓ} {B : Type κ} (P : B → A → Type 0) (whole ys : List A)
    → ((b : B) → Any (P b) ys → Any (P b) whole)
    → All (λ y. (b : B) → P b y → Any (P b) whole) ys
All-Any P whole [] f = tt
All-Any P whole (y ∷ ys) f = ((λ b p. f b (inl p)), All-Any P whole ys (λ b a. f b (inr a)))

-- The answers that a wait for the environment `id` looks for in a round.
abbrev pub AnswersEnvironment : Text → EiffelEvent → Round → Type 0
AnswersEnvironment id env r = environment_defined r.repository id ≡ value env

abbrev pub AnswersMain : EiffelEvent × EiffelEvent → Round → Type 0
AnswersMain (env, main) r = main_suite_started r.repository env.context ≡ value main

abbrev pub AnswersSuite : EiffelEvent → EiffelEvent → EiffelEvent → Round → Type 0
AnswersSuite env main event r =
    (r.alive ≡ value true) × (test_suite_started r.repository main.id env.name ≡ value event)

-- The rounds have seen the environment, the main suite of that environment, and a sub suite of both
-- in a round in which the test runner was alive.
pub record Found (rounds : List Round) (id : Text) : Type 0 where
  pub environment : EiffelEvent
  pub main_suite : EiffelEvent
  pub sub_suite : EiffelEvent
  pub environment_seen : Any (AnswersEnvironment id environment) rounds
  pub main_seen : Any (AnswersMain (environment, main_suite)) rounds
  pub suite_seen : Any (AnswersSuite environment main_suite sub_suite) rounds

module _ (id : Text) (E : EiffelEvent → Type 0) (M : EiffelEvent × EiffelEvent → Type 0) where
  -- What the round answers is known.
  abbrev Sound : Round → Type 0
  Sound r =
      ((env : EiffelEvent) → AnswersEnvironment id env r → E env)
      × ((p : EiffelEvent × EiffelEvent) → AnswersMain p r → M p)

  -- What the state keeps is known.
  abbrev Known : Option EiffelEvent → Option EiffelEvent → Type 0
  Known none none = Unit
  Known none (some main) = ⊥
  Known (some env) none = E env
  Known (some env) (some main) = E env × M (env, main)

  abbrev Seen : Repository → EiffelEvent → Type 0
  Seen repository event =
      (env : EiffelEvent) × (main : EiffelEvent) × E env
      × M (env, main)
      × (test_suite_started repository main.id env.name ≡ value event)

  -- A call of `getSubSuite`: the state stays known, and an event comes from what is known.
  abbrev Good : Repository → Decoded EiffelEvent × SubSuiteState → Type 0
  Good repository (d, s) =
      Known s.environment s.main_suite
      × ((event : EiffelEvent) → d ≡ value event → Seen repository event)

  with_main-Good :
      (r : Round) (env : EiffelEvent) (d : Decoded EiffelEvent)
      → E env
      → ((main : EiffelEvent) → d ≡ value main → M (env, main))
      → Good r.repository (with_main r.repository env d)
  with_main-Good r env (undecoded e) known m = (known, λ event h. cc)
  with_main-Good r env (value main) known m =
      ((known, m main refl), λ event h. (env, main, known, m main refl, h))

  first-Good :
      (r : Round) (d : Decoded EiffelEvent)
      → Sound r
      → ((env : EiffelEvent) → d ≡ value env → E env)
      → Good r.repository (with_environment r.repository none d)
  first-Good r (undecoded e) sound known = (tt, λ event h. cc)
  first-Good r (value env) (s, t) known =
      with_main-Good r env (main_suite_started r.repository env.context) (known env refl)
        (λ main h. t (env, main) h)

  get_sub_suite-Good :
      (r : Round) (env main : Option EiffelEvent)
      → Sound r
      → Known env main
      → Good r.repository
          (get_sub_suite r.repository id (record { environment = env; main_suite = main }))
  unfolding get_sub_suite
  get_sub_suite-Good r none none (s, t) known =
      first-Good r (environment_defined r.repository id) (s, t) s
  get_sub_suite-Good r none (some main) sound known = absurd known
  get_sub_suite-Good r (some env) none (s, t) known =
      with_main-Good r env (main_suite_started r.repository env.context) known
        (λ main h. t (env, main) h)
  get_sub_suite-Good r (some env) (some main) sound (e, m) =
      with_main-Good r env (value main) e (λ other h. subst (λ x. M (env, x)) (cc (h)) m)

  -- A round with a sub suite of what is known.
  abbrev Reached : List Round → Type 0
  Reached rounds =
      (env : EiffelEvent) × (main : EiffelEvent) × (event : EiffelEvent) × E env
      × M (env, main)
      × Any (AnswersSuite env main event) rounds

  later-Reached : (r : Round) (rounds : List Round) → Reached rounds → Reached (r ∷ rounds)
  later-Reached r rounds (env, main, event, e, m, a) = (env, main, event, e, m, inr a)

  after_sub_suite-Reached :
      (again : SubSuiteState → Option Error) (r : Round) (rounds : List Round)
      (p : Decoded EiffelEvent × SubSuiteState)
      → Good r.repository p
      → r.alive ≡ value true
      → ((s : SubSuiteState) → Known s.environment s.main_suite → again s ≡ none → Reached rounds)
      → after_sub_suite again p ≡ none
      → Reached (r ∷ rounds)
  after_sub_suite-Reached again r rounds (undecoded e, s) (known, seen) alive next h =
      later-Reached r rounds (next s known h)
  after_sub_suite-Reached again r rounds (value event, s) (known, seen) alive next h =
      let (env, main, e, m, suite) = seen event refl in (env, main, event, e, m, inl (alive, suite))

  in_round-Reached :
      (again : SubSuiteState → Option Error) (r : Round) (rounds : List Round) (s : SubSuiteState)
      (alive : Decoded Bool)
      → Sound r
      → Known s.environment s.main_suite
      → r.alive ≡ alive
      → ((s : SubSuiteState) → Known s.environment s.main_suite → again s ≡ none → Reached rounds)
      → in_round again r.repository id s alive ≡ none
      → Reached (r ∷ rounds)
  in_round-Reached again r rounds s (undecoded e) sound known at next h =
      later-Reached r rounds (next s known h)
  in_round-Reached again r rounds s (value false) sound known at next h = absurd (cc (h))
  in_round-Reached again r rounds s (value true) sound known at next h =
      after_sub_suite-Reached again r rounds (get_sub_suite r.repository id s)
        (get_sub_suite-Good r s.environment s.main_suite sound known) at next h

  wait_start-Reached :
      (rounds : List Round) (s : SubSuiteState)
      → All Sound rounds
      → Known s.environment s.main_suite
      → wait_start rounds id s ≡ none
      → Reached rounds
  unfolding wait_start
  wait_start-Reached [] s sound known h = absurd (cc (h))
  wait_start-Reached (r ∷ rounds) s (here, sound) known h =
      in_round-Reached (wait_start rounds id) r rounds s r.alive here known refl
        (λ s2 known2 h2. wait_start-Reached rounds s2 sound known2 h2) h

All-both :
    (P Q : Round → Type 0) (rounds : List Round)
    → All P rounds
    → All Q rounds
    → All (λ r. P r × Q r) rounds
All-both P Q [] a b = tt
All-both P Q (r ∷ rounds) (p, a) (q, b) = ((p, q), All-both P Q rounds a b)

-- A wait that succeeds has found the environment under the id of the executor, the main suite of
-- that environment, and a sub suite of the main suite with the environment's name, the last in a
-- round in which the test runner was alive.
pub wait_start-Found :
    (rounds : List Round) (id : Text) → wait_start rounds id fresh_state ≡ none → Found rounds id
wait_start-Found rounds id h =
    let (env, main, event, e, m, a) =
      wait_start-Reached id (λ env. Any (AnswersEnvironment id env) rounds)
        (λ p. Any (AnswersMain p) rounds) rounds fresh_state
        (All-both _ _ rounds (All-Any (AnswersEnvironment id) rounds rounds (λ b a. a))
          (All-Any AnswersMain rounds rounds (λ b a. a)))
        tt h in
    record {
      environment = env;
      main_suite = main;
      sub_suite = event;
      environment_seen = e;
      main_seen = m;
      suite_seen = a;
    }
