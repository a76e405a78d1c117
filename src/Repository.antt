-- ===== src/Repository.antt =====
-- internal/eventrepository/eventrepository.go: queries to the event repository. The service is a
-- parameter: what it answers to a query, as the events of the body or an error.
use etos_api.Prelude.{ℕ, Option, none, some, List, [], ◌∷◌, Text, codes, ◌==◌, if◌then◌else◌}
use etos_api.Database.{message}
use etos_api.Space.{Map, Decoded, value, undecoded}

-- What the code reads of an Eiffel event: `Meta.ID`, `Data.Name` and the first link `CONTEXT`.
pub record EiffelEvent : Type 0 where
  pub id : Text
  pub name : Text
  pub context : Text

-- `getEvents` with the decoding of the body.
abbrev pub Repository : Type 0
Repository = Map → Decoded (List EiffelEvent)

-- A GET request of a URL with a query: no response, or a status with a body that is read or not.
abbrev pub Http : Type 0
Http = Text → Map → Option (ℕ × Option Text)

-- `getEvents`: the body, whatever the status is unless it is 404. The request for a URL that cannot be
-- parsed has no response either.
unfoldable pub get_events : Http → Text → Map → Decoded Text
get_events http url query = elim (http url query) [
  | none ↦ undecoded (message (codes "no response"))
  | some response ↦
      if response.0 == 404
      then undecoded (message (codes "event not found in event repository"))
      else elim (response.1) [
        | none ↦ undecoded (message (codes "unreadable body"))
        | some body ↦ value body
      ]
]

abbrev decoded_by : (Text → Option (List EiffelEvent)) → Decoded Text → Decoded (List EiffelEvent)
decoded_by decode (undecoded e) = undecoded e
decoded_by decode (value body) = elim (decode body) [
  | none ↦ undecoded (message (codes "invalid JSON"))
  | some events ↦ value events
]

-- The repository at a URL, with encoding/json as `decode`.
unfoldable pub repository_at : Http → (Text → Option (List EiffelEvent)) → Text → Repository
unfolding get_events
repository_at http decode url query = decoded_by decode (get_events http url query)

abbrev pub first_of : Text → Decoded (List EiffelEvent) → Decoded EiffelEvent
first_of missing (undecoded e) = undecoded e
first_of missing (value []) = undecoded (message missing)
first_of missing (value (e ∷ es)) = value e

abbrev pub by_id : Text → Text → Map
by_id id kind = (codes "meta.id", id) ∷ (codes "meta.type", kind) ∷ []

-- `EnvironmentDefined`.
unfoldable pub environment_defined : Repository → Text → Decoded EiffelEvent
environment_defined repository id =
    first_of (codes "no environment defined found")
      (repository (by_id id (codes "EiffelEnvironmentDefinedEvent")))

-- `ActivityTriggered`.
unfoldable pub activity_triggered : Repository → Text → Decoded EiffelEvent
activity_triggered repository id =
    first_of (codes "no sub suite found")
      (repository (by_id id (codes "EiffelActivityTriggeredEvent")))

abbrev suite_of : Repository → Decoded EiffelEvent → Decoded EiffelEvent
suite_of repository (undecoded e) = undecoded e
suite_of repository (value activity) =
    first_of (codes "no sub suite found")
      (repository (by_id activity.context (codes "EiffelTestSuiteStartedEvent")))

-- `MainSuiteStarted`: the suite that the activity is linked to.
unfoldable pub main_suite_started : Repository → Text → Decoded EiffelEvent
main_suite_started repository id = suite_of repository (activity_triggered repository id)

-- `TestSuiteStarted`.
unfoldable pub test_suite_started : Repository → Text → Text → Decoded EiffelEvent
test_suite_started repository id name = first_of (codes "no sub suite found") (
    repository (
      (codes "links.target", id)
      ∷ (codes "meta.type", codes "EiffelTestSuiteStartedEvent")
      ∷ (codes "data.name", name)
      ∷ []))
